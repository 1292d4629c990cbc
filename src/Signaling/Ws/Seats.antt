-- ===== src/Signaling/Ws/Seats.antt =====
-- A player's seat in the session store, and what an operation on its table does to it.
pub mod Kept
use couchlink.Base.{
  zero, suc, ◌≤◌, ◌≤◌, get_elem?, suc, bytes_eq→eq, ap, ℕ, Text, Option, none, some, List, [], ◌∷◌,
  ◌≡◌, ◌≢◌, refl, sym, ◌∙◌, subst, Bool, true, false, arith, bytes_eq, inl, inr, Bool-cases,
  Option-cases,
}
use couchlink.Proto.Signal.{Role, host, player}
use couchlink.Signaling.Channels.{Channels}
use couchlink.Signaling.Players
use couchlink.Signaling.Players.{PlayerTable}
use couchlink.Signaling.Players.Laws.{
  slot_of-some, IsTable, Assigned, Vacated, assign_lem, vacate_lem,
}
use couchlink.Signaling.Session.Map.{find, put, find-put}
use couchlink.Signaling.Session.Peers.{
  is_current, unregister_entry, is_stale, unregister, unregister_host, unregister_player,
  leave_slot, sweep_expired,
}
use couchlink.Signaling.Session.Sweep.{sweep_expired_lem}
use couchlink.Signaling.Session.Store.{
  new_session, entry_or_insert, register_player, register_host, invalid_pin, ok, locked_out, err,
  write, seat_player, register_host_entry, Result, seated_for_host_replay, fail_session,
  record_pin_failure, take_slot, Session, SessionStore,
}
use couchlink.Signaling.Session.Invariant.{
  found-IsTable, IsStore, guarded, found-new, fail_session-players, SessionMap,
}

module _ (ch : Channels) where
  open ch use {Sender, same_channel}

  -- The slot holds the channel of `tx`.
  abbrev pub SitsAt : PlayerTable ch → ℕ → Sender → Type 0
  SitsAt t slot tx = (s : Sender) × (Players.get ch t slot ≡ some s) × (same_channel s tx ≡ true)

  abbrev pub HoldsSeat : SessionMap ch → Text → ℕ → Sender → Type 0
  HoldsSeat m sid slot tx = (e : Session ch) × (find sid m ≡ some e) × SitsAt e.players slot tx

  abbrev pub KeepsTable : Sender → PlayerTable ch → PlayerTable ch → Type 0
  KeepsTable tx t t' = (slot : ℕ) → SitsAt t slot tx → SitsAt t' slot tx

  -- Every seat of `tx` is still its seat.
  abbrev pub KeepsSeats : Sender → SessionMap ch → SessionMap ch → Type 0
  KeepsSeats tx m m' = (sid : Text) (slot : ℕ) → HoldsSeat m sid slot tx → HoldsSeat m' sid slot tx

  pub put-KeepsSeats :
      (tx : Sender) (m : SessionMap ch) (id : Text) (e e' : Session ch)
      → find id m ≡ some e
      → KeepsTable tx e.players e'.players
      → KeepsSeats tx m (put id e' m)
  put-KeepsSeats tx m id e e' found k sid slot (d, here, sits) =
      elim (Bool-cases (bytes_eq id sid)) [
        | inl y ↦ (
          e',
          find-put id sid e' m ∙ rw y refl,
          k slot (
              subst (λ x. SitsAt x.players slot tx)
                (same_entry (sym here ∙ ap (λ i. find i m) (sym (bytes_eq→eq id sid y)) ∙ found))
                sits),
        )
        | inr n ↦ (d, find-put id sid e' m ∙ rw n here, sits)
      ]
    where
      same_entry : {x y : Session ch} → some x ≡ some y → x ≡ y
      same_entry p = cc p

  pub put_new-KeepsSeats :
      (tx : Sender) (m : SessionMap ch) (id : Text) (e' : Session ch)
      → find id m ≡ none
      → KeepsSeats tx m (put id e' m)
  put_new-KeepsSeats tx m id e' missing sid slot (d, here, sits) =
      elim (Bool-cases (bytes_eq id sid)) [
        | inl y ↦
            absurd (clash (sym here ∙ ap (λ i. find i m) (sym (bytes_eq→eq id sid y)) ∙ missing))
        | inr n ↦ (d, find-put id sid e' m ∙ rw n here, sits)
      ]
    where
      clash : {x : Session ch} → some x ≡ none → ⊥
      clash p = cc p

  assign-KeepsTable :
      (t : PlayerTable ch) (tx : Sender) (r : PlayerTable ch × Option (ℕ × ℕ)) (tx' : Sender)
      → Assigned ch t tx' r
      → KeepsTable tx t r.0
  assign-KeepsTable t tx (t', none) tx' (same, full) slot sits =
      subst (λ x. SitsAt x slot tx) (sym same) sits
  assign-KeepsTable t tx (t', some (at, epoch)) tx' a slot (s, here, own) =
      (s, a.5 slot (λ e. cc (a.2, here, e)) ∙ here, own)

  pub vacate-KeepsTable :
      (t : PlayerTable ch) (tx : Sender) (at : ℕ) (closing : Sender) (r : PlayerTable ch × Bool)
      → Vacated ch t at closing r
      → same_channel closing tx ≡ false
      → KeepsTable tx t r.0
  vacate-KeepsTable t tx at closing (t', false) (same, v) n slot sits =
      subst (λ x. SitsAt x slot tx) (sym same) sits
  vacate-KeepsTable t tx at closing (t', true) v n slot (s, here, own) = (
    s,
    v.4 slot (λ e.
          let p : s ≡ v.0 = cc (v.1, here, e) in
          let q : same_channel s closing ≡ true = rw p v.2 in
          cc (ch.same_trans closing s tx (ch.same_sym closing s ∙ q) own, n))
        ∙ here,
    own,
  )

  -- What a seating does: whoever sits stays, and the sender sits in the slot that it is told.
  abbrev pub Seats : PlayerTable ch → Sender → PlayerTable ch × Option (ℕ × ℕ) → Type 0
  Seats t tx (t', none) = (other : Sender) → KeepsTable other t t'
  Seats t tx (t', some (slot, epoch)) =
      ((other : Sender) → KeepsTable other t t') × SitsAt t' slot tx

  assign-Seats :
      (t : PlayerTable ch) (tx : Sender) (r : PlayerTable ch × Option (ℕ × ℕ))
      → Assigned ch t tx r
      → Seats t tx r
  assign-Seats t tx (t', none) a = λ other. assign-KeepsTable t other (t', none) tx a
  assign-Seats t tx (t', some (slot, epoch)) a =
      (λ other. assign-KeepsTable t other (t', some (slot, epoch)) tx a, (tx, a.4, ch.same_refl tx))

  pub take_slot-Seats :
      (t : PlayerTable ch) (tx : Sender) → IsTable ch t → Seats t tx (take_slot ch t tx)
  unfolding take_slot Players.reassert Players.get Players.slot_entry
  take_slot-Seats t tx v = elim (Option-cases (Players.slot_of ch t tx)) [
    | inl n ↦ rw (n, take_slot) (assign-Seats t tx (Players.assign ch t tx) (assign_lem ch t tx v))
    | inr (slot, n) ↦
        let (s, here, own, low) = slot_of-some ch t tx slot n in
        rw (n, take_slot, n, Players.reassert) (λ other j sits. sits, (s, here, own))
  ]
