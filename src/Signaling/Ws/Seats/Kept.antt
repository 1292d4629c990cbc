-- ===== src/Signaling/Ws/Seats/Kept.antt =====
-- That no operation of the session store takes a player's seat, but for its own socket's closing.
use couchlink.Base.{
  zero, suc, ◌≤◌, ◌≤◌, get_elem?, suc, ap, ℕ, Text, Option, none, some, List, [], ◌∷◌, ◌≡◌, refl,
  sym, ◌∙◌, subst, Bool, true, false, arith, inl, inr, Bool-cases, Option-cases,
}
use couchlink.Proto.Signal.{Role, host, player}
use couchlink.Signaling.Channels.{Channels}
use couchlink.Signaling.Players
use couchlink.Signaling.Players.{PlayerTable}
use couchlink.Signaling.Players.Laws.{IsTable, vacate_lem}
use couchlink.Signaling.Session.Map.{find}
use couchlink.Signaling.Session.Peers.{
  is_current, unregister_entry, is_stale, unregister, unregister_host, unregister_player,
  leave_slot, sweep_expired,
}
use couchlink.Signaling.Session.Sweep.{ttl_of, sweep_expired_lem}
use couchlink.Signaling.Session.Store.{
  new_session, entry_or_insert, register_player, register_host, invalid_pin, ok, locked_out, err,
  write, seat_player, register_host_entry, Result, seated_for_host_replay, fail_session,
  record_pin_failure, take_slot, Session, SessionStore,
}
use couchlink.Signaling.Session.Invariant.{
  found-IsTable, IsStore, guarded, found-new, fail_session-players, SessionMap,
}
use couchlink.Signaling.Ws.Seats.{
  SitsAt, HoldsSeat, KeepsTable, KeepsSeats, Seats, put-KeepsSeats, put_new-KeepsSeats,
  vacate-KeepsTable, take_slot-Seats,
}

module _ (ch : Channels) where
  open ch use {Sender, same_channel}

  record_pin_failure-KeepsSeats :
      (tx : Sender) (st : SessionStore ch) (id : Text) (e : Session ch) (now : ℕ)
      → find id st.sessions ≡ some e
      → KeepsSeats ch tx st.sessions (record_pin_failure ch st id now).sessions
  unfolding record_pin_failure
  record_pin_failure-KeepsSeats tx st id e now found =
      rw (found, record_pin_failure)
        (put-KeepsSeats ch tx st.sessions id e (fail_session ch st.max_pin_failures now e) found (
          subst (KeepsTable ch tx e.players)
            (sym (fail_session-players ch st.max_pin_failures now e)) (λ slot sits. sits)))

  -- What a player's registration does to the seats, refused or not.
  abbrev pub PlayerRegistered :
      SessionMap ch → Text → Sender → SessionStore ch × Result (ℕ × ℕ) → Type 0
  PlayerRegistered m id tx (st', err e) = (other : Sender) → KeepsSeats ch other m st'.sessions
  PlayerRegistered m id tx (st', ok (slot, epoch)) =
      ((other : Sender) → KeepsSeats ch other m st'.sessions) × HoldsSeat ch st'.sessions id slot tx

  seat_player-PlayerRegistered :
      (st : SessionStore ch) (id : Text) (e : Session ch) (tx : Sender) (now : ℕ)
      (r : PlayerTable ch × Option (ℕ × ℕ))
      → find id st.sessions ≡ some e
      → Seats ch e.players tx r
      → PlayerRegistered st.sessions id tx (seat_player ch st id e now r)
  unfolding seat_player
  seat_player-PlayerRegistered st id e tx now (t, none) found k =
      λ other. put-KeepsSeats ch other st.sessions id e (record e { players = t }) found (k other)
  seat_player-PlayerRegistered st id e tx now (t, some (slot, epoch)) found (k, sits) =
      let e' : Session ch = record e { players = t; last_activity = now } in
      (
        λ other. put-KeepsSeats ch other st.sessions id e e' found (k other),
        (e', found-new ch st id e', sits),
      )

  pub register_player-PlayerRegistered :
      (st : SessionStore ch) (id pin : Text) (tx : Sender) (now : ℕ)
      → IsStore ch st
      → PlayerRegistered st.sessions id tx (register_player ch st id pin tx now)
  unfolding register_player
  register_player-PlayerRegistered st id pin tx now h = elim (Option-cases (find id st.sessions)) [
    | inl missing ↦ rw (missing, register_player) (λ other sid slot holds. holds)
    | inr (e, found) ↦
        rw (found, register_player)
          (guarded ch (PlayerRegistered st.sessions id tx) st id e pin now (err locked_out)
            (err invalid_pin) _ (λ other sid slot holds. holds)
            (λ other. record_pin_failure-KeepsSeats other st id e now found)
            (seat_player-PlayerRegistered st id e tx now (take_slot ch e.players tx) found
              (take_slot-Seats ch e.players tx (found-IsTable ch st.sessions _ id e h found))))
  ]

  pub register_player-KeepsSeats :
      (other : Sender) (st : SessionStore ch) (id pin : Text) (tx : Sender) (now : ℕ)
      → IsStore ch st
      → KeepsSeats ch other st.sessions (register_player ch st id pin tx now).0.sessions
  register_player-KeepsSeats other st id pin tx now h =
      kept (register_player ch st id pin tx now)
        (register_player-PlayerRegistered st id pin tx now h)
    where
      kept :
          (r : SessionStore ch × Result (ℕ × ℕ))
          → PlayerRegistered st.sessions id tx r
          → KeepsSeats ch other st.sessions r.0.sessions
      kept (st', err e) k = k other
      kept (st', ok (slot, epoch)) k = k.0 other

  register_host_entry-KeepsSeats :
      (other : Sender) (st : SessionStore ch) (id : Text) (e : Session ch) (pin : Text)
      (d p m : Option Text) (tx : Sender) (now : ℕ)
      → find id st.sessions ≡ some e
      → KeepsSeats ch other st.sessions (register_host_entry ch st id e pin d p m tx now).0.sessions
  unfolding register_host_entry
  register_host_entry-KeepsSeats other st id e pin d p m tx now found =
      guarded ch (λ r. KeepsSeats ch other st.sessions r.0.sessions) st id e pin now
        (err locked_out) (err invalid_pin) _ (λ sid slot holds. holds)
        (record_pin_failure-KeepsSeats other st id e now found)
        (put-KeepsSeats ch other st.sessions id e _ found (λ slot sits. sits))

  pub register_host-KeepsSeats :
      (other : Sender) (st : SessionStore ch) (id pin : Text) (d p m : Option Text) (tx : Sender)
      (now : ℕ)
      → KeepsSeats ch other st.sessions (register_host ch st id pin d p m tx now).0.sessions
  unfolding register_host entry_or_insert
  register_host-KeepsSeats other st id pin d p m tx now =
      elim (Option-cases (find id st.sessions)) [
        | inr (e, found) ↦
            rw (found, register_host, entry_or_insert)
              (register_host_entry-KeepsSeats other st id e pin d p m tx now found)
        | inl missing ↦
            let e : Session ch = new_session ch pin d p m now in
            rw (missing, register_host, entry_or_insert)
              (λ sid slot holds.
                register_host_entry-KeepsSeats other _ id e pin d p m tx now (found-new ch st id e)
                  sid slot (put_new-KeepsSeats ch other st.sessions id e missing sid slot holds))
      ]

  -- An operation that changes one session at most, and no seat of it.
  pub kept-KeepsSeats :
      (tx : Sender) (st : SessionStore ch) (id : Text) (f : Session ch → Session ch)
      → ((e : Session ch) → KeepsTable ch tx e.players (f e).players)
      → (let st' : SessionStore ch = elim (find id st.sessions) [
        | none ↦ st
        | some e ↦ write ch st id (f e)
      ] in
          KeepsSeats ch tx st.sessions st'.sessions)
  kept-KeepsSeats tx st id f k = elim (Option-cases (find id st.sessions)) [
    | inl missing ↦ rw missing (λ sid slot holds. holds)
    | inr (e, found) ↦ rw found (put-KeepsSeats ch tx st.sessions id e (f e) found (k e))
  ]

  pub replay-KeepsSeats :
      (tx : Sender) (st : SessionStore ch) (id : Text)
      → KeepsSeats ch tx st.sessions (seated_for_host_replay ch st id).0.sessions
  unfolding seated_for_host_replay Players.replay_for_host Players.get Players.slot_entry
  replay-KeepsSeats tx st id = elim (Option-cases (find id st.sessions)) [
    | inl missing ↦ rw (missing, seated_for_host_replay) (λ sid slot holds. holds)
    | inr (e, found) ↦
        rw (found, seated_for_host_replay)
          (put-KeepsSeats ch tx st.sessions id e _ found (λ slot sits. sits))
  ]

  leave_slot-KeepsSeats :
      (tx : Sender) (st : SessionStore ch) (id : Text) (e : Session ch) (slot now : ℕ)
      (r : PlayerTable ch × Bool)
      → find id st.sessions ≡ some e
      → KeepsTable ch tx e.players r.0
      → KeepsSeats ch tx st.sessions (leave_slot ch st id e slot now r).0.sessions
  unfolding leave_slot
  leave_slot-KeepsSeats tx st id e slot now (t, false) found k =
      put-KeepsSeats ch tx st.sessions id e _ found k
  leave_slot-KeepsSeats tx st id e slot now (t, true) found k =
      put-KeepsSeats ch tx st.sessions id e _ found k

  unregister_entry-KeepsSeats :
      (tx : Sender) (st : SessionStore ch) (id : Text) (e : Session ch) (role : Role)
      (closing : Sender) (now : ℕ)
      → find id st.sessions ≡ some e
      → IsTable ch e.players
      → same_channel closing tx ≡ false
      → KeepsSeats ch tx st.sessions
          (unregister_entry ch role st id e (some closing) now).0.sessions
  unfolding unregister_host unregister_player
  unregister_entry-KeepsSeats tx st id e host closing now found v n =
      elim (Bool-cases (is_current ch e.host_tx (some closing))) [
        | inl y ↦ rw y (put-KeepsSeats ch tx st.sessions id e _ found (λ slot sits. sits))
        | inr stale ↦ rw stale (λ sid slot holds. holds)
      ]
  unregister_entry-KeepsSeats tx st id e player closing now found v n =
      elim (Option-cases (Players.slot_of ch e.players closing)) [
        | inl stranger ↦ rw (stranger, unregister_player) (λ sid slot holds. holds)
        | inr (slot, own) ↦
            let r = Players.vacate ch e.players slot closing in
            rw (own, unregister_player)
              (leave_slot-KeepsSeats tx st id e slot now r found (
                vacate-KeepsTable ch e.players tx slot closing r
                  (vacate_lem ch e.players slot closing v) n))
      ]

  -- A socket that closes takes nobody else's seat.
  pub unregister-KeepsSeats :
      (tx : Sender) (st : SessionStore ch) (id : Text) (role : Role) (closing : Sender) (now : ℕ)
      → IsStore ch st
      → same_channel closing tx ≡ false
      → KeepsSeats ch tx st.sessions (unregister ch st id role (some closing) now).0.sessions
  unfolding unregister
  unregister-KeepsSeats tx st id role closing now h n = elim (Option-cases (find id st.sessions)) [
    | inl missing ↦ rw (missing, unregister) (λ sid slot holds. holds)
    | inr (e, found) ↦
        rw (found, unregister)
          (unregister_entry-KeepsSeats tx st id e role closing now found
            (found-IsTable ch st.sessions _ id e h found) n)
  ]

  counted-seat :
      (ss : List (Option Sender)) (i : ℕ) (s : Sender)
      → get_elem? ss i ≡ some (some s)
      → 1 ≤ Players.count_occupied ch ss
  unfolding Players.count_occupied
  counted-seat [] i s e = cc
  counted-seat (none ∷ ss) zero s e = cc
  counted-seat (none ∷ ss) (suc i) s e = counted-seat ss i s e
  counted-seat (some x ∷ ss) i s e = omega arith

  taken-seat :
      (t : PlayerTable ch) (slot : ℕ) (tx : Sender)
      → SitsAt ch t slot tx
      → Players.is_empty ch t ≡ false
  unfolding Players.is_empty Players.occupied Players.get Players.slot_entry
  taken-seat t zero tx (s, here, own) = cc
  taken-seat t (suc i) tx (s, here, own) =
      ground (arith, counted-seat t.slots i s (seated_entry (get_elem? t.slots i) here))
    where
      seated_entry : (o : Option (Option Sender)) → Players.flat ch o ≡ some s → o ≡ some (some s)
      seated_entry none e = cc
      seated_entry (some none) e = cc
      seated_entry (some (some x)) e = ap (λ o. some o) e

  seated-fresh :
      (ttl now : ℕ) (e : Session ch) (slot : ℕ) (tx : Sender)
      → SitsAt ch e.players slot tx
      → is_stale ch ttl now e ≡ false
  unfolding is_stale
  seated-fresh ttl now e slot tx sits = ground (arith, taken-seat e.players slot tx sits)

  -- A sweep takes nobody's seat.
  pub sweep_expired-KeepsSeats :
      (tx : Sender) (from_std : ℕ → Option ℕ) (st : SessionStore ch) (now : ℕ)
      → IsStore ch st
      → KeepsSeats ch tx st.sessions (sweep_expired ch from_std st now).sessions
  sweep_expired-KeepsSeats tx from_std st now h sid slot (e, here, sits) = (
    e,
    sweep_expired_lem ch from_std st now sid h.0
        ∙ rw here (rw (seated-fresh (ttl_of ch from_std st) now e slot tx sits) refl),
    sits,
  )
