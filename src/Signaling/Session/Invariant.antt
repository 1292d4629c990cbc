-- ===== src/Signaling/Session/Invariant.antt =====
-- What holds of the session store after any sequence of operations: each session has one entry, no
-- socket holds two slots of a session, and the gauge of active sessions is right.
use couchlink.Base.{
  bytes_eq_refl, leb, ℕ, ◌+◌, ◌-◌, ◌%◌, ◌^◌, ◌≡◌, refl, sym, ◌∙◌, subst, arith, List, [], ◌∷◌,
  Option, none, some, Bool, true, false, bytes_eq, length, inl, inr, Option-cases, Bool-cases,
  if◌then◌else◌, not,
}
use couchlink.Proto.Signal.{Role, host, player}
use couchlink.Signaling.Channels.{Channels}
use couchlink.Signaling.Players
use couchlink.Signaling.Players.{PlayerTable}
use couchlink.Signaling.Players.Laws.{
  IsTable, default-IsTable, assign-IsTable, vacate-IsTable, reassert-IsTable,
}
use couchlink.Signaling.Session.Map.{
  find-put, Text, find, put, remove, Unique, Values, Values-find, Values-put, Values-remove,
  Unique-put, Unique-remove, length-put, length-remove,
}
use couchlink.Signaling.Session.Store.{
  invalid_pin, new_session, locked_out, entry_or_insert, is_unlocked, err, write, fail_session,
  register_host_entry, seat_player, take_slot, record_pin_failure, Session, SessionStore,
  register_host, register_player,
}
use couchlink.Signaling.Session.Sweep.{Listed, Listed-remove, stale_ids-Listed, ttl_of}
use couchlink.Signaling.Session.Peers.{
  expire, is_current, unregister_player, leave_slot, stale_ids, expire_all, unregister_host,
  unregister, sweep_expired,
}

module _ (ch : Channels) where
  open ch use {Sender, same_channel}

  abbrev pub SessionMap : Type 0
  SessionMap = List (Text × Session ch)

  abbrev pub Seated : Session ch → Type 0
  Seated e = IsTable ch e.players

  -- The sessions and the gauge of active sessions.
  abbrev pub IsCounted : SessionMap → ℕ → Type 0
  IsCounted m active = Unique m × Values Seated m × (active ≡ length m % 2 ^ 64)

  abbrev pub IsStore : SessionStore ch → Type 0
  IsStore st = IsCounted st.sessions st.metrics.sessions_active

  pub put-found :
      (m : SessionMap) (n : ℕ) (id : Text) (e e' : Session ch)
      → IsCounted m n
      → find id m ≡ some e
      → IsTable ch e'.players
      → IsCounted (put id e' m) n
  put-found m n id e e' (u, v, c) found t =
      (Unique-put id e' m u, Values-put Seated id e' m v t, c ∙ ground (arith, length-put id e' m))

  put-new :
      (m : SessionMap) (n : ℕ) (id : Text) (e' : Session ch)
      → IsCounted m n
      → find id m ≡ none
      → IsTable ch e'.players
      → IsCounted (put id e' m) ((n + 1) % 2 ^ 64)
  put-new m n id e' (u, v, c) missing t =
      (Unique-put id e' m u, Values-put Seated id e' m v t, ground (arith, length-put id e' m))

  remove-found :
      (m : SessionMap) (n : ℕ) (id : Text) (e : Session ch)
      → IsCounted m n
      → find id m ≡ some e
      → IsCounted (remove id m) ((n + (2 ^ 64 - 1)) % 2 ^ 64)
  remove-found m n id e (u, v, c) found =
      (Unique-remove id m u, Values-remove Seated id m v, omega (arith, length-remove id m e found))

  pub found-IsTable :
      (m : SessionMap) (n : ℕ) (id : Text) (e : Session ch)
      → IsCounted m n
      → find id m ≡ some e
      → IsTable ch e.players
  found-IsTable m n id e (u, v, c) found = Values-find Seated id m v found

  pub fail_session-players :
      (limit now : ℕ) (e : Session ch) → (fail_session ch limit now e).players ≡ e.players
  unfolding fail_session
  fail_session-players limit now e = elim (Bool-cases (leb limit ((e.pin_failures + 1) % 2 ^ 32))) [
    | inl y ↦ rw y refl
    | inr n ↦ rw n refl
  ]

  record_pin_failure-IsStore :
      (st : SessionStore ch) (id : Text) (e : Session ch) (now : ℕ)
      → IsStore st
      → find id st.sessions ≡ some e
      → IsStore (record_pin_failure ch st id now)
  unfolding record_pin_failure
  record_pin_failure-IsStore st id e now h found =
      let seated = found-IsTable st.sessions _ id e h found in
      rw (found, record_pin_failure)
        (put-found st.sessions _ id e (fail_session ch st.max_pin_failures now e) h found
          (subst (IsTable ch) (sym (fail_session-players st.max_pin_failures now e)) seated))

  -- The two refusals that a registration starts with, and what follows them.
  pub guarded :
      {A : Type 0} (P : SessionStore ch × A → Type 0) (st : SessionStore ch) (id : Text)
      (e : Session ch) (pin : Text) (now : ℕ) (refused wrong : A) (r : SessionStore ch × A)
      → P (st, refused)
      → P (record_pin_failure ch st id now, wrong)
      → P r
      → P (
          if not (is_unlocked ch e now)
          then (st, refused)
          else if not (bytes_eq e.pin pin)
          then (record_pin_failure ch st id now, wrong)
          else r)
  guarded P st id e pin now refused wrong r shut bad good =
      elim (Bool-cases (is_unlocked ch e now)) [
        | inr locked ↦ rw locked shut
        | inl open_now ↦ elim (Bool-cases (bytes_eq e.pin pin)) [
          | inr differs ↦ rw open_now (rw differs bad)
          | inl same ↦ rw open_now (rw same good)
        ]
      ]

  register_host_entry-IsStore :
      (st : SessionStore ch) (id : Text) (e : Session ch) (pin : Text) (d p m : Option Text)
      (tx : Sender) (now : ℕ)
      → IsStore st
      → find id st.sessions ≡ some e
      → IsStore (register_host_entry ch st id e pin d p m tx now).0
  unfolding register_host_entry
  register_host_entry-IsStore st id e pin d p m tx now h found =
      guarded (λ r. IsStore r.0) st id e pin now (err locked_out) (err invalid_pin) _ h
        (record_pin_failure-IsStore st id e now h found)
        (put-found st.sessions _ id e _ h found (found-IsTable st.sessions _ id e h found))

  new_session-IsTable :
      (pin : Text) (d p m : Option Text) (now : ℕ)
      → IsTable ch (new_session ch pin d p m now).players
  unfolding new_session
  new_session-IsTable pin d p m now = default-IsTable ch

  pub found-new :
      (st : SessionStore ch) (id : Text) (e : Session ch) → find id (put id e st.sessions) ≡ some e
  found-new st id e = find-put id id e st.sessions ∙ rw (bytes_eq_refl id) refl

  pub register_host-IsStore :
      (st : SessionStore ch) (id pin : Text) (d p m : Option Text) (tx : Sender) (now : ℕ)
      → IsStore st
      → IsStore (register_host ch st id pin d p m tx now).0
  unfolding register_host entry_or_insert
  register_host-IsStore st id pin d p m tx now h = elim (Option-cases (find id st.sessions)) [
    | inr (e, found) ↦
        rw (found, register_host, entry_or_insert)
          (register_host_entry-IsStore st id e pin d p m tx now h found)
    | inl missing ↦
        rw (missing, register_host, entry_or_insert)
          (register_host_entry-IsStore _ id (new_session ch pin d p m now) pin d p m tx now
            (put-new st.sessions _ id (new_session ch pin d p m now) h missing
              (new_session-IsTable pin d p m now))
            (found-new st id _))
  ]

  take_slot-IsTable :
      (t : PlayerTable ch) (tx : Sender) → IsTable ch t → IsTable ch (take_slot ch t tx).0
  unfolding take_slot
  take_slot-IsTable t tx v = elim (Option-cases (Players.slot_of ch t tx)) [
    | inl n ↦ rw (n, take_slot) (assign-IsTable ch t tx v n)
    | inr (slot, n) ↦ rw (n, take_slot) (reassert-IsTable ch t tx v)
  ]

  seat_player-IsStore :
      (st : SessionStore ch) (id : Text) (e : Session ch) (now : ℕ)
      (r : PlayerTable ch × Option (ℕ × ℕ))
      → IsStore st
      → find id st.sessions ≡ some e
      → IsTable ch r.0
      → IsStore (seat_player ch st id e now r).0
  unfolding seat_player
  seat_player-IsStore st id e now (t, none) h found v = put-found st.sessions _ id e _ h found v
  seat_player-IsStore st id e now (t, some s) h found v = put-found st.sessions _ id e _ h found v

  pub register_player-IsStore :
      (st : SessionStore ch) (id pin : Text) (tx : Sender) (now : ℕ)
      → IsStore st
      → IsStore (register_player ch st id pin tx now).0
  unfolding register_player
  register_player-IsStore st id pin tx now h = elim (Option-cases (find id st.sessions)) [
    | inl missing ↦ rw (missing, register_player) h
    | inr (e, found) ↦
        rw (found, register_player)
          (guarded (λ r. IsStore r.0) st id e pin now (err locked_out) (err invalid_pin) _ h
            (record_pin_failure-IsStore st id e now h found)
            (seat_player-IsStore st id e now (take_slot ch e.players tx) h found
              (take_slot-IsTable e.players tx (found-IsTable st.sessions _ id e h found))))
  ]

  -- An operation that changes one session at most, and not its table of players.
  pub kept-IsStore :
      (st : SessionStore ch) (id : Text) (f : Session ch → Session ch)
      → ((e : Session ch) → (f e).players ≡ e.players)
      → IsStore st
      → IsStore (elim (find id st.sessions) [ none ↦ st | some e ↦ write ch st id (f e) ])
  kept-IsStore st id f same h = elim (Option-cases (find id st.sessions)) [
    | inl missing ↦ rw missing h
    | inr (e, found) ↦ rw found (
        put-found st.sessions _ id e (f e) h found
          (subst (IsTable ch) (sym (same e)) (found-IsTable st.sessions _ id e h found)))
  ]

  unregister_host-IsStore :
      (st : SessionStore ch) (id : Text) (e : Session ch) (tx : Option Sender) (now : ℕ)
      → IsStore st
      → find id st.sessions ≡ some e
      → IsStore (unregister_host ch st id e tx now).0
  unfolding unregister_host
  unregister_host-IsStore st id e tx now h found = elim (Bool-cases (is_current ch e.host_tx tx)) [
    | inl y ↦
        rw y (put-found st.sessions _ id e _ h found (found-IsTable st.sessions _ id e h found))
    | inr n ↦ rw n h
  ]

  leave_slot-IsStore :
      (st : SessionStore ch) (id : Text) (e : Session ch) (slot now : ℕ) (r : PlayerTable ch × Bool)
      → IsStore st
      → find id st.sessions ≡ some e
      → IsTable ch r.0
      → IsStore (leave_slot ch st id e slot now r).0
  unfolding leave_slot
  leave_slot-IsStore st id e slot now (t, false) h found v =
      put-found st.sessions _ id e _ h found v
  leave_slot-IsStore st id e slot now (t, true) h found v = put-found st.sessions _ id e _ h found v

  unregister_player-IsStore :
      (st : SessionStore ch) (id : Text) (e : Session ch) (tx : Option Sender) (now : ℕ)
      → IsStore st
      → find id st.sessions ≡ some e
      → IsStore (unregister_player ch st id e tx now).0
  unfolding unregister_player
  unregister_player-IsStore st id e none now h found = h
  unregister_player-IsStore st id e (some tx) now h found =
      elim (Option-cases (Players.slot_of ch e.players tx)) [
        | inl n ↦ rw (n, unregister_player) h
        | inr (slot, n) ↦
            rw (n, unregister_player)
              (leave_slot-IsStore st id e slot now (Players.vacate ch e.players slot tx) h found
                (vacate-IsTable ch e.players slot tx (found-IsTable st.sessions _ id e h found)))
      ]

  pub unregister-IsStore :
      (st : SessionStore ch) (id : Text) (role : Role) (tx : Option Sender) (now : ℕ)
      → IsStore st
      → IsStore (unregister ch st id role tx now).0
  unfolding unregister
  unregister-IsStore st id host tx now h = elim (Option-cases (find id st.sessions)) [
    | inl missing ↦ rw (missing, unregister) h
    | inr (e, found) ↦ rw (found, unregister) (unregister_host-IsStore st id e tx now h found)
  ]
  unregister-IsStore st id player tx now h = elim (Option-cases (find id st.sessions)) [
    | inl missing ↦ rw (missing, unregister) h
    | inr (e, found) ↦ rw (found, unregister) (unregister_player-IsStore st id e tx now h found)
  ]

  expire_all-IsStore :
      (ids : List Text) (st : SessionStore ch) (now : ℕ)
      → IsStore st
      → Listed ch ids st.sessions
      → IsStore (expire_all ch st now ids)
  unfolding expire_all expire
  expire_all-IsStore [] st now h l = h
  expire_all-IsStore (id ∷ ids) st now h ((e, found), apart, rest) =
      expire_all-IsStore ids (expire ch st now id) now (remove-found st.sessions _ id e h found)
        (Listed-remove ch ids id st.sessions h.0 apart rest)

  pub sweep_expired-IsStore :
      (from_std : ℕ → Option ℕ) (st : SessionStore ch) (now : ℕ)
      → IsStore st
      → IsStore (sweep_expired ch from_std st now)
  unfolding sweep_expired
  sweep_expired-IsStore from_std st now h =
      expire_all-IsStore (stale_ids ch (ttl_of ch from_std st) now st.sessions) st now h
        (stale_ids-Listed ch (ttl_of ch from_std st) now st.sessions h.0)
