-- ===== src/Signaling/Ws/Leaks.antt =====
-- What a closing socket leaves behind: crates/signaling/src/ws.rs unregisters it from the session that it
-- registered in last, and from no other.
use couchlink.Base.{
  ℕ, Text, Option, some, ◌≡◌, refl, sym, ◌∙◌, subst, Bool, true, false, bytes_eq, inl, inr,
  Bool-cases, Option-cases,
}
use couchlink.Proto.Signal
use couchlink.Proto.Signal.{Role, host, player, SignalMessage}
use couchlink.Signaling.Channels.{Channels}
use couchlink.Signaling.Players
use couchlink.Signaling.Players.{PlayerTable}
use couchlink.Signaling.Session.Map.{find, find-put}
use couchlink.Signaling.Session.Store
use couchlink.Signaling.Session.Store.{
  SessionStore, Session, Result, ok, err, seated_for_host_replay,
}
use couchlink.Signaling.Session.Peers.{
  dec_conn, unregister, unregister_entry, unregister_host, unregister_player, leave_slot,
  is_current,
}
use couchlink.Signaling.Session.Invariant.{IsStore}
use couchlink.Signaling.Ws.{Conn, handle_message, close_socket, leave, after_register_player}
use couchlink.Signaling.Ws.Seats.{HoldsSeat}
use couchlink.Signaling.Ws.Seats.Kept.{register_player-KeepsSeats}

module _ (ch : Channels) where
  open ch use {Sender}

  leave_slot-elsewhere :
      (st : SessionStore ch) (id sid : Text) (e : Session ch) (slot now : ℕ)
      (r : PlayerTable ch × Bool)
      → bytes_eq id sid ≡ false
      → find sid (leave_slot ch st id e slot now r).0.sessions ≡ find sid st.sessions
  unfolding leave_slot
  leave_slot-elsewhere st id sid e slot now (t, false) n = find-put id sid _ st.sessions ∙ rw n refl
  leave_slot-elsewhere st id sid e slot now (t, true) n = find-put id sid _ st.sessions ∙ rw n refl

  unregister_entry-elsewhere :
      (st : SessionStore ch) (id sid : Text) (e : Session ch) (role : Role) (tx : Sender) (now : ℕ)
      → bytes_eq id sid ≡ false
      → find sid (unregister_entry ch role st id e (some tx) now).0.sessions ≡ find sid st.sessions
  unfolding unregister_host unregister_player
  unregister_entry-elsewhere st id sid e host tx now n =
      elim (Bool-cases (is_current ch e.host_tx (some tx))) [
        | inl y ↦ rw y (find-put id sid _ st.sessions ∙ rw n refl)
        | inr stale ↦ rw stale refl
      ]
  unregister_entry-elsewhere st id sid e player tx now n =
      elim (Option-cases (Players.slot_of ch e.players tx)) [
        | inl stranger ↦ rw (stranger, unregister_player) refl
        | inr (slot, own) ↦
            rw (own, unregister_player)
              (leave_slot-elsewhere st id sid e slot now (Players.vacate ch e.players slot tx) n)
      ]

  unregister-elsewhere :
      (st : SessionStore ch) (id sid : Text) (role : Role) (tx : Sender) (now : ℕ)
      → bytes_eq id sid ≡ false
      → find sid (unregister ch st id role (some tx) now).0.sessions ≡ find sid st.sessions
  unfolding unregister
  unregister-elsewhere st id sid role tx now n = elim (Option-cases (find id st.sessions)) [
    | inl missing ↦ rw (missing, unregister) refl
    | inr (e, found) ↦ rw (found, unregister) (unregister_entry-elsewhere st id sid e role tx now n)
  ]

  close_in :
      (st : SessionStore ch) (c : Conn ch) (id sid : Text) (role : Role) (now : ℕ)
      → c.session_id ≡ some id
      → c.role ≡ some role
      → bytes_eq id sid ≡ false
      → find sid (close_socket ch st c now).0.sessions ≡ find sid st.sessions
  unfolding close_socket dec_conn
  close_in st c id sid role now in_session in_role n =
      subst (λ o. find sid (leave ch st c.tx now o c.role).0.sessions ≡ find sid st.sessions)
        (sym in_session)
        (subst (λ o. find sid (leave ch st c.tx now (some id) o).0.sessions ≡ find sid st.sessions)
          (sym in_role) (unregister-elsewhere st id sid role c.tx now n))

  registered-again :
      (st : SessionStore ch) (c : Conn ch) (id sid : Text) (slot now : ℕ)
      (r : SessionStore ch × Result (ℕ × ℕ)) (seat : ℕ × ℕ)
      → r.1 ≡ ok seat
      → HoldsSeat ch r.0.sessions sid slot c.tx
      → bytes_eq id sid ≡ false
      → (let h = after_register_player ch r c id in
          HoldsSeat ch (close_socket ch h.0 h.1 now).0.sessions sid slot c.tx)
  registered-again st c id sid slot now (st', err e) seat is_ok holds n = cc
  registered-again st c id sid slot now (st', ok (own, epoch)) seat is_ok (e, found, sits) n =
      (e, close_in st' _ id sid player now refl refl n ∙ found, sits)

  -- A player's socket that registers in a second session, and then closes, still holds the slot that it had in
  -- the first one, though its channel is gone.
  pub second-session_leaks :
      (st : SessionStore ch) (c : Conn ch) (raw : Text) (id sid pin : Text) (name : Option Text)
      (slot now later : ℕ) (seat : ℕ × ℕ)
      → IsStore ch st
      → HoldsSeat ch st.sessions sid slot c.tx
      → bytes_eq id sid ≡ false
      → (Store.register_player ch st id pin c.tx now).1 ≡ ok seat
      → (let h = handle_message ch st c raw now (Signal.register_player id pin name) in
          HoldsSeat ch (close_socket ch h.0 h.1 later).0.sessions sid slot c.tx)
  unfolding handle_message
  second-session_leaks st c raw id sid pin name slot now later seat h holds n is_ok =
      registered-again st c id sid slot later (Store.register_player ch st id pin c.tx now) seat
        is_ok (register_player-KeepsSeats ch c.tx st id pin c.tx now h sid slot holds) n
