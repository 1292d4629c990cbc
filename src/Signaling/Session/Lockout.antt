-- ===== src/Signaling/Session/Lockout.antt =====
-- The PIN lockout: how many wrong guesses a session allows, and what a locked session answers.
use couchlink.Base.{
  ap, ◌∙◌, ℕ, ◌+◌, ◌^◌, ◌<◌, ◌≡◌, refl, arith, List, [], ◌∷◌, Option, some, true, false, bytes_eq,
  All, length, bytes_eq_refl,
}
use couchlink.Signaling.Channels.{Channels}
use couchlink.Signaling.Session.Map.{Text, find, find-put}
use couchlink.Signaling.Session.Store.{
  Session, SessionStore, register_player, register_host, record_pin_failure, fail_session,
  is_unlocked, err, locked_out, invalid_pin, lock_time, entry_or_insert, register_host_entry,
  new_session,
}

module _ (ch : Channels) where
  open ch use {Sender}

  -- One attempt to join: when, with which PIN, from which socket.
  pub record Guess : Type 0 where
    pub now : ℕ
    pub pin : Text
    pub tx : Sender

  -- The store after a run of attempts to join the session.
  unfoldable pub guesses : SessionStore ch → Text → List Guess → SessionStore ch
  guesses st id [] = st
  guesses st id (g ∷ gs) = guesses (register_player ch st id g.pin g.tx g.now).0 id gs

  abbrev IsWrong : Session ch → Guess → Type 0
  IsWrong e g = bytes_eq e.pin g.pin ≡ false

  wrong_guess :
      (st : SessionStore ch) (id : Text) (e : Session ch) (g : Guess)
      → find id st.sessions ≡ some e
      → is_unlocked ch e g.now ≡ true
      → IsWrong e g
      → (find id (register_player ch st id g.pin g.tx g.now).0.sessions
          ≡ some (fail_session ch st.max_pin_failures g.now e))
        × ((register_player ch st id g.pin g.tx g.now).0.max_pin_failures ≡ st.max_pin_failures)
        × ((register_player ch st id g.pin g.tx g.now).1 ≡ err invalid_pin)
  unfolding register_player record_pin_failure
  wrong_guess st id e g found open_now wrong = ground (
    arith,
    find-put id id (fail_session ch st.max_pin_failures g.now e) st.sessions,
    bytes_eq_refl id,
  )

  -- A guess that comes when the session is not locked, and is wrong.
  abbrev pub AllWrong : Session ch → List Guess → Type 0
  AllWrong e gs = All (λ g. IsWrong e g × (is_unlocked ch e g.now ≡ true)) gs

  -- The session after `n` wrong PINs that do not lock it.
  abbrev failed : Session ch → ℕ → Session ch
  failed e n = record e { pin_failures = n }

  fail_session-below :
      (m now : ℕ) (e : Session ch)
      → e.pin_failures + 1 < m
      → m < 2 ^ 32
      → fail_session ch m now e ≡ failed e (e.pin_failures + 1)
  unfolding fail_session
  fail_session-below m now e lt small = ground arith

  fail_session-at :
      (m now : ℕ) (e : Session ch)
      → e.pin_failures + 1 ≡ m
      → m < 2 ^ 32
      → fail_session ch m now e
        ≡ record e { pin_failures = 0; locked_until = some (now + lock_time) }
  unfolding fail_session
  fail_session-at m now e eq small = ground arith

  found-entry :
      (st : SessionStore ch) (id : Text) (e fresh : Session ch)
      → find id st.sessions ≡ some e
      → entry_or_insert ch st id fresh ≡ (st, e)
  unfolding entry_or_insert
  found-entry st id e fresh found = rw (found, entry_or_insert) refl

  -- A locked session turns everyone away and stays as it is.
  refused :
      (st : SessionStore ch) (id : Text) (e : Session ch) (until : ℕ) (pin : Text) (tx : Sender)
      (now : ℕ)
      → find id st.sessions ≡ some e
      → e.locked_until ≡ some until
      → now < until
      → (register_player ch st id pin tx now ≡ (st, err locked_out))
        × ((device_name preset emulator : Option Text)
            → register_host ch st id pin device_name preset emulator tx now ≡ (st, err locked_out))
  unfolding register_player register_host register_host_entry
  refused st id e until pin tx now found shut early =
      let shut_now : is_unlocked ch e now ≡ false = ground arith in
      (
        rw (found, register_player) (rw shut_now refl),
        λ d p m.
            rw (found-entry st id e (new_session ch pin d p m now) found, register_host)
              (rw shut_now refl),
      )

  few_guesses :
      (st : SessionStore ch) (id : Text) (e : Session ch) (gs : List Guess)
      → find id st.sessions ≡ some e
      → AllWrong e gs
      → e.pin_failures + length gs < st.max_pin_failures
      → st.max_pin_failures < 2 ^ 32
      → (find id (guesses st id gs).sessions ≡ some (failed e (e.pin_failures + length gs)))
        × ((guesses st id gs).max_pin_failures ≡ st.max_pin_failures)
  unfolding guesses
  few_guesses st id e [] found wrong lt small = (ground arith, refl)
  few_guesses st id e (g ∷ gs) found wrong lt small =
      let (kept, limit, answer) = wrong_guess st id e g found wrong.0.1 wrong.0.0 in
      let one = fail_session-below st.max_pin_failures g.now e (omega arith) small in
      let (shown, still) =
        few_guesses (register_player ch st id g.pin g.tx g.now).0 id (failed e (e.pin_failures + 1))
          gs (kept ∙ ap some one) wrong.1 (omega arith) (omega arith) in
      (shown ∙ ap (λ n. some (failed e n)) (omega arith), still ∙ limit)

  -- While a session is not locked and has seen fewer than `max_pin_failures` wrong PINs in all, the
  -- wrong PINs are counted, and the session is still not locked; nothing else of it changes.
  pub guesses-counted :
      (st : SessionStore ch) (id : Text) (e : Session ch) (gs : List Guess)
      → find id st.sessions ≡ some e
      → AllWrong e gs
      → e.pin_failures + length gs < st.max_pin_failures
      → st.max_pin_failures < 2 ^ 32
      → find id (guesses st id gs).sessions
        ≡ some (record e { pin_failures = e.pin_failures + length gs })
  guesses-counted st id e gs found wrong lt small = (few_guesses st id e gs found wrong lt small).0

  -- The wrong PIN that makes their number up to `max_pin_failures` locks the session for five minutes
  -- from its own time and sets the count back to 0; whoever tries before that time is over, as player or
  -- as host, with the right PIN or a wrong one, is told that the session is locked, and the store
  -- does not change.
  pub guesses-locked :
      (st : SessionStore ch) (id : Text) (e : Session ch) (gs : List Guess) (g : Guess)
      → find id st.sessions ≡ some e
      → AllWrong e gs
      → IsWrong e g
      → is_unlocked ch e g.now ≡ true
      → e.pin_failures + length gs + 1 ≡ st.max_pin_failures
      → st.max_pin_failures < 2 ^ 32
      → let locked = (register_player ch (guesses st id gs) id g.pin g.tx g.now).0 in
        (find id locked.sessions
          ≡ some (record e { pin_failures = 0; locked_until = some (g.now + lock_time) }))
        × ((pin : Text) (tx : Sender) (now : ℕ)
            → now < g.now + lock_time
            → (register_player ch locked id pin tx now ≡ (locked, err locked_out))
              × ((device_name preset emulator : Option Text)
                  → register_host ch locked id pin device_name preset emulator tx now
                    ≡ (locked, err locked_out)))
  guesses-locked st id e gs g found wrong bad open_now count small =
      let (shown, still) = few_guesses st id e gs found wrong (omega arith) small in
      let before = guesses st id gs in
      let e' = failed e (e.pin_failures + length gs) in
      let (kept, limit, answer) = wrong_guess before id e' g shown open_now bad in
      let locked_e : Session ch = record e {
        pin_failures = 0;
        locked_until = some (g.now + lock_time);
      } in
      let entry =
        kept
        ∙ ap some (fail_session-at before.max_pin_failures g.now e' (omega arith) (omega arith)) in
      (
        entry,
        λ pin tx now early.
            refused (register_player ch before id g.pin g.tx g.now).0 id locked_e
              (g.now + lock_time) pin tx now entry refl early,
      )
