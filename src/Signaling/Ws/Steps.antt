-- ===== src/Signaling/Ws/Steps.antt =====
-- Runs of the session store's operations on behalf of one socket, and the seats that they keep.
use couchlink.Base.{false, ℕ, Option, none, some, ◌≡◌, sym, subst}
use couchlink.Signaling.Channels.{Channels}
use couchlink.Signaling.Session.Store.{set_host_pad, SessionStore}
use couchlink.Signaling.Session.Invariant.{IsStore}
use couchlink.Signaling.Session.Reachable.{
  sweeps, connects, Step, Step-IsStore, hosts, plays, pads, replays, closes, touches, disconnects,
}
use couchlink.Signaling.Session.Peers.{touch, inc_conn, dec_conn, unregister}
use couchlink.Signaling.Ws.Seats.{KeepsSeats}
use couchlink.Signaling.Ws.Seats.Kept.{
  sweep_expired-KeepsSeats, unregister-KeepsSeats, replay-KeepsSeats, kept-KeepsSeats,
  register_player-KeepsSeats, register_host-KeepsSeats,
}

module _ (ch : Channels) (from_std : ℕ → Option ℕ) where
  open ch use {Sender, same_channel}

  -- Whether an operation is one that a handler calls: it unregisters the closing socket, if there is one,
  -- and no other.
  abbrev pub Allows : Option Sender → {st st' : SessionStore ch} → Step ch from_std st st' → Type 0
  Allows none (closes st id role tx now) = ⊥
  Allows (some closing) (closes st id role tx now) = tx ≡ some closing
  Allows closing s = Unit {0}

  -- A run of the store's operations.
  pub data Steps (closing : Option Sender) : SessionStore ch → SessionStore ch → Type 0 where
    stays : {st : SessionStore ch} → Steps closing st st
    after :
        {st st' st'' : SessionStore ch}
        → Steps closing st st'
        → (s : Step ch from_std st' st'') → Allows closing s
        → Steps closing st st''

  pub Steps-trans :
      {closing : Option Sender} {st st' st'' : SessionStore ch}
      → Steps closing st st'
      → Steps closing st' st''
      → Steps closing st st''
  Steps-trans r stays = r
  Steps-trans r (after q s a) = after (Steps-trans r q) s a

  pub Steps-IsStore :
      {closing : Option Sender} {st st' : SessionStore ch}
      → Steps closing st st'
      → IsStore ch st
      → IsStore ch st'
  Steps-IsStore stays h = h
  Steps-IsStore (after {st} {st'} {st''} r s a) h =
      Step-IsStore ch from_std st' st'' s (Steps-IsStore r h)

  pub Steps-closing :
      {st st' : SessionStore ch} (tx : Sender) → Steps none st st' → Steps (some tx) st st'
  Steps-closing tx stays = stays
  Steps-closing tx (after r s a) = after (Steps-closing tx r) s (allowed s a)
    where
      allowed :
          {st st' : SessionStore ch} (s : Step ch from_std st st')
          → Allows none s
          → Allows (some tx) s
      allowed (hosts st id pin d p m by now) a = tt
      allowed (plays st id pin by now) a = tt
      allowed (pads st id kind pad) a = tt
      allowed (replays st id) a = tt
      allowed (closes st id role by now) a = absurd a
      allowed (touches st id now) a = tt
      allowed (sweeps st now) a = tt
      allowed (connects st) a = tt
      allowed (disconnects st) a = tt

  -- The socket of `other` is not the one that is closing.
  abbrev pub IsOther : Option Sender → Sender → Type 0
  IsOther none other = Unit {0}
  IsOther (some closing) other = same_channel closing other ≡ false

  Step-KeepsSeats :
      (closing : Option Sender) (other : Sender) (st st' : SessionStore ch)
      (s : Step ch from_std st st')
      → IsStore ch st
      → IsOther closing other
      → Allows closing s
      → KeepsSeats ch other st.sessions st'.sessions
  unfolding set_host_pad touch inc_conn dec_conn
  Step-KeepsSeats closing other _ _ (hosts st id pin d p m tx now) h n a =
      register_host-KeepsSeats ch other st id pin d p m tx now
  Step-KeepsSeats closing other _ _ (plays st id pin tx now) h n a =
      register_player-KeepsSeats ch other st id pin tx now h
  Step-KeepsSeats closing other _ _ (pads st id kind pad) h n a =
      kept-KeepsSeats ch other st id (λ e. record e { host_pad = some (kind, pad) })
        (λ e slot sits. sits)
  Step-KeepsSeats closing other _ _ (replays st id) h n a = replay-KeepsSeats ch other st id
  Step-KeepsSeats none other _ _ (closes st id role tx now) h n a = absurd a
  Step-KeepsSeats (some closing) other _ _ (closes st id role tx now) h n a =
      subst (λ o. KeepsSeats ch other st.sessions (unregister ch st id role o now).0.sessions)
        (sym a) (unregister-KeepsSeats ch other st id role closing now h n)
  Step-KeepsSeats closing other _ _ (touches st id now) h n a =
      kept-KeepsSeats ch other st id (λ e. record e { last_activity = now }) (λ e slot sits. sits)
  Step-KeepsSeats closing other _ _ (sweeps st now) h n a =
      sweep_expired-KeepsSeats ch other from_std st now h
  Step-KeepsSeats closing other _ _ (connects st) h n a = λ sid slot holds. holds
  Step-KeepsSeats closing other _ _ (disconnects st) h n a = λ sid slot holds. holds

  -- A run on behalf of one socket takes nobody's seat, but that of its own socket when it closes.
  pub Steps-KeepsSeats :
      {closing : Option Sender} {st st' : SessionStore ch} (other : Sender)
      → Steps closing st st'
      → IsStore ch st
      → IsOther closing other
      → KeepsSeats ch other st.sessions st'.sessions
  Steps-KeepsSeats other stays h n sid slot holds = holds
  Steps-KeepsSeats {closing} other (after {st} {st'} {st''} r s a) h n sid slot holds =
      Step-KeepsSeats closing other st' st'' s (Steps-IsStore r h) n a sid slot
        (Steps-KeepsSeats other r h n sid slot holds)
