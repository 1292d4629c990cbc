-- ===== src/Signaling/Session/Reachable.antt =====
-- The session store as a state machine: a run of operations from the empty store.
use couchlink.Base.{ℕ, refl, [], Option, some, Option-cases, inl, inr}
use couchlink.Proto.Signal.{Role}
use couchlink.Signaling.Channels.{Channels}
use couchlink.Signaling.Players
use couchlink.Signaling.Players.{PlayerTable}
use couchlink.Signaling.Session.Map.{Text, find}
use couchlink.Signaling.Session.Store.{
  SessionStore, register_host, register_player, set_host_pad, seated_for_host_replay,
}
use couchlink.Signaling.Session.Peers.{unregister, touch, sweep_expired, inc_conn, dec_conn}
use couchlink.Signaling.Session.Invariant.{
  IsStore, register_host-IsStore, register_player-IsStore, kept-IsStore, unregister-IsStore,
  sweep_expired-IsStore, put-found, found-IsTable,
}

module _ (ch : Channels) where
  open ch use {Sender}

  -- `SessionStore::with_limits`, over new metrics and a new audit log.
  unfoldable pub with_limits : ℕ → ℕ → SessionStore ch
  with_limits max_pin_failures session_ttl = record {
    sessions = [];
    connections = 0;
    audit = [];
    metrics = record {
      sessions_active = 0;
      hosts_registered = 0;
      players_registered = 0;
      pin_failures = 0;
      ws_connections = 0;
    };
    max_pin_failures = max_pin_failures;
    session_ttl = session_ttl;
  }

  -- One step from a store to the next: each operation that changes the store.
  pub data Step (from_std : ℕ → Option ℕ) : SessionStore ch → SessionStore ch → Type 0 where
    hosts :
        (st : SessionStore ch) (id pin : Text) (device_name preset emulator : Option Text)
        (tx : Sender) (now : ℕ)
        → Step from_std st (register_host ch st id pin device_name preset emulator tx now).0
    plays :
        (st : SessionStore ch) (id pin : Text) (tx : Sender) (now : ℕ)
        → Step from_std st (register_player ch st id pin tx now).0
    pads :
        (st : SessionStore ch) (id kind pad : Text)
        → Step from_std st (set_host_pad ch st id kind pad)
    replays :
        (st : SessionStore ch) (id : Text) → Step from_std st (seated_for_host_replay ch st id).0
    closes :
        (st : SessionStore ch) (id : Text) (role : Role) (tx : Option Sender) (now : ℕ)
        → Step from_std st (unregister ch st id role tx now).0
    touches : (st : SessionStore ch) (id : Text) (now : ℕ) → Step from_std st (touch ch st id now)
    sweeps : (st : SessionStore ch) (now : ℕ) → Step from_std st (sweep_expired ch from_std st now)
    connects : (st : SessionStore ch) → Step from_std st (inc_conn ch st)
    disconnects : (st : SessionStore ch) → Step from_std st (dec_conn ch st)

  -- The stores that a server with these limits can be in.
  pub data Reachable (from_std : ℕ → Option ℕ) (limit ttl : ℕ) : SessionStore ch → Type 0 where
    starts : Reachable from_std limit ttl (with_limits limit ttl)
    steps :
        {st st' : SessionStore ch}
        → Reachable from_std limit ttl st
        → Step from_std st st'
        → Reachable from_std limit ttl st'

  seated_for_host_replay-IsStore :
      (st : SessionStore ch) (id : Text)
      → IsStore ch st
      → IsStore ch (seated_for_host_replay ch st id).0
  unfolding seated_for_host_replay Players.replay_for_host
  seated_for_host_replay-IsStore st id h = elim (Option-cases (find id st.sessions)) [
    | inl missing ↦ rw (missing, seated_for_host_replay) h
    | inr (e, found) ↦
        let v = found-IsTable ch st.sessions _ id e h found in
        rw (found, seated_for_host_replay)
          (put-found ch st.sessions _ id e _ h found
            (record { full_length = v.full_length; distinct = v.distinct }))
  ]

  pub Step-IsStore :
      (from_std : ℕ → Option ℕ) (st st' : SessionStore ch)
      → Step from_std st st'
      → IsStore ch st
      → IsStore ch st'
  unfolding set_host_pad touch inc_conn dec_conn
  Step-IsStore from_std _ _ (hosts st id pin d p m tx now) h =
      register_host-IsStore ch st id pin d p m tx now h
  Step-IsStore from_std _ _ (plays st id pin tx now) h =
      register_player-IsStore ch st id pin tx now h
  Step-IsStore from_std _ _ (pads st id kind pad) h =
      kept-IsStore ch st id (λ e. record e { host_pad = some (kind, pad) }) (λ e. refl) h
  Step-IsStore from_std _ _ (replays st id) h = seated_for_host_replay-IsStore st id h
  Step-IsStore from_std _ _ (closes st id role tx now) h = unregister-IsStore ch st id role tx now h
  Step-IsStore from_std _ _ (touches st id now) h =
      kept-IsStore ch st id (λ e. record e { last_activity = now }) (λ e. refl) h
  Step-IsStore from_std _ _ (sweeps st now) h = sweep_expired-IsStore ch from_std st now h
  Step-IsStore from_std _ _ (connects st) h = h
  Step-IsStore from_std _ _ (disconnects st) h = h

  -- In every store that a server can reach from the empty one, with any limits and any sequence of
  -- operations, no session id has two entries, every table of players has its three slots and no channel
  -- holds two of them, and the gauge of active sessions is the number of sessions, modulo 2^64.
  pub Reachable-IsStore :
      (from_std : ℕ → Option ℕ) (limit ttl : ℕ) (st : SessionStore ch)
      → Reachable from_std limit ttl st
      → IsStore ch st
  unfolding with_limits
  Reachable-IsStore from_std limit ttl _ starts = (tt, tt, refl)
  Reachable-IsStore from_std limit ttl _ (steps {st} {st'} r s) =
      Step-IsStore from_std st st' s (Reachable-IsStore from_std limit ttl st r)
