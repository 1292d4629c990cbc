-- ===== src/Signaling/Session/Peers.antt =====
-- `SessionStore` of crates/signaling/src/session.rs: looking peers up, sending to them, and what
-- happens when a socket closes or a session expires.
use couchlink.Base.{
  ℕ, ◌+◌, List, [], ◌∷◌, ◌++◌, Option, none, some, Bool, true, false, ltb, not, ◌&&◌, ◌==◌,
  if◌then◌else◌, map,
}
use couchlink.Proto.Signal
use couchlink.Proto.Signal.{Role, host, player}
use couchlink.Signaling.Channels.{Channels}
use couchlink.Signaling.Players
use couchlink.Signaling.Players.{PlayerTable, max_players}
use couchlink.Signaling.Session.{fetch_add, fetch_sub}
use couchlink.Signaling.Session.Map.{Text, find, remove}
use couchlink.Signaling.Session.Store.{
  peer_left, session_expired, no_detail, stale_socket, left_as, Outgoing, json, Session,
  SessionStore, Sent, write, log,
}

abbrev pub is_none {ℓ} : {A : Type ℓ} → Option A → Bool
is_none none = true
is_none (some a) = false

module _ (ch : Channels) where
  open ch use {Sender, same_channel}

  -- The first of the players, if there is one.
  abbrev pub first_player : List (ℕ × Sender) → Option Sender
  first_player [] = none
  first_player ((slot, tx) ∷ ps) = some tx

  abbrev pub peer_in : Session ch → Role → Option Sender
  peer_in e host = e.host_tx
  peer_in e player = first_player (Players.iter ch e.players)

  unfoldable pub peer_tx : SessionStore ch → Text → Role → Option Sender
  peer_tx st id role = elim (find id st.sessions) [ none ↦ none | some e ↦ peer_in e role ]

  -- A sole player; with two or more the store never guesses.
  abbrev pub sole_player : List (ℕ × Sender) → Option Sender
  sole_player [] = none
  sole_player ((slot, tx) ∷ []) = some tx
  sole_player ((slot, tx) ∷ q ∷ qs) = none

  unfoldable pub player_tx : SessionStore ch → Text → ℕ → Option Sender
  player_tx st id slot = elim (find id st.sessions) [
    | none ↦ none
    | some e ↦
        if slot == 0 then sole_player (Players.iter ch e.players) else Players.get ch e.players slot
  ]

  abbrev pub to_all : Outgoing → List (ℕ × Sender) → Sent ch
  to_all msg ps = map (λ p. (p.1, msg)) ps

  unfoldable pub broadcast_to_players : SessionStore ch → Text → Outgoing → Sent ch
  broadcast_to_players st id msg = elim (find id st.sessions) [
    | none ↦ []
    | some e ↦ to_all msg (Players.iter ch e.players)
  ]

  abbrev pub to_peer : Outgoing → Option Sender → Sent ch
  to_peer msg none = []
  to_peer msg (some tx) = (tx, msg) ∷ []

  unfoldable pub broadcast : SessionStore ch → Text → Outgoing → Sent ch
  unfolding peer_tx broadcast_to_players
  broadcast st id msg = to_peer msg (peer_tx st id host) ++ broadcast_to_players st id msg

  unfoldable pub players_status : SessionStore ch → Text → Option (ℕ × ℕ)
  players_status st id = elim (find id st.sessions) [
    | none ↦ none
    | some e ↦ some (Players.occupied ch e.players, max_players)
  ]

  -- Whether the closing connection owns the host slot.
  abbrev pub is_current : Option Sender → Option Sender → Bool
  is_current none tx = false
  is_current (some current) none = true
  is_current (some current) (some closing) = same_channel current closing

  unfoldable pub unregister_host :
      SessionStore ch → Text → Session ch → Option Sender → ℕ → SessionStore ch × Sent ch
  unregister_host st id e tx now =
      if not (is_current e.host_tx tx)
      then (log ch st now id peer_left (stale_socket host), [])
      else (let st' = write ch st id (record e { host_tx = none; last_activity = now }) in
          (
            log ch st' now id peer_left (left_as host),
            broadcast_to_players st' id (json (Signal.peer_left 0)),
          ))

  -- `vacate` has freed the slot, or has not.
  unfoldable pub leave_slot :
      SessionStore ch
      → Text
      → Session ch
      → ℕ
      → ℕ
      → PlayerTable ch × Bool
      → SessionStore ch × Sent ch
  leave_slot st id e slot now (t, false) = (write ch st id (record e { players = t }), [])
  leave_slot st id e slot now (t, true) =
      let st' = write ch st id (record e { players = t; last_activity = now }) in
      (
        log ch st' now id peer_left (left_as player),
        to_peer (json (Signal.peer_left slot)) (peer_tx st' id host)
            ++ broadcast_to_players st' id (json (Signal.peer_left slot)),
      )

  unfoldable pub unregister_player :
      SessionStore ch → Text → Session ch → Option Sender → ℕ → SessionStore ch × Sent ch
  unregister_player st id e none now = (st, [])
  unregister_player st id e (some closing) now = elim (Players.slot_of ch e.players closing) [
    | none ↦ (log ch st now id peer_left (stale_socket player), [])
    | some slot ↦ leave_slot st id e slot now (Players.vacate ch e.players slot closing)
  ]

  abbrev pub unregister_entry :
      Role → SessionStore ch → Text → Session ch → Option Sender → ℕ → SessionStore ch × Sent ch
  unregister_entry host = unregister_host
  unregister_entry player = unregister_player

  unfoldable pub unregister :
      SessionStore ch → Text → Role → Option Sender → ℕ → SessionStore ch × Sent ch
  unregister st id role tx now = elim (find id st.sessions) [
    | none ↦ (st, [])
    | some e ↦ unregister_entry role st id e tx now
  ]

  -- A session that nobody holds and nobody has used for longer than the time to live.
  unfoldable pub is_stale : ℕ → ℕ → Session ch → Bool
  is_stale ttl now e =
      ltb (e.last_activity + ttl) now && is_none e.host_tx && Players.is_empty ch e.players

  unfoldable pub stale_ids : ℕ → ℕ → List (Text × Session ch) → List Text
  stale_ids ttl now [] = []
  stale_ids ttl now ((id, e) ∷ m) =
      let rest = stale_ids ttl now m in if is_stale ttl now e then id ∷ rest else rest

  unfoldable pub expire : SessionStore ch → ℕ → Text → SessionStore ch
  expire st now id =
      log ch
        (record st {
          sessions = remove id st.sessions;
          metrics = record st.metrics { sessions_active = fetch_sub st.metrics.sessions_active };
        })
        now id session_expired no_detail

  unfoldable pub expire_all : SessionStore ch → ℕ → List Text → SessionStore ch
  expire_all st now [] = st
  expire_all st now (id ∷ ids) = expire_all (expire st now id) now ids

  -- `ttl` is `session_ttl` as the chrono crate converts it, or one hour where it cannot.
  unfoldable pub sweep_expired : (ℕ → Option ℕ) → SessionStore ch → ℕ → SessionStore ch
  sweep_expired from_std st now =
      let ttl : ℕ = elim (from_std st.session_ttl) [ none ↦ 3_600_000 | some d ↦ d ] in
      expire_all st now (stale_ids ttl now st.sessions)

  unfoldable pub touch : SessionStore ch → Text → ℕ → SessionStore ch
  touch st id now = elim (find id st.sessions) [
    | none ↦ st
    | some e ↦ write ch st id (record e { last_activity = now })
  ]

  unfoldable pub inc_conn : SessionStore ch → SessionStore ch
  inc_conn st = record st {
    connections = fetch_add st.connections;
    metrics = record st.metrics { ws_connections = fetch_add st.metrics.ws_connections };
  }

  unfoldable pub dec_conn : SessionStore ch → SessionStore ch
  dec_conn st = record st {
    connections = fetch_sub st.connections;
    metrics = record st.metrics { ws_connections = fetch_sub st.metrics.ws_connections };
  }
