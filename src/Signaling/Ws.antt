-- ===== src/Signaling/Ws.antt =====
-- crates/signaling/src/ws.rs: what a socket's handler does with each message. What it sends comes back
-- as a list of receiver and content, in the order of sending; a send to a closed channel is lost. Log
-- lines are left out. The time is read once for each message.
pub mod Stamps
pub mod Seats
pub mod Steps
pub mod Outcomes
pub mod Server
pub mod Leaks
mod Examples
use couchlink.Base.{ℕ, Text, Option, none, some, List, [], ◌∷◌, ◌++◌}
use couchlink.Proto.Signal
use couchlink.Proto.Signal.{Role, host, player, SignalMessage}
use couchlink.Signaling.Channels.{Channels}
use couchlink.Signaling.Session.Store
use couchlink.Signaling.Session.Store.{
  SessionStore, Sent, Outgoing, json, verbatim, refused, garbled, pong_frame, Result, ok, err,
  seated_for_host_replay, set_host_pad,
}
use couchlink.Signaling.Session.Peers.{
  peer_tx, player_tx, players_status, to_peer, broadcast, broadcast_to_players, touch, unregister,
  inc_conn, dec_conn,
}

-- A WebSocket message, as far as the handler tells them apart.
pub data Message : Type 0 where
  text : Text → Message
  ping : Text → Message
  close : Message
  other : Message

-- Whether the loop of the handler goes on.
pub data Flow : Type 0 where
  continue break : Flow

module _ (ch : Channels) where
  open ch use {Sender}

  -- The variables of one handler, with the sending end of its channel.
  pub record Conn : Type 0 where
    pub session_id : Option Text
    pub role : Option Role
    pub player_slot : Option ℕ
    pub tx : Sender

  abbrev pub Handled : Type 0
  Handled = SessionStore ch × Conn × Sent ch

  -- The start of `handle_socket`.
  unfoldable pub open_socket : SessionStore ch → Sender → SessionStore ch × Conn
  open_socket st tx =
      (inc_conn ch st, record { session_id = none; role = none; player_slot = none; tx = tx })

  unfoldable pub relay_to_host : SessionStore ch → Text → SignalMessage → Sent ch
  relay_to_host st sid msg = to_peer ch (json msg) (peer_tx ch st sid host)

  unfoldable pub broadcast_status : SessionStore ch → Text → Sent ch
  broadcast_status st sid = elim (players_status ch st sid) [
    | none ↦ []
    | some (occupied, limit) ↦ broadcast ch st sid (json (Signal.players_status occupied limit))
  ]

  -- The loop over the seats of a replay.
  abbrev pub offer_again : SessionStore ch → Text → List (ℕ × ℕ) → Sent ch
  offer_again st sid [] = []
  offer_again st sid ((slot, epoch) ∷ seats) =
      to_peer ch (json (Signal.peer_joined player epoch slot)) (peer_tx ch st sid host)
      ++ offer_again st sid seats

  abbrev pub host_registered :
      SessionStore ch × List (ℕ × ℕ) → SessionStore ch → Conn → Text → Handled
  host_registered (replayed, seats) st c sid = (
    replayed,
    record c { session_id = some sid; role = some host },
    (c.tx, json (Signal.registered host sid 0)) ∷ broadcast_status st sid
        ++ offer_again replayed sid seats,
  )

  abbrev pub after_register_host : SessionStore ch × Result (Unit {0}) → Conn → Text → Handled
  after_register_host (st, err e) c sid = (st, c, (c.tx, refused e) ∷ [])
  after_register_host (st, ok done) c sid =
      host_registered (seated_for_host_replay ch st sid) st c sid

  -- The pad of the host, for a player who has just come.
  abbrev pub pad_note : Sender → Option (Text × Text) → Sent ch
  pad_note tx none = []
  pad_note tx (some (kind, id)) = (tx, json (Signal.player_pad_info 0 kind id)) ∷ []

  abbrev pub after_register_player : SessionStore ch × Result (ℕ × ℕ) → Conn → Text → Handled
  after_register_player (st, err e) c sid = (st, c, (c.tx, refused e) ∷ [])
  after_register_player (st, ok (slot, epoch)) c sid = (
    st,
    record c { session_id = some sid; role = some player; player_slot = some slot },
    (c.tx, json (Signal.registered player sid slot))
          ∷ to_peer ch (json (Signal.peer_joined player epoch slot)) (peer_tx ch st sid host)
        ++ broadcast_status st sid
        ++ pad_note c.tx (Store.host_pad ch st sid),
  )

  abbrev pub touch_session : SessionStore ch → Option Text → ℕ → SessionStore ch
  touch_session st none now = st
  touch_session st (some sid) now = touch ch st sid now

  -- A message to the host, made with the connection's own slot, if it has a session and a slot.
  abbrev pub stamped : SessionStore ch → Option Text → Option ℕ → (ℕ → SignalMessage) → Sent ch
  stamped st none slot make = []
  stamped st (some sid) none make = []
  stamped st (some sid) (some slot) make = relay_to_host st sid (make slot)

  abbrev pub relay_stamped : SessionStore ch → Conn → (ℕ → SignalMessage) → Handled
  relay_stamped st c make = (st, c, stamped st c.session_id c.player_slot make)

  -- The host's text, to the player in the slot that the host wrote.
  abbrev pub to_slot : SessionStore ch → Option Text → ℕ → Text → Sent ch
  to_slot st none slot raw = []
  to_slot st (some sid) slot raw = to_peer ch (verbatim raw) (player_tx ch st sid slot)

  abbrev pub route_candidate :
      SessionStore ch → Conn → Text → ℕ → (ℕ → SignalMessage) → Option Role → Handled
  route_candidate st c raw slot make none = (st, c, [])
  route_candidate st c raw slot make (some player) = relay_stamped st c make
  route_candidate st c raw slot make (some host) = (st, c, to_slot st c.session_id slot raw)

  -- The branches of a connection that is not a host's.
  abbrev pub player_pad : SessionStore ch → Option Text → Option ℕ → Text → Text → Sent ch
  player_pad st none slot kind id = []
  player_pad st (some sid) none kind id = []
  player_pad st (some sid) (some slot) kind id =
      relay_to_host st sid (Signal.pad_info kind id slot)
      ++ broadcast ch st sid (json (Signal.player_pad_info slot kind id))

  abbrev pub pad_of : SessionStore ch → Conn → Text → Text → Option Text → Option Role → Handled
  pad_of st c kind id (some sid) (some host) = (
    set_host_pad ch st sid kind id,
    c,
    broadcast ch (set_host_pad ch st sid kind id) sid (json (Signal.player_pad_info 0 kind id)),
  )
  pad_of st c kind id (some sid) (some player) =
      (st, c, player_pad st (some sid) c.player_slot kind id)
  pad_of st c kind id (some sid) none = (st, c, player_pad st (some sid) c.player_slot kind id)
  pad_of st c kind id none role = (st, c, [])

  abbrev pub offer_from : SessionStore ch → Conn → Text → ℕ → Option Role → Handled
  offer_from st c raw slot none = (st, c, [])
  offer_from st c raw slot (some player) = (st, c, [])
  offer_from st c raw slot (some host) = (st, c, to_slot st c.session_id slot raw)

  -- A host's text for every player.
  abbrev pub fan_out : SessionStore ch → Conn → Text → Option Text → Option Role → Handled
  fan_out st c raw (some sid) (some host) = (st, c, broadcast_to_players ch st sid (verbatim raw))
  fan_out st c raw (some sid) (some player) = (st, c, [])
  fan_out st c raw (some sid) none = (st, c, [])
  fan_out st c raw none role = (st, c, [])

  -- The match on the parsed message; `raw` is its text.
  unfoldable pub handle_message : SessionStore ch → Conn → Text → ℕ → SignalMessage → Handled
  handle_message st c raw now (Signal.register_host sid pin device_name preset emulator) =
      after_register_host (Store.register_host ch st sid pin device_name preset emulator c.tx now) c
        sid
  handle_message st c raw now (Signal.register_player sid pin player_name) =
      after_register_player (Store.register_player ch st sid pin c.tx now) c sid
  handle_message st c raw now Signal.heartbeat =
      (touch_session st c.session_id now, c, (c.tx, json Signal.pong) ∷ [])
  handle_message st c raw now Signal.pong = (touch_session st c.session_id now, c, [])
  handle_message st c raw now (Signal.answer sdp epoch slot) =
      relay_stamped st c (λ own. Signal.answer sdp epoch own)
  handle_message st c raw now (Signal.ice_candidate candidate sdp_mid sdp_mline_index slot) =
      route_candidate st c raw slot
        (λ own. Signal.ice_candidate candidate sdp_mid sdp_mline_index own) c.role
  handle_message st c raw now (Signal.pad_info kind id slot) =
      pad_of st c kind id c.session_id c.role
  handle_message st c raw now (Signal.present_path path slot) =
      relay_stamped st c (λ own. Signal.present_path path own)
  handle_message st c raw now (Signal.client_link_stats stats slot) =
      relay_stamped st c (λ own. Signal.client_link_stats stats own)
  handle_message st c raw now (Signal.request_offer slot) =
      relay_stamped st c (λ own. Signal.request_offer own)
  handle_message st c raw now
        (Signal.split_screen_set enabled view_mode layout regions rescan slot) =
      relay_stamped st c
        (λ own. Signal.split_screen_set enabled view_mode layout regions rescan own)
  handle_message st c raw now (Signal.offer sdp epoch slot) = offer_from st c raw slot c.role
  handle_message st c raw now (Signal.stream_info width height fps codec capture_ok capture_hint) =
      fan_out st c raw c.session_id c.role
  handle_message st c raw now (Signal.host_stats stats) = fan_out st c raw c.session_id c.role
  handle_message st c raw now
        (Signal.split_screen_config enabled view_mode layout regions seats rescan) =
      fan_out st c raw c.session_id c.role
  handle_message st c raw now msg = (st, c, [])

  -- A text, parsed.
  abbrev pub handle_parsed : SessionStore ch → Conn → Text → ℕ → Option SignalMessage → Handled
  handle_parsed st c raw now none = (st, c, (c.tx, garbled) ∷ [])
  handle_parsed st c raw now (some msg) = handle_message st c raw now msg

  -- The body of the loop; `from_json` is serde's parser. A pong goes to the connection's own socket, past
  -- the channel.
  abbrev pub handle_frame :
      (Text → Option SignalMessage) → SessionStore ch → Conn → ℕ → Message → Flow × Handled
  handle_frame from_json st c now (text raw) =
      (continue, handle_parsed st c raw now (from_json raw))
  handle_frame from_json st c now (ping payload) =
      (continue, (st, c, (c.tx, pong_frame payload) ∷ []))
  handle_frame from_json st c now close = (break, (st, c, []))
  handle_frame from_json st c now other = (continue, (st, c, []))

  abbrev pub status_after : Role → SessionStore ch → Text → Sent ch
  status_after host st sid = []
  status_after player st sid = broadcast_status st sid

  abbrev pub left_session : SessionStore ch × Sent ch → Role → Text → SessionStore ch × Sent ch
  left_session (st, sent) r sid = (dec_conn ch st, sent ++ status_after r st sid)

  abbrev pub leave :
      SessionStore ch → Sender → ℕ → Option Text → Option Role → SessionStore ch × Sent ch
  leave st tx now (some sid) (some r) = left_session (unregister ch st sid r (some tx) now) r sid
  leave st tx now (some sid) none = (dec_conn ch st, [])
  leave st tx now none role = (dec_conn ch st, [])

  -- The end of `handle_socket`, after the loop.
  unfoldable pub close_socket : SessionStore ch → Conn → ℕ → SessionStore ch × Sent ch
  close_socket st c now = leave st c.tx now c.session_id c.role

  -- The loop over the messages of a socket, each with the time at which it is handled.
  unfoldable pub receive :
      (Text → Option SignalMessage) → SessionStore ch → Conn → List (Message × ℕ) → Handled
  receive from_json st c [] = (st, c, [])
  receive from_json st c ((m, now) ∷ ms) =
      let (flow, handled) = handle_frame from_json st c now m in
      let (st', c', sent) = handled in
      elim flow [
        | break ↦ (st', c', sent)
        | continue ↦
            let (last, conn, more) = receive from_json st' c' ms in (last, conn, sent ++ more)
      ]

  -- A whole handler, without the others that run beside it: `now` is the time at which it ends.
  unfoldable pub handle_socket :
      (Text → Option SignalMessage)
      → SessionStore ch
      → Sender
      → List (Message × ℕ)
      → ℕ
      → SessionStore ch × Sent ch
  unfolding open_socket receive close_socket
  handle_socket from_json st tx ms now =
      let (opened, c) = open_socket st tx in
      let (st', c', sent) = receive from_json opened c ms in
      let (last, more) = close_socket st' c' now in (last, sent ++ more)
