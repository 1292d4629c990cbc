-- ===== src/Signaling/Ws/Outcomes.antt =====
-- What each handler of crates/signaling/src/ws.rs does to the store, to its own variables and to its
-- seat: the store takes steps of its own, the channel stays, and a player sits where its variables say.
use couchlink.Base.{◌∙◌, ℕ, Text, Option, none, some, List, [], ◌∷◌, ◌≡◌, refl, subst}
use couchlink.Proto.Signal
use couchlink.Proto.Signal.{Role, host, player, SignalMessage}
use couchlink.Signaling.Channels.{Channels}
use couchlink.Signaling.Session.Store
use couchlink.Signaling.Session.Store.{Sent, SessionStore, Result, ok, err}
use couchlink.Signaling.Session.Invariant.{IsStore}
use couchlink.Signaling.Session.Reachable.{
  Step, hosts, plays, pads, replays, closes, touches, connects, disconnects,
}
use couchlink.Signaling.Session.Peers.{unregister}
use couchlink.Signaling.Ws.{
  fan_out, pad_of, after_register_player, route_candidate, offer_from, after_register_host, Message,
  text, ping, close, other, Conn, Handled, handle_message, handle_parsed, handle_frame, receive,
  touch_session, leave, close_socket, open_socket, handle_socket,
}
use couchlink.Signaling.Ws.Seats.{HoldsSeat}
use couchlink.Signaling.Ws.Seats.Kept.{PlayerRegistered, register_player-PlayerRegistered}
use couchlink.Signaling.Ws.Steps.{
  IsOther, Steps, stays, after, Steps-trans, Allows, Steps-KeepsSeats, Steps-IsStore, Steps-closing,
}

module _ (ch : Channels) (from_std : ℕ → Option ℕ) where
  open ch use {Sender, same_channel}

  abbrev Run : SessionStore ch → SessionStore ch → Type 0
  Run = Steps ch from_std none

  -- A connection that is a player's holds, in its session, the slot that its variables say.
  abbrev pub IsSeated : SessionStore ch → Conn ch → Type 0
  IsSeated st c =
      c.role ≡ some player
      → (sid : Text) × (slot : ℕ) × (c.session_id ≡ some sid)
        × (c.player_slot ≡ some slot)
        × HoldsSeat ch st.sessions sid slot c.tx

  pub record Outcome (st : SessionStore ch) (c : Conn ch) (h : Handled ch) : Type 0 where
    pub run : Run st h.0
    pub same_tx : h.1.tx ≡ c.tx
    pub seated : IsStore ch st → IsSeated st c → IsSeated h.0 h.1

  pub run-IsSeated :
      {st st' : SessionStore ch} {closing : Option Sender} (c : Conn ch)
      → Steps ch from_std closing st st'
      → IsStore ch st
      → IsOther ch from_std closing c.tx
      → IsSeated st c
      → IsSeated st' c
  run-IsSeated c r h n seated role =
      let (sid, slot, in_session, in_slot, holds) = seated role in
      (sid, slot, in_session, in_slot, Steps-KeepsSeats ch from_std c.tx r h n sid slot holds)

  unchanged :
      {st st' : SessionStore ch} {sent : Sent ch} (c : Conn ch)
      → Run st st'
      → Outcome st c (st', c, sent)
  unchanged c r = record { run = r; same_tx = refl; seated = λ h. run-IsSeated c r h tt }

  after_register_host-Outcome :
      (st : SessionStore ch) (r : SessionStore ch × Result (Unit {0})) (c : Conn ch) (sid : Text)
      → (s : Step ch from_std st r.0) → Allows ch from_std none s
      → Outcome st c (after_register_host ch r c sid)
  after_register_host-Outcome st (st', err e) c sid s a = unchanged c (after stays s a)
  after_register_host-Outcome st (st', ok done) c sid s a = record {
    run = after (after stays s a) (replays st' sid) tt;
    same_tx = refl;
    seated = λ h seated role. absurd (host≢player role);
  }
    where
      host≢player : some host ≡ some player → ⊥
      host≢player e = cc

  after_register_player-Outcome :
      (st : SessionStore ch) (r : SessionStore ch × Result (ℕ × ℕ)) (c : Conn ch) (sid : Text)
      → (s : Step ch from_std st r.0) → Allows ch from_std none s
      → (IsStore ch st → PlayerRegistered ch st.sessions sid c.tx r)
      → Outcome st c (after_register_player ch r c sid)
  after_register_player-Outcome st (st', err e) c sid s a p = unchanged c (after stays s a)
  after_register_player-Outcome st (st', ok (slot, epoch)) c sid s a p = record {
    run = after stays s a;
    same_tx = refl;
    seated = λ h seated role. (sid, slot, refl, refl, (p h).1);
  }

  touch_session-Run :
      (st : SessionStore ch) (sid : Option Text) (now : ℕ) → Run st (touch_session ch st sid now)
  touch_session-Run st none now = stays
  touch_session-Run st (some sid) now = after stays (touches st sid now) tt

  pad_of-Outcome :
      (st : SessionStore ch) (c : Conn ch) (kind id : Text) (sid : Option Text) (role : Option Role)
      → Outcome st c (pad_of ch st c kind id sid role)
  pad_of-Outcome st c kind id (some sid) (some host) =
      unchanged c (after stays (pads st sid kind id) tt)
  pad_of-Outcome st c kind id (some sid) (some player) = unchanged c stays
  pad_of-Outcome st c kind id (some sid) none = unchanged c stays
  pad_of-Outcome st c kind id none role = unchanged c stays

  route-Outcome :
      (st : SessionStore ch) (c : Conn ch) (raw : Text) (slot : ℕ) (make : ℕ → SignalMessage)
      (role : Option Role)
      → Outcome st c (route_candidate ch st c raw slot make role)
  route-Outcome st c raw slot make none = unchanged c stays
  route-Outcome st c raw slot make (some player) = unchanged c stays
  route-Outcome st c raw slot make (some host) = unchanged c stays

  offer-Outcome :
      (st : SessionStore ch) (c : Conn ch) (raw : Text) (slot : ℕ) (role : Option Role)
      → Outcome st c (offer_from ch st c raw slot role)
  offer-Outcome st c raw slot none = unchanged c stays
  offer-Outcome st c raw slot (some player) = unchanged c stays
  offer-Outcome st c raw slot (some host) = unchanged c stays

  fan_out-Outcome :
      (st : SessionStore ch) (c : Conn ch) (raw : Text) (sid : Option Text) (role : Option Role)
      → Outcome st c (fan_out ch st c raw sid role)
  fan_out-Outcome st c raw (some sid) (some host) = unchanged c stays
  fan_out-Outcome st c raw (some sid) (some player) = unchanged c stays
  fan_out-Outcome st c raw (some sid) none = unchanged c stays
  fan_out-Outcome st c raw none role = unchanged c stays

  pub handle_message-Outcome :
      (st : SessionStore ch) (c : Conn ch) (raw : Text) (now : ℕ) (msg : SignalMessage)
      → Outcome st c (handle_message ch st c raw now msg)
  unfolding handle_message
  handle_message-Outcome st c raw now (Signal.register_host sid pin d p m) =
      after_register_host-Outcome st (Store.register_host ch st sid pin d p m c.tx now) c sid
        (hosts st sid pin d p m c.tx now) tt
  handle_message-Outcome st c raw now (Signal.register_player sid pin name) =
      after_register_player-Outcome st (Store.register_player ch st sid pin c.tx now) c sid
        (plays st sid pin c.tx now) tt (register_player-PlayerRegistered ch st sid pin c.tx now)
  handle_message-Outcome st c raw now Signal.heartbeat =
      unchanged c (touch_session-Run st c.session_id now)
  handle_message-Outcome st c raw now Signal.pong =
      unchanged c (touch_session-Run st c.session_id now)
  handle_message-Outcome st c raw now (Signal.ice_candidate cand mid line slot) =
      route-Outcome st c raw slot (λ own. Signal.ice_candidate cand mid line own) c.role
  handle_message-Outcome st c raw now (Signal.pad_info kind id slot) =
      pad_of-Outcome st c kind id c.session_id c.role
  handle_message-Outcome st c raw now (Signal.offer sdp epoch slot) =
      offer-Outcome st c raw slot c.role
  handle_message-Outcome st c raw now (Signal.stream_info w h f codec good hint) =
      fan_out-Outcome st c raw c.session_id c.role
  handle_message-Outcome st c raw now (Signal.host_stats stats) =
      fan_out-Outcome st c raw c.session_id c.role
  handle_message-Outcome st c raw now
        (Signal.split_screen_config on view lay regions seats rescan) =
      fan_out-Outcome st c raw c.session_id c.role
  handle_message-Outcome st c raw now msg = unchanged c stays

  handle_parsed-Outcome :
      (st : SessionStore ch) (c : Conn ch) (raw : Text) (now : ℕ) (msg : Option SignalMessage)
      → Outcome st c (handle_parsed ch st c raw now msg)
  handle_parsed-Outcome st c raw now none = unchanged c stays
  handle_parsed-Outcome st c raw now (some msg) = handle_message-Outcome st c raw now msg

  pub handle_frame-Outcome :
      (from_json : Text → Option SignalMessage) (st : SessionStore ch) (c : Conn ch) (now : ℕ)
      (m : Message)
      → Outcome st c (handle_frame ch from_json st c now m).1
  handle_frame-Outcome from_json st c now (text raw) =
      handle_parsed-Outcome st c raw now (from_json raw)
  handle_frame-Outcome from_json st c now (ping payload) = unchanged c stays
  handle_frame-Outcome from_json st c now close = unchanged c stays
  handle_frame-Outcome from_json st c now other = unchanged c stays

  receive-Outcome :
      (from_json : Text → Option SignalMessage) (st : SessionStore ch) (c : Conn ch)
      (ms : List (Message × ℕ))
      → (let h = receive ch from_json st c ms in Run st h.0 × (h.1.tx ≡ c.tx))
  unfolding receive
  receive-Outcome from_json st c [] = (stays, refl)
  receive-Outcome from_json st c ((text raw, now) ∷ ms) =
      let h = handle_parsed ch st c raw now (from_json raw) in
      let p = handle_parsed-Outcome st c raw now (from_json raw) in
      let (run, same) = receive-Outcome from_json h.0 h.1 ms in
      (Steps-trans ch from_std p.run run, same ∙ p.same_tx)
  receive-Outcome from_json st c ((ping payload, now) ∷ ms) = receive-Outcome from_json st c ms
  receive-Outcome from_json st c ((close, now) ∷ ms) = (stays, refl)
  receive-Outcome from_json st c ((other, now) ∷ ms) = receive-Outcome from_json st c ms

  leave-Steps :
      (st : SessionStore ch) (tx : Sender) (now : ℕ) (sid : Option Text) (role : Option Role)
      → Steps ch from_std (some tx) st (leave ch st tx now sid role).0
  leave-Steps st tx now (some sid) (some r) =
      after (after stays (closes st sid r (some tx) now) refl)
        (disconnects (unregister ch st sid r (some tx) now).0) tt
  leave-Steps st tx now (some sid) none = after stays (disconnects st) tt
  leave-Steps st tx now none role = after stays (disconnects st) tt

  pub close_socket-Steps :
      (st : SessionStore ch) (c : Conn ch) (now : ℕ)
      → Steps ch from_std (some c.tx) st (close_socket ch st c now).0
  unfolding close_socket
  close_socket-Steps st c now = leave-Steps st c.tx now c.session_id c.role

  -- Whatever messages a socket sends, in whatever order, and however its parser reads them, its handler takes
  -- the session store to where a sequence of the store's own operations takes it, of which none unregisters
  -- another socket; and so a store in which each session has one entry, no channel holds two slots of a
  -- session and the gauge counts the sessions is left as such a store.
  pub handle_socket-Steps :
      (from_json : Text → Option SignalMessage) (st : SessionStore ch) (tx : Sender)
      (ms : List (Message × ℕ)) (now : ℕ)
      → (let st' = (handle_socket ch from_json st tx ms now).0 in
          Steps ch from_std (some tx) st st' × (IsStore ch st → IsStore ch st'))
  unfolding handle_socket open_socket
  handle_socket-Steps from_json st tx ms now = (run, Steps-IsStore ch from_std run)
    where
      run : Steps ch from_std (some tx) st (handle_socket ch from_json st tx ms now).0
      run =
          let (opened, c) = open_socket ch st tx in
          let (st', c', sent) = receive ch from_json opened c ms in
          let (received, same) = receive-Outcome from_json opened c ms in
          Steps-trans ch from_std
            (Steps-closing ch from_std tx
              (Steps-trans ch from_std (after stays (connects st) tt) received))
            (subst (λ own. Steps ch from_std (some own) st' (close_socket ch st' c' now).0) same
              (close_socket-Steps st' c' now))
