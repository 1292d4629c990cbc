-- ===== src/Signaling/Ws/Stamps.antt =====
-- The slots that a player's messages carry when they reach the others (crates/signaling/src/ws.rs).
use couchlink.Base.{
  inr, inl, subst, ◌∙◌, sym, Option-cases, ℕ, Text, Option, none, some, List, [], ◌∷◌, ◌++◌, ◌≡◌,
  refl, Bool, true, false,
}
use couchlink.Proto.Signal
use couchlink.Proto.Signal.{Role, host, player, SignalMessage}
use couchlink.Signaling.Channels.{Channels}
use couchlink.Signaling.Players
use couchlink.Signaling.Session.Store.{SessionStore, Sent, Outgoing, json}
use couchlink.Signaling.Session.Map.{find}
use couchlink.Signaling.Session.Peers.{peer_tx, broadcast_to_players, broadcast, to_peer, to_all}
use couchlink.Signaling.Ws.{
  stamped, player_pad, relay_to_host, pad_of, fan_out, Conn, handle_message,
}

-- The seat that a message speaks for, where its content says what a player does or has.
abbrev pub speaks_for : SignalMessage → Option ℕ
speaks_for (Signal.answer sdp epoch slot) = some slot
speaks_for (Signal.ice_candidate candidate sdp_mid sdp_mline_index slot) = some slot
speaks_for (Signal.request_offer slot) = some slot
speaks_for (Signal.pad_info kind id slot) = some slot
speaks_for (Signal.player_pad_info slot kind id) = some slot
speaks_for (Signal.present_path path slot) = some slot
speaks_for (Signal.client_link_stats stats slot) = some slot
speaks_for (Signal.split_screen_set enabled view_mode layout regions rescan slot) = some slot
speaks_for msg = none

abbrev pub is_registration : SignalMessage → Bool
is_registration (Signal.register_host sid pin device_name preset emulator) = true
is_registration (Signal.register_player sid pin player_name) = true
is_registration msg = false

module _ (ch : Channels) where
  open ch use {Sender}

  -- Nothing but messages, and those that speak for a seat speak for this one.
  abbrev pub SpeaksOnlyFor : Option ℕ → Outgoing → Type 0
  SpeaksOnlyFor own (json msg) = (slot : ℕ) → speaks_for msg ≡ some slot → own ≡ some slot
  SpeaksOnlyFor own out = ⊥

  abbrev pub AllSent : (Outgoing → Type 0) → Sent ch → Type 0
  AllSent P [] = Unit {0}
  AllSent P ((to, out) ∷ sent) = P out × AllSent P sent

  AllSent-append :
      (P : Outgoing → Type 0) (xs ys : Sent ch) → AllSent P xs → AllSent P ys → AllSent P (xs ++ ys)
  AllSent-append P [] ys h k = k
  AllSent-append P ((to, out) ∷ xs) ys h k = (h.0, AllSent-append P xs ys h.1 k)

  AllSent-to_peer :
      (P : Outgoing → Type 0) (out : Outgoing) (to : Option Sender)
      → P out
      → AllSent P (to_peer ch out to)
  AllSent-to_peer P out none h = tt
  AllSent-to_peer P out (some to) h = (h, tt)

  AllSent-to_all :
      (P : Outgoing → Type 0) (out : Outgoing) (ps : List (ℕ × Sender))
      → P out
      → AllSent P (to_all ch out ps)
  AllSent-to_all P out [] h = tt
  AllSent-to_all P out (p ∷ ps) h = (h, AllSent-to_all P out ps h)

  stamped-SpeaksOnlyFor :
      (st : SessionStore ch) (sid : Option Text) (own : Option ℕ) (make : ℕ → SignalMessage)
      → ((s : ℕ) → speaks_for (make s) ≡ some s)
      → AllSent (SpeaksOnlyFor own) (stamped ch st sid own make)
  unfolding relay_to_host
  stamped-SpeaksOnlyFor st none own make h = tt
  stamped-SpeaksOnlyFor st (some sid) none make h = tt
  stamped-SpeaksOnlyFor st (some sid) (some slot) make h =
      AllSent-to_peer (SpeaksOnlyFor (some slot)) (json (make slot)) (peer_tx ch st sid host)
        (λ s e. sym (h slot) ∙ e)

  AllSent-broadcast :
      (P : Outgoing → Type 0) (st : SessionStore ch) (sid : Text) (out : Outgoing)
      → P out
      → AllSent P (broadcast ch st sid out)
  unfolding broadcast broadcast_to_players
  AllSent-broadcast P st sid out h =
      AllSent-append P (to_peer ch out (peer_tx ch st sid host))
        (broadcast_to_players ch st sid out) (AllSent-to_peer P out (peer_tx ch st sid host) h)
        (elim (Option-cases (find sid st.sessions)) [
          | inl e ↦ rw (e, broadcast_to_players) tt
          | inr (s, e) ↦
              rw (e, broadcast_to_players) (AllSent-to_all P out (Players.iter ch s.players) h)
        ])

  pad-SpeaksOnlyFor :
      (st : SessionStore ch) (sid : Option Text) (own : Option ℕ) (kind id : Text)
      → AllSent (SpeaksOnlyFor own) (player_pad ch st sid own kind id)
  unfolding relay_to_host
  pad-SpeaksOnlyFor st none own kind id = tt
  pad-SpeaksOnlyFor st (some sid) none kind id = tt
  pad-SpeaksOnlyFor st (some sid) (some slot) kind id =
      AllSent-append (SpeaksOnlyFor (some slot))
        (relay_to_host ch st sid (Signal.pad_info kind id slot))
        (broadcast ch st sid (json (Signal.player_pad_info slot kind id)))
        (AllSent-to_peer (SpeaksOnlyFor (some slot)) (json (Signal.pad_info kind id slot))
          (peer_tx ch st sid host) (λ s e. e))
        (AllSent-broadcast (SpeaksOnlyFor (some slot)) st sid
          (json (Signal.player_pad_info slot kind id)) (λ s e. e))

  pad_of-SpeaksOnlyFor :
      (st : SessionStore ch) (c : Conn ch) (kind id : Text) (sid : Option Text)
      → AllSent (SpeaksOnlyFor c.player_slot) (pad_of ch st c kind id sid (some player)).2
  pad_of-SpeaksOnlyFor st c kind id none = tt
  pad_of-SpeaksOnlyFor st c kind id (some sid) =
      pad-SpeaksOnlyFor st (some sid) c.player_slot kind id

  fan_out-SpeaksOnlyFor :
      (st : SessionStore ch) (c : Conn ch) (raw : Text) (sid : Option Text) (role : Option Role)
      → role ≡ some player
      → AllSent (SpeaksOnlyFor c.player_slot) (fan_out ch st c raw sid role).2
  fan_out-SpeaksOnlyFor st c raw none role r = tt
  fan_out-SpeaksOnlyFor st c raw (some sid) none r = tt
  fan_out-SpeaksOnlyFor st c raw (some sid) (some player) r = tt
  fan_out-SpeaksOnlyFor st c raw (some sid) (some host) r = cc

  -- Whatever message a player's connection sends, other than a registration, nothing goes out in the
  -- sender's own words: all that the server sends on is a message of its own making, and one that speaks for
  -- a seat speaks for the seat that the connection registered, whatever slot its message named.
  pub handle_message-stamped :
      (st : SessionStore ch) (c : Conn ch) (raw : Text) (now : ℕ) (msg : SignalMessage)
      → c.role ≡ some player
      → is_registration msg ≡ false
      → AllSent (SpeaksOnlyFor c.player_slot) (handle_message ch st c raw now msg).2
  unfolding handle_message
  handle_message-stamped st c raw now (Signal.register_host sid pin d p m) r n = cc
  handle_message-stamped st c raw now (Signal.register_player sid pin name) r n = cc
  handle_message-stamped st c raw now Signal.heartbeat r n = (λ s e. cc, tt)
  handle_message-stamped st c raw now Signal.pong r n = tt
  handle_message-stamped st c raw now (Signal.answer sdp epoch slot) r n =
      stamped-SpeaksOnlyFor st c.session_id c.player_slot (λ own. Signal.answer sdp epoch own)
        (λ s. refl)
  handle_message-stamped st c raw now (Signal.ice_candidate cand mid line slot) r n = rw r (
      stamped-SpeaksOnlyFor st c.session_id c.player_slot
        (λ own. Signal.ice_candidate cand mid line own) (λ s. refl))
  handle_message-stamped st c raw now (Signal.pad_info kind id slot) r n =
      subst (λ o. AllSent (SpeaksOnlyFor c.player_slot) (pad_of ch st c kind id c.session_id o).2)
        (sym r) (pad_of-SpeaksOnlyFor st c kind id c.session_id)
  handle_message-stamped st c raw now (Signal.present_path path slot) r n =
      stamped-SpeaksOnlyFor st c.session_id c.player_slot (λ own. Signal.present_path path own)
        (λ s. refl)
  handle_message-stamped st c raw now (Signal.client_link_stats stats slot) r n =
      stamped-SpeaksOnlyFor st c.session_id c.player_slot
        (λ own. Signal.client_link_stats stats own) (λ s. refl)
  handle_message-stamped st c raw now (Signal.request_offer slot) r n =
      stamped-SpeaksOnlyFor st c.session_id c.player_slot (λ own. Signal.request_offer own)
        (λ s. refl)
  handle_message-stamped st c raw now (Signal.split_screen_set on view lay regions rescan slot) r
        n =
      stamped-SpeaksOnlyFor st c.session_id c.player_slot
        (λ own. Signal.split_screen_set on view lay regions rescan own) (λ s. refl)
  handle_message-stamped st c raw now (Signal.offer sdp epoch slot) r n = rw r tt
  handle_message-stamped st c raw now (Signal.stream_info w h f codec ok hint) r n =
      fan_out-SpeaksOnlyFor st c raw c.session_id c.role r
  handle_message-stamped st c raw now (Signal.host_stats stats) r n =
      fan_out-SpeaksOnlyFor st c raw c.session_id c.role r
  handle_message-stamped st c raw now (Signal.split_screen_config on view lay regions seats rescan)
        r n =
      fan_out-SpeaksOnlyFor st c raw c.session_id c.role r
  handle_message-stamped st c raw now (Signal.registered role sid slot) r n = tt
  handle_message-stamped st c raw now (Signal.error message) r n = tt
  handle_message-stamped st c raw now (Signal.peer_joined role epoch slot) r n = tt
  handle_message-stamped st c raw now (Signal.peer_left slot) r n = tt
  handle_message-stamped st c raw now (Signal.players_status occupied limit) r n = tt
  handle_message-stamped st c raw now (Signal.player_pad_info slot kind id) r n = tt
