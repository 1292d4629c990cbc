-- ===== src/Proto/Signal.antt =====
-- crates/proto/src/signal.rs: the messages of the signaling protocol. A text is the list of its bytes,
-- and a floating-point number is its bit pattern. The JSON of a message is serde's.
use couchlink.Base.{ℕ, List, Option, Bool, Text}

pub data Role : Type 0 where
  host player : Role

-- A rectangle in the frame: `x`, `y`, `w` and `h` are `f32`.
pub record NormRect : Type 0 where
  pub x : ℕ
  pub y : ℕ
  pub w : ℕ
  pub h : ℕ

-- The fields of `SignalMessage::ClientLinkStats` but the slot.
pub record LinkStats : Type 0 where
  pub frames_dropped_delta : ℕ
  pub jitter_buffer_ms : ℕ
  pub rtt_ms : ℕ
  pub packets_lost_delta : ℕ
  pub packets_received_delta : ℕ
  pub freeze_count_delta : ℕ

-- The fields of `SignalMessage::HostStats`.
pub record PipelineStats : Type 0 where
  pub fps : ℕ
  pub frames_out : ℕ
  pub dropped_frames : ℕ
  pub drop_pct : ℕ
  pub capture_ms : ℕ
  pub scale_ms : ℕ
  pub encode_ms : ℕ
  pub push_ms : ℕ
  pub dominant_stage : Text
  pub target_width : ℕ
  pub target_height : ℕ
  pub target_fps : ℕ
  pub target_bitrate_kbps : ℕ
  pub age_p50_ms : ℕ
  pub age_p95_ms : ℕ
  pub frames_received : ℕ
  pub handoff_wait_ms : ℕ
  pub handoff_copy_ms : ℕ
  pub handoff_wait_p95_ms : ℕ
  pub shm_gate_trips : Bool

pub data SignalMessage : Type 0 where
  register_host :
      (session_id pin : Text) (device_name preset emulator : Option Text) → SignalMessage
  register_player : (session_id pin : Text) (player_name : Option Text) → SignalMessage
  registered : (role : Role) (session_id : Text) (slot : ℕ) → SignalMessage
  error : (message : Text) → SignalMessage
  offer : (sdp : Text) (epoch slot : ℕ) → SignalMessage
  answer : (sdp : Text) (epoch slot : ℕ) → SignalMessage
  ice_candidate :
      (candidate : Text) (sdp_mid : Option Text) (sdp_mline_index : Option ℕ) (slot : ℕ)
      → SignalMessage
  heartbeat pong : SignalMessage
  request_offer : (slot : ℕ) → SignalMessage
  peer_joined : (role : Role) (epoch slot : ℕ) → SignalMessage
  peer_left : (slot : ℕ) → SignalMessage
  players_status : (occupied max : ℕ) → SignalMessage
  pad_info : (kind id : Text) (slot : ℕ) → SignalMessage
  player_pad_info : (slot : ℕ) (kind id : Text) → SignalMessage
  present_path : (path : Text) (slot : ℕ) → SignalMessage
  client_link_stats : (stats : LinkStats) (slot : ℕ) → SignalMessage
  stream_info :
      (width height fps : ℕ) (codec : Text) (capture_ok : Option Bool) (capture_hint : Option Text)
      → SignalMessage
  host_stats : (stats : PipelineStats) → SignalMessage
  split_screen_set :
      (enabled : Bool) (view_mode layout : Text) (regions : List NormRect) (rescan : Bool)
      (slot : ℕ)
      → SignalMessage
  split_screen_config :
      (master_enabled : Bool) (host_view_mode layout : Text) (regions : List NormRect)
      (seat_region : List ℕ) (rescan : Bool)
      → SignalMessage
