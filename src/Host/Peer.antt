-- ===== src/Host/Peer.antt =====
-- crates/host/src/webrtc_peer.rs: what the host keeps for one player, and how it pushes a frame to it: over
-- RTP, and over the `CLVD` data channel beside it. The atomics of the struct are a record, and a call is one
-- turn on it. What the webrtc crate answers in a turn is a `Link`.
pub mod Delivery
pub mod Keyframes
pub mod Watermark
mod Examples
use couchlink.Base.{
  ◌^◌, ℕ, zero, suc, ◌+◌, ◌-◌, ◌*◌, ◌%◌, List, [], ◌∷◌, ◌++◌, Option, none, some, Bool, true, false,
  not, ◌&&◌, ◌||◌, ltb, leb, ◌==◌, if◌then◌else◌, min, bytes_eq, Text,
}
use couchlink.Proto.Buffer.{Bytes, Buffer, le_bytes}
use couchlink.Proto.VideoFrame.{VideoAccessUnit}
use couchlink.Proto.VideoFrame.Send.{encode_fragments, encode_fragments_with_fec}

abbrev pub video_dc_max_buffered : ℕ
video_dc_max_buffered = 24 * 1024

abbrev pub video_dc_max_buffered_idr : ℕ
video_dc_max_buffered_idr = 256 * 1024

abbrev pub keyframe_coalesce_ms : ℕ
keyframe_coalesce_ms = 750

abbrev pub keyframe_coalesce_dual_ms : ℕ
keyframe_coalesce_dual_ms = 3000

abbrev pub path_unknown : ℕ
path_unknown = 0

abbrev pub path_webcodecs : ℕ
path_webcodecs = 1

abbrev pub path_rtp : ℕ
path_rtp = 2

abbrev pub path_warmup : ℕ
path_warmup = 3

-- The fields of `WebRtcHost` that these operations use.
pub record WebRtcHost : Type 0 where
  pub video_seq : ℕ
  pub video_w : ℕ
  pub video_h : ℕ
  pub keyframe_wanted : Bool
  pub coalesced_at : ℕ
  pub present_path : ℕ
  pub fec_enabled : Bool
  pub trickle : Bool
  pub shed_streak : ℕ
  pub ok_streak : ℕ
  pub last_input_wm : ℕ
  pub webcodecs_since_ms : ℕ

-- What the connection does during a push. A push waits several times, and the counters number these waits:
-- `buffered k` is the channel's backlog, `sends k` whether a send succeeds, and `expired k` whether the
-- budget of the push ends there.
pub record Link : Type 0 where
  pub writes : Bool
  pub is_open : Bool
  pub tip_buffered : ℕ
  pub buffered : ℕ → ℕ
  pub sends : ℕ → Bool
  pub expired : ℕ → Bool
  pub now_ms : ℕ
  pub now_us : ℕ

-- Which of RTP and the data channel a path uses. `full` is `rtp_full_dual`, a setting of the process.
unfoldable pub path_flags : Bool → ℕ → Bool × Bool
path_flags full path =
    if full
    then (if path == path_rtp then (true, false) else (true, true))
    else if path == path_rtp
    then (true, false)
    else if path == path_webcodecs
    then (true, false)
    else (true, true)

unfoldable pub should_send_rtp : Bool → Bool → ℕ → Bool
unfolding path_flags
should_send_rtp full keyframe path = (path_flags full path).0

unfoldable pub should_send_clvd : Bool → Bool → ℕ → Bool
unfolding path_flags
should_send_clvd full keyframe path =
    if not (path_flags full path).1 then false else if full then true else keyframe

abbrev pub webcodecs : Text
webcodecs = b'w' ∷ b'e' ∷ b'b' ∷ b'c' ∷ b'o' ∷ b'd' ∷ b'e' ∷ b'c' ∷ b's' ∷ []

abbrev pub rtp : Text
rtp = b'r' ∷ b't' ∷ b'p' ∷ []

abbrev pub warmup : Text
warmup = b'w' ∷ b'a' ∷ b'r' ∷ b'm' ∷ b'u' ∷ b'p' ∷ []

unfoldable pub parse_present_path : Text → ℕ
parse_present_path path =
    if bytes_eq path webcodecs
    then path_webcodecs
    else if bytes_eq path rtp
    then path_rtp
    else if bytes_eq path warmup
    then path_warmup
    else path_unknown

unfoldable pub request_keyframe : WebRtcHost → WebRtcHost
request_keyframe p = record p { keyframe_wanted = true }

-- No other thread moves the clock between the load and the exchange, so the exchange succeeds.
unfoldable pub request_keyframe_coalesced_within : ℕ → ℕ → WebRtcHost → WebRtcHost
unfolding request_keyframe
request_keyframe_coalesced_within min_gap_ms now p =
    if ltb (now - p.coalesced_at) min_gap_ms
    then p
    else request_keyframe (record p { coalesced_at = now })

unfoldable pub request_keyframe_coalesced : ℕ → WebRtcHost → WebRtcHost
unfolding request_keyframe_coalesced_within
request_keyframe_coalesced = request_keyframe_coalesced_within keyframe_coalesce_ms

unfoldable pub request_keyframe_coalesced_dual : ℕ → WebRtcHost → WebRtcHost
unfolding request_keyframe_coalesced_within
request_keyframe_coalesced_dual = request_keyframe_coalesced_within keyframe_coalesce_dual_ms

unfoldable pub take_keyframe_request : WebRtcHost → WebRtcHost × Bool
take_keyframe_request p = (record p { keyframe_wanted = false }, p.keyframe_wanted)

unfoldable pub hybrid_dual : Bool → WebRtcHost → Bool
unfolding path_flags
hybrid_dual full p = (path_flags full p.present_path).0 && (path_flags full p.present_path).1

abbrev pub bool_eq : Bool → Bool → Bool
bool_eq true b = b
bool_eq false b = not b

unfoldable pub set_present_path : Bool → ℕ → Text → WebRtcHost → WebRtcHost
unfolding parse_present_path path_flags request_keyframe
set_present_path full now path p =
    let next = parse_present_path path in
    let prev = p.present_path in
    let swapped : WebRtcHost = record p { present_path = next } in
    let asked : WebRtcHost =
      (if bool_eq (path_flags full prev).0 (path_flags full next).0
        then swapped
        else request_keyframe swapped) in
    if prev == next
    then swapped
    else if next == path_webcodecs && not (prev == path_webcodecs)
    then record asked { webcodecs_since_ms = now }
    else asked

unfoldable pub should_enter_trickle : ℕ → Bool
should_enter_trickle shed_streak = leb 8 shed_streak

unfoldable pub should_exit_trickle : ℕ → Bool
should_exit_trickle ok_streak = leb 4 ok_streak

unfoldable pub note_shed : WebRtcHost → WebRtcHost
unfolding should_enter_trickle
note_shed p =
    let s = (p.shed_streak + 1) % 2 ^ 32 in
    record p { ok_streak = 0; shed_streak = s; trickle = should_enter_trickle s || p.trickle }

unfoldable pub note_delivered : WebRtcHost → WebRtcHost
unfolding should_exit_trickle
note_delivered p =
    let o = (p.ok_streak + 1) % 2 ^ 32 in
    if not p.trickle
    then record p { shed_streak = 0 }
    else if should_exit_trickle o
    then record p { shed_streak = 0; trickle = false; ok_streak = 0 }
    else record p { shed_streak = 0; ok_streak = o }

-- The eight bytes of a `CLWM` tip, where one is sent.
unfoldable pub push_wm_tip : Link → WebRtcHost → Option Bytes
push_wm_tip link p =
    if p.last_input_wm == 0
    then none
    else if not link.is_open
    then none
    else if ltb 0 link.tip_buffered
    then none
    else some ((b'C' ∷ b'L' ∷ b'W' ∷ b'M' ∷ []) ++ le_bytes 4 p.last_input_wm)

-- How the loop over the fragments ends; `cancelled` when the budget does.
pub data Sending : Type 0 where
  all_sent stopped cancelled : Sending

abbrev pub buffer_cap : Bool → ℕ
buffer_cap keyframe = if keyframe then video_dc_max_buffered_idr else video_dc_max_buffered

unfoldable pub send_all : Link → Bool → ℕ → List Bytes → List Bytes × Sending
send_all link keyframe k [] = ([], all_sent)
send_all link keyframe k (frag ∷ frags) =
    let rest = send_all link keyframe (k + 2) frags in
    if link.expired k
    then ([], cancelled)
    else if ltb (buffer_cap keyframe) (link.buffered k)
    then ([], stopped)
    else if link.expired (k + 1)
    then ([], cancelled)
    else if not (link.sends (k + 1))
    then ([], stopped)
    else (frag ∷ rest.0, rest.1)

unfoldable pub access_unit : Link → Bytes → Bool → WebRtcHost → VideoAccessUnit
access_unit link annex_b keyframe p = record {
  seq = p.video_seq;
  width = min p.video_w 65535;
  height = min p.video_h 65535;
  keyframe = keyframe;
  annex_b = annex_b;
  stamp_us = link.now_us;
  input_wm = p.last_input_wm;
}

unfoldable pub fragments_of : Buffer → Bool → WebRtcHost → VideoAccessUnit → List Bytes
fragments_of io send_rtp p au =
    if p.fec_enabled && (p.present_path == path_webcodecs) && not send_rtp
    then encode_fragments_with_fec io au
    else encode_fragments io au

-- What the closure `push_clvd` gives: the peer, the packets and, unless it is cancelled, the pair of
-- `delivered` and `trickle_skip`.
pub record Clvd : Type 0 where
  pub peer : WebRtcHost
  pub packets : List Bytes
  pub answer : Option (Bool × Bool)

-- The keyframe requests after the loop.
unfoldable pub after_sending : Link → Bool → Bool → WebRtcHost → Sending → WebRtcHost
unfolding request_keyframe_coalesced request_keyframe_coalesced_dual
after_sending link send_rtp keyframe p all_sent = p
after_sending link send_rtp keyframe p cancelled = p
after_sending link send_rtp keyframe p stopped =
    if not send_rtp
    then request_keyframe_coalesced link.now_ms p
    else if keyframe && send_rtp
    then request_keyframe_coalesced_dual link.now_ms p
    else p

abbrev pub sending_answer : Sending → Option (Bool × Bool)
sending_answer all_sent = some (true, false)
sending_answer stopped = some (false, false)
sending_answer cancelled = none

unfoldable pub push_clvd : Buffer → Bool → Link → Bool → Bytes → Bool → WebRtcHost → Clvd
push_clvd io full link send_rtp annex_b keyframe p =
    let congested = ltb (buffer_cap keyframe) (link.buffered 0) in
    let taken : WebRtcHost = record p { video_seq = (p.video_seq + 1) % 2 ^ 32 } in
    let sent =
      send_all link keyframe 1 (fragments_of io send_rtp p (access_unit link annex_b keyframe p)) in
    if not (should_send_clvd full keyframe p.present_path)
    then record { peer = p; packets = []; answer = some (false, false) }
    else if not link.is_open
    then record { peer = p; packets = []; answer = some (false, false) }
    else if link.expired 0
    then record { peer = p; packets = []; answer = none }
    else if not congested
    then record {
      peer = after_sending link send_rtp keyframe taken sent.1;
      packets = sent.0;
      answer = sending_answer sent.1;
    }
    else if not keyframe
    then record {
      peer = if not send_rtp then request_keyframe_coalesced link.now_ms p else p;
      packets = [];
      answer = some (false, p.trickle);
    }
    else record { peer = p; packets = []; answer = some (false, false) }

pub data PushFate : Type 0 where
  delivered shed trickle_skip : PushFate

-- What a push puts on the wire.
pub record Output : Type 0 where
  pub sample : Option Bytes
  pub tip : Option Bytes
  pub packets : List Bytes

-- `Err` of `push_h264` is `failed`: the track refused the sample, and nothing is changed.
pub data Pushed : Type 0 where
  failed : Pushed
  pushed : WebRtcHost → Output → PushFate → Pushed

-- The end of `push_h264`, from the flags `delivered` and `trickle_skip`.
unfoldable pub finish : Output → WebRtcHost → Bool → Bool → Pushed
unfolding note_delivered note_shed
finish out p done skip =
    if done
    then pushed (note_delivered p) out delivered
    else if skip
    then pushed p out trickle_skip
    else pushed (note_shed p) out shed

-- The flags after a call of `push_clvd`; a cancelled one leaves them.
abbrev pub done_of : Option (Bool × Bool) → Bool
done_of none = false
done_of (some (d, t)) = d

abbrev pub skip_of : Option (Bool × Bool) → Bool
skip_of none = false
skip_of (some (d, t)) = t

-- What follows the sample. A hybrid path gives the channel a budget; another waits for it to the end.
unfoldable pub push_beside :
    Buffer → Bool → Link → Bytes → Bool → Output → Bool → WebRtcHost → Pushed
push_beside io full link annex_b keyframe out done p =
    let (send_rtp, send_dc) = path_flags full p.present_path in
    let hybrid_clvd =
      send_dc && (p.present_path == path_unknown || p.present_path == path_warmup) in
    let patient : Link = (if hybrid_clvd then link else record link { expired = λ k. false }) in
    let c = push_clvd io full patient send_rtp annex_b keyframe p in
    if send_dc
    then finish (record out { packets = c.packets }) c.peer (done || done_of c.answer)
        (skip_of c.answer)
    else finish out p done false

unfoldable pub push_h264 : Buffer → Bool → Link → Bytes → Bool → WebRtcHost → Pushed
push_h264 io full link annex_b keyframe p =
    let nothing : Output = record { sample = none; tip = none; packets = [] } in
    let shown : Output = record { sample = some annex_b; tip = push_wm_tip link p; packets = [] } in
    if (path_flags full p.present_path).0 && should_send_rtp full keyframe p.present_path
    then (if link.writes then push_beside io full link annex_b keyframe shown true p else failed)
    else push_beside io full link annex_b keyframe nothing false p
