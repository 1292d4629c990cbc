-- ===== src/Host/Bridge.antt =====
-- crates/host/src/capture/bridge.rs: the host's end of the capture socket. A socket is the bytes that it has yet
-- to give, and whether it is closed behind them; behind an open one a read times out. Instants are
-- milliseconds, read once in each call. What the host writes to the socket is always taken.
pub mod Demux
pub mod Order
pub mod Newest
pub mod Flapping
mod Examples
use couchlink.Base.{
  ℕ, zero, suc, ◌+◌, ◌-◌, List, [], ◌∷◌, ◌++◌, Option, none, some, Bool, true, false, not, ◌&&◌,
  ◌||◌, ltb, leb, ◌==◌, if◌then◌else◌, length, take, drop, max, bytes_eq,
}
use couchlink.Proto.Buffer.{Bytes}
use couchlink.Host.LinkGov.{EncodeTarget}
use couchlink.Capture.Wire.{
  AudioFrame, FrameFormat, bgra, h264, is_bgra, same_format, FrameInfo, Read, done, failed,
  read_frame_body_sync, read_audio_body, frame_magic, audio_magic, write_set_target, request_idr,
  expedite,
}

abbrev pub max_pending_audio : ℕ
max_pending_audio = 100

abbrev pub respawn_after : ℕ
respawn_after = 2000

abbrev pub respawn_retry_interval : ℕ
respawn_retry_interval = 20_000

abbrev pub hung_respawn_retry_interval : ℕ
hung_respawn_retry_interval = 5000

abbrev pub frame_stale_after : ℕ
frame_stale_after = 1500

pub data Captured : Type 0 where
  raw : Bytes → Captured
  encoded : (nal : Bytes) (keyframe : Bool) → Captured

pub record Socket : Type 0 where
  pub bytes : Bytes
  pub closed : Bool

-- The bridge, with what it has written to the socket and how often it has relaunched the capture process.
pub record WindowsBridge : Type 0 where
  pub stream : Option Socket
  pub width : ℕ
  pub height : ℕ
  pub buf : Bytes
  pub pending : Option Bytes
  pub last : Option Bytes
  pub format : FrameFormat
  pub keyframe : Bool
  pub target : Option EncodeTarget
  pub frames_received : ℕ
  pub disconnected_at : Option ℕ
  pub last_respawn : Option ℕ
  pub last_frame_at : ℕ
  pub session_started_at : ℕ
  pub ever_connected : Bool
  pub pending_audio : List AudioFrame
  pub written : Bytes
  pub respawns : ℕ

-- What the loop of `read_frame` comes to: a frame, none as yet, or an error; with the audio that it met and
-- the bytes that are left.
pub data Demuxed : Type 0 where
  frame : FrameInfo → Bytes → List AudioFrame → Bytes → Demuxed
  nothing : List AudioFrame → Bytes → Demuxed
  lost : Demuxed

-- A frame of video behind its magic.
abbrev pub read_video : List AudioFrame → Read (FrameInfo × Bytes) → Demuxed
read_video audio (failed e) = lost
read_video audio (done (info, payload) rest) = frame info payload audio rest

-- The loop: its first argument is how many more audio frames it may take, of sixteen. Fewer than four
-- bytes of a magic, and any part of a frame, are an error.
unfoldable pub demux : ℕ → Bool → List AudioFrame → Bytes → Demuxed
demux zero closed audio bytes = nothing audio bytes
demux (suc n) closed audio [] = if closed then lost else nothing audio []
demux (suc n) closed audio (b ∷ bytes) =
    if ltb (length (b ∷ bytes)) 4
    then lost
    else if bytes_eq (take 4 (b ∷ bytes)) audio_magic
    then elim (read_audio_body (drop 4 (b ∷ bytes))) [
      | failed e ↦ lost
      | done af rest ↦ demux n closed (audio ++ af ∷ []) rest
    ]
    else if not (bytes_eq (take 4 (b ∷ bytes)) frame_magic)
    then lost
    else read_video audio (read_frame_body_sync (drop 4 (b ∷ bytes)))

-- `drop_excess_pending_audio`: the oldest packets go.
abbrev pub drop_excess : List AudioFrame → List AudioFrame
drop_excess audio = drop (length audio - max_pending_audio) audio

abbrev pub keep_audio : List AudioFrame → WindowsBridge → WindowsBridge
keep_audio audio b = record b { pending_audio = drop_excess (b.pending_audio ++ audio) }

-- The state after a frame: its format and its size are adopted, and a kept frame of another is dropped.
unfoldable pub note_frame : FrameInfo → Bytes → WindowsBridge → WindowsBridge
note_frame info payload b =
    let same =
      same_format b.format info.format && (b.width == info.width && b.height == info.height) in
    record b {
      format = info.format;
      keyframe = info.keyframe;
      width = info.width;
      height = info.height;
      last = if same then b.last else none;
      buf = payload;
      frames_received = b.frames_received + 1;
    }

-- `Ok(Some(info))`, `Ok(None)` and `Err` of `read_frame`.
pub data Polled : Type 0 where
  got no_frame broken : WindowsBridge → Polled

abbrev pub polled : Bool → Demuxed → WindowsBridge → Polled
polled closed lost b = broken b
polled closed (nothing audio rest) b =
    no_frame
      (record (keep_audio audio b) { stream = some (record { bytes = rest; closed = closed }) })
polled closed (frame info payload audio rest) b = got (
    note_frame info payload
      (record (keep_audio audio b) { stream = some (record { bytes = rest; closed = closed }) }))

abbrev pub read_socket : Option Socket → WindowsBridge → Polled
read_socket none b = no_frame b
read_socket (some s) b = polled s.closed (demux 16 s.closed [] s.bytes) b

unfoldable pub read_frame : WindowsBridge → Polled
read_frame b = read_socket b.stream b

-- `while self.read_frame(DRAIN_POLL)?.is_some()`. Each round takes bytes off the socket, and so as many
-- rounds as there are bytes are enough.
unfoldable pub drain : ℕ → WindowsBridge → Polled
drain zero b = no_frame b
drain (suc n) b = elim (read_frame b) [
  | got b' ↦ drain n b'
  | no_frame b' ↦ no_frame b'
  | broken b' ↦ broken b'
]

abbrev pub bytes_of : Option Socket → Bytes
bytes_of none = []
bytes_of (some s) = s.bytes

-- A frame was received, and no more comes: the rounds of the loop end so.
abbrev pub received : Polled → Polled
received (got b) = got b
received (no_frame b) = got b
received (broken b) = broken b

-- `Ok(true)`, `Ok(false)` and `Err` of `latest_frame`.
unfoldable pub latest_frame : WindowsBridge → Polled
latest_frame b = elim (read_frame b) [
  | no_frame b' ↦ no_frame b'
  | broken b' ↦ broken b'
  | got b' ↦
      if not (is_bgra b'.format) then got b' else received (drain (length (bytes_of b'.stream)) b')
]

-- The client that the listener has waiting, if `configure` takes it.
unfoldable pub try_reconnect : ℕ → Option Socket → WindowsBridge → WindowsBridge × Bool
try_reconnect now none b = (b, false)
try_reconnect now (some s) b = (
  record b {
    stream = some s;
    ever_connected = true;
    session_started_at = now;
    written = elim b.target [ none ↦ b.written | some t ↦ b.written ++ write_set_target t ];
  },
  true,
)

abbrev pub since : ℕ → Option ℕ → Option ℕ
since now none = none
since now (some t) = some (now - t)

abbrev pub too_soon : ℕ → Option ℕ → Bool
too_soon floor none = false
too_soon floor (some elapsed) = ltb elapsed floor

unfoldable pub spawn_respawn : ℕ → ℕ → WindowsBridge → WindowsBridge
spawn_respawn now retry_floor b =
    if too_soon retry_floor (since now b.last_respawn)
    then b
    else record b { last_respawn = some now; respawns = b.respawns + 1 }

unfoldable pub maybe_respawn : ℕ → WindowsBridge → WindowsBridge
maybe_respawn now b = if not b.ever_connected then b else elim b.disconnected_at [
  | none ↦ b
  | some at ↦ if ltb (now - at) respawn_after then b else spawn_respawn now respawn_retry_interval b
]

unfoldable pub force_respawn_hung : ℕ → WindowsBridge → WindowsBridge
force_respawn_hung now b =
    if not b.ever_connected then b else spawn_respawn now hung_respawn_retry_interval b

-- `last.clone()`, for raw frames only.
unfoldable pub stale_frame : WindowsBridge → Option Captured
stale_frame b =
    if not (is_bgra b.format) then none else elim b.last [ none ↦ none | some p ↦ some (raw p) ]

abbrev pub get_or_insert : Option ℕ → ℕ → Option ℕ
get_or_insert none now = some now
get_or_insert (some t) now = some t

-- A frame goes to the caller; a raw one is kept as well.
unfoldable pub deliver : ℕ → WindowsBridge → WindowsBridge × Option Captured
deliver now b =
    let fresh : WindowsBridge = record b {
      last_frame_at = now;
      disconnected_at = none;
      buf = [];
    } in
    if not (is_bgra b.format)
    then (fresh, some (encoded b.buf b.keyframe))
    else (record fresh { last = some b.buf }, some (raw b.buf))

-- No frame: a socket that has been silent for too long is dropped.
unfoldable pub silent : ℕ → WindowsBridge → WindowsBridge
silent now b =
    if leb frame_stale_after (now - max b.last_frame_at b.session_started_at)
    then force_respawn_hung now
        (record b { stream = none; disconnected_at = get_or_insert b.disconnected_at now })
    else b

abbrev pub is_connected : Option Socket → Bool
is_connected none = false
is_connected (some s) = true

-- The arms of `capture` on `latest_frame`; `dialling` is the client that waits at the listener.
abbrev pub capture_polled : ℕ → Option Socket → Polled → WindowsBridge × Option Captured
capture_polled now dialling (got b) = deliver now b
capture_polled now dialling (no_frame b) = (silent now b, stale_frame (silent now b))
capture_polled now dialling (broken b) =
    let c =
      (try_reconnect now dialling (record b { stream = none; disconnected_at = some now })).0 in
    (c, stale_frame c)

-- `capture` while no client is connected.
unfoldable pub capture_away : ℕ → Option Socket → WindowsBridge → WindowsBridge × Option Captured
capture_away now dialling b =
    let (c, accepted) = try_reconnect now dialling b in
    let d = (if accepted then c else maybe_respawn now c) in (d, stale_frame d)

abbrev pub capture_on :
    Option Socket → ℕ → Option Socket → WindowsBridge → WindowsBridge × Option Captured
capture_on none now dialling b = capture_away now dialling b
capture_on (some s) now dialling b = capture_polled now dialling (latest_frame b)

-- The frame that was read while listening goes first.
abbrev pub capture_after :
    Option Bytes → ℕ → Option Socket → WindowsBridge → WindowsBridge × Option Captured
capture_after (some p) now dialling b = (record b { pending = none; last = some p }, some (raw p))
capture_after none now dialling b = capture_on b.stream now dialling b

unfoldable pub capture : ℕ → Option Socket → WindowsBridge → WindowsBridge × Option Captured
capture now dialling b = capture_after b.pending now dialling b

unfoldable pub ask_idr : WindowsBridge → WindowsBridge
ask_idr b =
    if is_bgra b.format || not (is_connected b.stream)
    then b
    else record b { written = b.written ++ request_idr ∷ [] }

unfoldable pub write_expedite : WindowsBridge → WindowsBridge
write_expedite b =
    if is_bgra b.format || not (is_connected b.stream)
    then b
    else record b { written = b.written ++ expedite ∷ [] }

unfoldable pub command_target : EncodeTarget → WindowsBridge → WindowsBridge
command_target t b =
    let kept : WindowsBridge = record b { target = some t } in
    if is_connected b.stream
    then record kept { written = b.written ++ write_set_target t }
    else kept

unfoldable pub reassert_target : WindowsBridge → WindowsBridge
reassert_target b = elim b.target [
  | none ↦ b
  | some t ↦
      if is_connected b.stream then record b { written = b.written ++ write_set_target t } else b
]

unfoldable pub take_received : WindowsBridge → WindowsBridge × ℕ
take_received b = (record b { frames_received = 0 }, b.frames_received)

unfoldable pub try_take_audio : WindowsBridge → WindowsBridge × Option Bytes
try_take_audio b = elim b.pending_audio [
  | [] ↦ (b, none)
  | af ∷ rest ↦ (record b { pending_audio = rest }, some af.opus)
]
