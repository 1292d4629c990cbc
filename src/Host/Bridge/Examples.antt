-- ===== src/Host/Bridge/Examples.antt =====
-- Frames and clients on the capture socket.
use couchlink.Base.{◌≡◌, refl, arith, [], ◌∷◌, ◌++◌, none, some, true, false}
use couchlink.Proto.Buffer.{Bytes}
use couchlink.Capture.Wire.{
  FrameInfo, bgra, h264, AudioFrame, write_frame_with_format, read_frame_sync, done, max_payload,
  max_opus,
}
use couchlink.Capture.Wire.RoundTrip.{IsFrame, IsAudio, read_frame_sync-write}
use couchlink.Host.Bridge.{WindowsBridge, Socket, capture, encoded, demux}
use couchlink.Host.Bridge.Demux.{Burst, IsBurst, wire}
use couchlink.Host.Bridge.Order.{Holds, captures, captures-h264}
use couchlink.Host.Bridge.Newest.{capture-newest}
use couchlink.Host.Bridge.Flapping.{serve, serve-stuck}

abbrev pixel_info : FrameInfo
pixel_info = record { width = 1; height = 1; format = bgra; keyframe = true }

abbrev idr_info : FrameInfo
idr_info = record { width = 64; height = 64; format = h264; keyframe = true }

abbrev delta_info : FrameInfo
delta_info = record { width = 64; height = 64; format = h264; keyframe = false }

abbrev pixel : Bytes
pixel = 1 ∷ 2 ∷ 3 ∷ 255 ∷ []

pixel-IsFrame : IsFrame pixel_info pixel
unfolding max_payload
pixel-IsFrame = record {
  width_fits = omega arith;
  height_fits = omega arith;
  some_bytes = omega arith;
  not_too_many = omega arith;
  raw_size = λ e. refl;
}

encoded-IsFrame :
    (info : FrameInfo)
    → info.width ≡ 64
    → info.height ≡ 64
    → info.format ≡ h264
    → IsFrame info pixel
unfolding max_payload
encoded-IsFrame info w h f = record {
  width_fits = omega arith;
  height_fits = omega arith;
  some_bytes = omega arith;
  not_too_many = omega arith;
  raw_size = λ e. cc;
}

read_frame_sync-write_example :
    read_frame_sync (write_frame_with_format pixel_info pixel ++ 9 ∷ [])
    ≡ done (pixel_info, pixel) (9 ∷ [])
read_frame_sync-write_example = read_frame_sync-write pixel_info pixel (9 ∷ []) pixel-IsFrame

-- The size that this header names is four bytes more than a word of the machine holds.
abbrev huge_info : FrameInfo
huge_info = record { width = 2_147_418_113; height = 2_147_549_185; format = bgra; keyframe = true }

huge-IsFrame : IsFrame huge_info pixel
unfolding max_payload
huge-IsFrame = record {
  width_fits = omega arith;
  height_fits = omega arith;
  some_bytes = omega arith;
  not_too_many = omega arith;
  raw_size = λ e. refl;
}

-- And so its four bytes are taken for a whole raw frame.
huge_frame :
    read_frame_sync (write_frame_with_format huge_info pixel ++ []) ≡ done (huge_info, pixel) []
huge_frame = read_frame_sync-write huge_info pixel [] huge-IsFrame

abbrev packet : AudioFrame
packet = record { seq = 1; sample_rate = 48_000; channels = 2; opus = 7 ∷ [] }

packet-IsAudio : IsAudio packet
unfolding max_opus
packet-IsAudio = record {
  seq_fits = omega arith;
  sample_rate_fits = omega arith;
  not_too_many = omega arith;
}

abbrev raw_burst : Burst
raw_burst = record { audio = []; info = pixel_info; payload = pixel }

abbrev idr_burst : Burst
idr_burst = record { audio = packet ∷ []; info = idr_info; payload = pixel }

abbrev delta_burst : Burst
delta_burst = record { audio = []; info = delta_info; payload = pixel }

raw-IsBurst : IsBurst raw_burst
raw-IsBurst = record { few = omega arith; packets = tt; video = pixel-IsFrame }

idr-IsBurst : IsBurst idr_burst
idr-IsBurst = record {
  few = omega arith;
  packets = (packet-IsAudio, tt);
  video = encoded-IsFrame idr_info refl refl refl;
}

delta-IsBurst : IsBurst delta_burst
delta-IsBurst = record {
  few = omega arith;
  packets = tt;
  video = encoded-IsFrame delta_info refl refl refl;
}

-- A bridge whose client has sent these bytes.
abbrev bridge : Socket → WindowsBridge
bridge s = record {
  stream = some s;
  width = 0;
  height = 0;
  buf = [];
  pending = none;
  last = none;
  format = bgra;
  keyframe = false;
  target = none;
  frames_received = 0;
  disconnected_at = none;
  last_respawn = none;
  last_frame_at = 0;
  session_started_at = 0;
  ever_connected = true;
  pending_audio = [];
  written = [];
  respawns = 0;
}

captures-h264_example :
    captures
      (10 ∷ 26 ∷ [])
      (bridge (record { bytes = wire (idr_burst ∷ delta_burst ∷ []); closed = true }))
    ≡ some (encoded pixel true) ∷ some (encoded pixel false) ∷ []
captures-h264_example =
    captures-h264 ((10, idr_burst) ∷ (26, delta_burst) ∷ []) true
      (bridge (record { bytes = wire (idr_burst ∷ delta_burst ∷ []); closed = true }))
      ((idr-IsBurst, refl), ((delta-IsBurst, refl), tt)) refl refl

-- The encoder takes over from raw frames, and its keyframe is lost.
abbrev switching : WindowsBridge
switching =
    bridge (record { bytes = wire (raw_burst ∷ idr_burst ∷ delta_burst ∷ []); closed = false })

capture-newest_example :
    ((capture 10 none switching).1 ≡ some (encoded pixel false))
    × Holds [] false (capture 10 none switching).0
capture-newest_example =
    capture-newest 10 none raw_burst delta_burst (idr_burst ∷ []) switching raw-IsBurst refl
      (idr-IsBurst, (delta-IsBurst, tt)) refl refl

abbrev hung_up : Socket
hung_up = record { bytes = []; closed = true }

serve-stuck_example :
    (serve ((1000, hung_up) ∷ (3000, hung_up) ∷ (9000, hung_up) ∷ []) (bridge hung_up)).respawns ≡ 0
unfolding demux
serve-stuck_example =
    serve-stuck ((1000, hung_up) ∷ (3000, hung_up) ∷ (9000, hung_up) ∷ []) hung_up (bridge hung_up)
      refl refl refl (refl, (refl, (refl, tt)))
