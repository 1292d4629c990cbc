-- ===== src/Capture/Examples.antt =====
-- Concrete plans of the encoder, a stream and a window.
use couchlink.Base.{◌%◌, ◌≤◌, ◌≡◌, refl, arith, List, [], ◌∷◌, ◌++◌, some, true}
use couchlink.Proto.Buffer.{Bytes}
use couchlink.Proto.VideoFrame.AnnexB.{annex_b_is_keyframe}
use couchlink.Proto.VideoFrame.AnnexB.Streams.{Nal, stream, any_idr}
use couchlink.Capture.Avcc.{avcc, avcc_to_annex_b, avcc_to_annex_b-avcc}
use couchlink.Capture.Wire.{
  AudioFrame, max_opus, tried, try_read_audio_frame, read_audio_frame, audio_magic,
}
use couchlink.Capture.Wire.Buffered.{taken, try_read_audio_frame-read}
use couchlink.Capture.Fit.{fit, fit_bounds}
use couchlink.Capture.EncodeTarget.{Target, fallback_after_failed_build}

abbrev running : Target
running = (60, 10_000)

abbrev lower : Target
lower = (60, 8_000)

abbrev refused : Target
refused = (30, 4_000)

fell_back : fallback_after_failed_build refused (some running) ≡ some running
unfolding fallback_after_failed_build
fell_back = refl

-- A parameter set and an IDR slice.
abbrev units : List Nal
units =
    record { header = 0x67; payload = 66 ∷ 1 ∷ []; is_long = true }
    ∷ record { header = 0x65; payload = 128 ∷ 3 ∷ 7 ∷ []; is_long = true }
    ∷ []

avcc_to_annex_b-avcc_example :
    (avcc_to_annex_b (avcc units) ≡ some (stream units))
    × (annex_b_is_keyframe (stream units) ≡ any_idr units)
avcc_to_annex_b-avcc_example =
    avcc_to_annex_b-avcc units ((omega arith, refl), ((omega arith, refl), tt)) refl

fit_bounds_example :
    (2 ≤ (fit 2561 1441 1280 800).0)
    × ((fit 2561 1441 1280 800).0 ≤ 1280)
    × ((fit 2561 1441 1280 800).0 % 2 ≡ 0)
    × (2 ≤ (fit 2561 1441 1280 800).1)
    × ((fit 2561 1441 1280 800).1 ≤ 800)
    × ((fit 2561 1441 1280 800).1 % 2 ≡ 0)
fit_bounds_example =
    fit_bounds 2561 1441 1280 800 (omega arith, omega arith) (omega arith, omega arith)
      (omega arith, omega arith) (omega arith, omega arith)

fitted : fit 2561 1441 1280 800 ≡ (1280, 720)
unfolding fit
fitted = refl

-- A packet of two bytes, and a byte behind it.
abbrev buffered : Bytes
buffered =
    audio_magic ++ 7 ∷ 0 ∷ 0 ∷ 0 ∷ 128 ∷ 187 ∷ 0 ∷ 0 ∷ 2 ∷ 2 ∷ 0 ∷ 0 ∷ 0 ∷ 252 ∷ 255 ∷ 67 ∷ []

try_read_audio_frame-read_example :
    try_read_audio_frame buffered ≡ taken buffered (read_audio_frame buffered)
try_read_audio_frame-read_example = try_read_audio_frame-read buffered

abbrev packet : AudioFrame
packet = record { seq = 7; sample_rate = 48000; channels = 2; opus = 252 ∷ 255 ∷ [] }

packet_of_nineteen : try_read_audio_frame buffered ≡ tried (some (packet, 19))
unfolding try_read_audio_frame max_opus
packet_of_nineteen = refl
