-- ===== src/Host/FanOut/Examples.antt =====
-- A player that joins on a congested channel, and whose track works.
use couchlink.Base.{◌≡◌, refl, [], ◌∷◌, true, false, inl, inr}
use couchlink.Proto.Buffer.{Bytes, plain_buffer}
use couchlink.Host.Peer.{WebRtcHost, Link, push_h264, path_unknown}
use couchlink.Host.Peer.Delivery.{Paints, push_h264-Paints}
use couchlink.Host.FanOut.{Seat, in_time, late, push_to_all, push_to_all-delivered}

abbrev joined : WebRtcHost
joined = record {
  video_seq = 7;
  video_w = 1280;
  video_h = 720;
  keyframe_wanted = false;
  coalesced_at = 1000;
  present_path = path_unknown;
  fec_enabled = true;
  trickle = false;
  shed_streak = 3;
  ok_streak = 0;
  last_input_wm = 5;
  webcodecs_since_ms = 0;
}

abbrev congested : Link
congested = record {
  writes = true;
  is_open = true;
  tip_buffered = 9000;
  buffered = λ k. 1_000_000;
  sends = λ k. true;
  expired = λ k. false;
  now_ms = 5000;
  now_us = 5_000_000;
}

abbrev idr : Bytes
idr = 0 ∷ 0 ∷ 0 ∷ 1 ∷ 0x65 ∷ 0xAA ∷ []

push_h264-Paints_example :
    Paints plain_buffer congested idr true joined
      (push_h264 plain_buffer false congested idr true joined)
push_h264-Paints_example = push_h264-Paints plain_buffer false congested idr true joined refl

abbrev stalled : Seat
stalled = record { host = joined; link = congested; budget = late joined }

abbrev healthy : Seat
healthy = record { host = joined; link = congested; budget = in_time }

push_to_all-delivered_example :
    push_to_all plain_buffer false idr true (stalled ∷ healthy ∷ []) ≡ (true, 0)
push_to_all-delivered_example =
    push_to_all-delivered plain_buffer false idr true (stalled ∷ healthy ∷ [])
      (inr (inl (refl, refl)))
