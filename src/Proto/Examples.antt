-- ===== src/Proto/Examples.antt =====
-- Concrete frames, access units and responses.
use couchlink.Base.{
  zero, suc, suc, drop, take, ℕ, ◌≡◌, ◌≢◌, ◌+◌, ◌≤◌, ◌++◌, refl, arith, List, [], ◌∷◌, some, true,
  false, All, map, length, inl, inr, replicate,
}
use couchlink.Proto.VideoFrame.AnnexB.{annex_b_is_keyframe}
use couchlink.Proto.VideoFrame.AnnexB.Streams.{Nal, stream, any_idr, annex_b_is_keyframe-stream}
use couchlink.Proto.Buffer.{Bytes, IsByte, plain_buffer, ok}
use couchlink.Proto.PadFrame
use couchlink.Proto.PadFrame.{PadFrame, IsPadFrame}
use couchlink.Proto.PadFrame.RoundTrip.{decode-encode_pad}
use couchlink.Proto.VideoFrame
use couchlink.Proto.VideoFrame.{VideoAccessUnit, VideoFragment, IsVideoFragment}
use couchlink.Proto.VideoFrame.Wire
use couchlink.Proto.VideoFrame.Wire.{decode-encode, decode-verdict}
use couchlink.Proto.VideoFrame.Send.{
  parity_fragment, encode_fragments_impl, data_fragment, chunks, chunks_fuel,
}
use couchlink.Proto.VideoFrame.Assembler.{default}
use couchlink.Proto.VideoFrame.Cutting.{pieces, IsSendable}
use couchlink.Proto.VideoFrame.Delivery.{Ready, IsFragment, piece, parity}
use couchlink.Proto.VideoFrame.Loss.{received, Delivered, received_survives_loss}
use couchlink.Proto.VideoFrame.Sent.{IsAccessUnit, fragments, the_parity}
use couchlink.Proto.VideoFrame.EndToEnd.{without, received-without, decode-sent}
use couchlink.Proto.Stun.{
  SocketAddr, parse_binding_response, attributes, decode_address, done, binding_success,
  cookie_bytes, u16_at,
}
use couchlink.Proto.Stun.Answers.{
  response, plain_attribute, xor_attribute, parse_binding_response-IsDone,
  parse_binding_response-echo, IsDone,
}

abbrev frame : PadFrame
frame = record {
  seq = 7;
  buttons = 0x10002;
  lx = 128;
  ly = 0;
  rx = 255;
  ry = 128;
  l2 = 3;
  r2 = 4;
  gx = 65535;
  gy = 1;
  gz = 2;
  touch_active = 1;
  touch_x = 1919;
  touch_y = 1079;
  client_ts_ms = 123_456;
}

frame-IsPadFrame : IsPadFrame frame
frame-IsPadFrame = ground arith

-- A frame of version 1: 31 bytes.
abbrev first_version : Bytes
first_version = b'C' ∷ b'L' ∷ b'P' ∷ b'D' ∷ 1 ∷ replicate 26 255

abbrev full_frame : PadFrame
full_frame = record {
  seq = 0xFFFF_FFFF;
  buttons = 0xFFFF_FFFF;
  lx = 255;
  ly = 255;
  rx = 255;
  ry = 255;
  l2 = 255;
  r2 = 255;
  gx = 65535;
  gy = 65535;
  gz = 65535;
  touch_active = 255;
  touch_x = 65535;
  touch_y = 65535;
  client_ts_ms = 0;
}

first_version-bytes : All IsByte first_version
first_version-bytes = ground arith

first_version-decoded : PadFrame.decode plain_buffer first_version ≡ ok full_frame
unfolding PadFrame.decode PadFrame.decode_tail
first_version-decoded = refl

-- An access unit of five bytes, which a payload limit of two cuts into three pieces.
abbrev unit : VideoAccessUnit
unit = record {
  seq = 4;
  width = 1280;
  height = 720;
  keyframe = true;
  annex_b = 1 ∷ 2 ∷ 3 ∷ 4 ∷ 5 ∷ [];
  stamp_us = 1000;
  input_wm = 2;
}

unit-pieces : length (pieces 2 unit) ≡ 3
unfolding pieces chunks chunks_fuel
unit-pieces = refl

unit-IsSendable : IsSendable 2 unit
unit-IsSendable = record {
  positive = omega arith;
  narrow = omega arith;
  small = omega (arith, unit-pieces);
}

unit-IsAccessUnit : IsAccessUnit unit
unit-IsAccessUnit = ground arith

default-Ready : Ready 2 unit default
unfolding default
default-Ready = inl refl

received-without_example :
    (rest : List VideoAccessUnit) × (received 2 default (without 1 (fragments 2 unit true))
      ≡ unit ∷ rest)
received-without_example =
    received-without 2 unit unit-IsSendable default 1 default-Ready (omega (arith, unit-pieces))
      (omega (arith, unit-pieces))

decode-sent_example :
    map (VideoFrame.decode plain_buffer) (encode_fragments_impl plain_buffer 2 true unit)
    ≡ map ok (fragments 2 unit true)
decode-sent_example = decode-sent 2 unit unit-IsSendable plain_buffer true unit-IsAccessUnit

abbrev fragment : VideoFragment
fragment = record {
  seq = 4;
  width = 1280;
  height = 720;
  keyframe = true;
  frag_idx = 1;
  frag_count = 3;
  stamp_us = 1000;
  input_wm = 2;
  payload = 3 ∷ 4 ∷ [];
}

fragment-IsVideoFragment : IsVideoFragment fragment
fragment-IsVideoFragment = ground arith

decode-verdict_example :
    Wire.outcome (VideoFrame.decode plain_buffer (b'C' ∷ b'L' ∷ b'V' ∷ b'D' ∷ replicate 26 2))
    ≡ Wire.verdict (b'C' ∷ b'L' ∷ b'V' ∷ b'D' ∷ replicate 26 2)
decode-verdict_example = decode-verdict plain_buffer (b'C' ∷ b'L' ∷ b'V' ∷ b'D' ∷ replicate 26 2)

abbrev tx : Bytes
tx = 1 ∷ 2 ∷ 3 ∷ 4 ∷ 5 ∷ 6 ∷ 7 ∷ 8 ∷ 9 ∷ 10 ∷ 11 ∷ 12 ∷ []

abbrev answer : Bytes
answer =
    response tx
      (plain_attribute (10 ∷ 0 ∷ 0 ∷ 1 ∷ []) 99 ++ xor_attribute (203 ∷ 0 ∷ 113 ∷ 5 ∷ []) 51820)

abbrev endpoint : SocketAddr
endpoint = record { ip = 203 ∷ 0 ∷ 113 ∷ 5 ∷ []; port = 51820 }

answer-parsed : parse_binding_response tx answer ≡ done (some endpoint)
unfolding parse_binding_response attributes decode_address
answer-parsed = refl

parse_binding_response-IsDone_example : IsDone (parse_binding_response tx answer)
parse_binding_response-IsDone_example = parse_binding_response-IsDone tx answer

parse_binding_response-echo_example :
    (20 + u16_at answer 2 ≤ length answer)
    × (u16_at answer 0 ≡ binding_success)
    × (take 4 (drop 4 answer) ≡ cookie_bytes)
    × (take 12 (drop 8 answer) ≡ tx)
parse_binding_response-echo_example = parse_binding_response-echo tx answer endpoint answer-parsed

-- The second piece is lost, and the others come in another order.
abbrev shuffled : List VideoFragment
shuffled =
    the_parity 2 unit ∷ data_fragment unit 3 2 (5 ∷ []) ∷ data_fragment unit 3 0 (1 ∷ 2 ∷ []) ∷ []

shuffled-IsFragment : All (IsFragment 2 unit) shuffled
unfolding pieces chunks chunks_fuel
shuffled-IsFragment =
    (parity refl, (piece 2 (5 ∷ []) refl refl, (piece 0 (1 ∷ 2 ∷ []) refl refl, tt)))

shuffled-Delivered : (j : ℕ) → j ≤ length (pieces 2 unit) → j ≢ 1 → Delivered j shuffled
unfolding pieces chunks chunks_fuel data_fragment parity_fragment
shuffled-Delivered zero le ne = inr (inr (inl refl))
shuffled-Delivered (suc zero) le ne = absurd (ne refl)
shuffled-Delivered (suc (suc zero)) le ne = inr (inl refl)
shuffled-Delivered (suc (suc (suc zero))) le ne = inl refl
shuffled-Delivered (suc (suc (suc (suc j)))) le ne = absurd (omega (arith, unit-pieces))

received_survives_loss_example :
    (rest : List VideoAccessUnit) × (received 2 default shuffled ≡ unit ∷ rest)
received_survives_loss_example =
    received_survives_loss 2 unit unit-IsSendable shuffled default 1 default-Ready
      shuffled-IsFragment (omega (arith, unit-pieces)) shuffled-Delivered

-- A parameter set and an IDR slice.
abbrev two_units : List Nal
two_units =
    record { is_long = true; header = 0x67; payload = 0x42 ∷ 0 ∷ 0x1F ∷ [] }
    ∷ record { is_long = false; header = 0x65; payload = 0x88 ∷ 0x84 ∷ [] }
    ∷ []

annex_b_is_keyframe-stream_example : annex_b_is_keyframe (stream two_units) ≡ any_idr two_units
annex_b_is_keyframe-stream_example = annex_b_is_keyframe-stream two_units refl

full_frame-IsPadFrame : IsPadFrame full_frame
full_frame-IsPadFrame = ground arith

decode-encode_pad_example :
    PadFrame.decode plain_buffer (PadFrame.encode plain_buffer full_frame [] ++ 9 ∷ [])
    ≡ ok full_frame
decode-encode_pad_example = decode-encode_pad plain_buffer full_frame (9 ∷ []) full_frame-IsPadFrame
