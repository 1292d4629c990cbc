-- ===== src/Proto/VideoFrame.antt =====
-- crates/proto/src/video_frame.rs: access units and fragments of the `CLVD` video channel.
-- Here are the wire format of one fragment and the data types. `Send` cuts an access unit into
-- fragments and `Assembler` puts it together again.
pub mod Wire
pub mod Send
pub mod Assembler
pub mod Parity
pub mod Cutting
pub mod Complete
pub mod Delivery
pub mod Loss
pub mod Sent
pub mod EndToEnd
pub mod AnnexB
use couchlink.Base.{
  ℕ, suc, ◌+◌, ◌<◌, ◌≤◌, ◌≡◌, ◌≢◌, arith, List, [], ◌∷◌, ◌++◌, Option, none, some, ltb, ◌==◌,
  bytes_eq, not, if◌then◌else◌, length, Bool, true, false, ◌&&◌, ◌||◌, bit_and, bit_or,
}
use couchlink.Proto.Buffer.{Bytes, Buffer, ◌⨾◌, Decoded, ok, err, panic, ◌>>=◌}

abbrev pub video_magic : Bytes
video_magic = b'C' ∷ b'L' ∷ b'V' ∷ b'D' ∷ []

abbrev pub video_version : ℕ
video_version = 3

abbrev pub video_version_v2 : ℕ
video_version_v2 = 2

abbrev pub video_version_v4 : ℕ
video_version_v4 = 4

abbrev pub flag_keyframe : ℕ
flag_keyframe = 1

abbrev pub video_header_len_v2 : ℕ
video_header_len_v2 = 18

abbrev pub video_header_len : ℕ
video_header_len = 26

abbrev pub video_header_len_v4 : ℕ
video_header_len_v4 = 30

-- Not an `abbrev`: nothing below computes with this number.
unfoldable pub video_max_fragment_payload : ℕ
video_max_fragment_payload = 14_000

pub data VideoCodecError : Type 0 where
  short bad_magic bad_fragment : VideoCodecError
  bad_version : ℕ → VideoCodecError

pub record VideoAccessUnit : Type 0 where
  pub seq : ℕ
  pub width : ℕ
  pub height : ℕ
  pub keyframe : Bool
  pub annex_b : Bytes
  pub stamp_us : ℕ
  pub input_wm : ℕ

pub record VideoFragment : Type 0 where
  pub seq : ℕ
  pub width : ℕ
  pub height : ℕ
  pub keyframe : Bool
  pub frag_idx : ℕ
  pub frag_count : ℕ
  pub stamp_us : ℕ
  pub input_wm : ℕ
  pub payload : Bytes

-- Each field fits the width that the struct gives it.
pub record IsVideoFragment (f : VideoFragment) : Type 0 where
  pub seq_fits : f.seq < 0x1_0000_0000
  pub width_fits : f.width < 65536
  pub height_fits : f.height < 65536
  pub frag_idx_fits : f.frag_idx < 65536
  pub frag_count_fits : f.frag_count < 65536
  pub stamp_us_fits : f.stamp_us < 0x1_0000_0000_0000_0000
  pub input_wm_fits : f.input_wm < 0x1_0000_0000

pub wire_version : VideoFragment → ℕ
wire_version f =
    if not (f.input_wm == 0) || not (f.stamp_us == 0) then video_version_v4 else video_version_v2

pub wire_header_len : ℕ → ℕ
wire_header_len ver =
    if ver == video_version_v4
    then video_header_len_v4
    else if ver == video_version
    then video_header_len
    else video_header_len_v2

-- The end of `decode`: the check of the fragment layout, and the fragment.
finish : ℕ → ℕ → ℕ → ℕ → ℕ → ℕ → ℕ → ℕ → Bytes → Decoded VideoCodecError VideoFragment
finish flags width height seq frag_idx frag_count stamp_us input_wm rest =
    if frag_count == 0 || ltb frag_count frag_idx
    then err bad_fragment
    else ok (record {
      seq = seq;
      width = width;
      height = height;
      keyframe = not (bit_and flags flag_keyframe == 0);
      frag_idx = frag_idx;
      frag_count = frag_count;
      stamp_us = stamp_us;
      input_wm = input_wm;
      payload = rest;
    })

module _ (io : Buffer) where
  open io use {
    put_u8, put_u16_le, put_u32_le, put_u64_le, put_slice, get_u8, get_u16_le, get_u32_le,
    get_u64_le, copy_to_slice,
  }

  -- What `encode` writes between the fragment count and the payload.
  encode_stamps : ℕ → VideoFragment → Bytes → Bytes
  encode_stamps ver f out =
      if ver == video_version_v4
      then (put_u64_le f.stamp_us ⨾ put_u32_le f.input_wm) out
      else if ver == video_version
      then put_u64_le f.stamp_us out
      else out

  pub encode : VideoFragment → Bytes → Bytes
  encode f =
      let ver = wire_version f in
      let flags = if f.keyframe then bit_or 0 flag_keyframe else 0 in
      put_slice video_magic
      ⨾ put_u8 ver
      ⨾ put_u8 flags
      ⨾ put_u16_le f.width
      ⨾ put_u16_le f.height
      ⨾ put_u32_le f.seq
      ⨾ put_u16_le f.frag_idx
      ⨾ put_u16_le f.frag_count
      ⨾ encode_stamps ver f
      ⨾ put_slice f.payload

  -- The two optional words of the header, which the version decides, and what is left.
  decode_stamps :
      ℕ
      → Bytes
      → (ℕ → ℕ → Bytes → Decoded VideoCodecError VideoFragment)
      → Decoded VideoCodecError VideoFragment
  decode_stamps ver buf next =
      if ver == video_version_v4
      then (if ltb (length buf) 12 then err short else do
        (stamp_us, buf) ← get_u64_le buf
        (input_wm, buf) ← get_u32_le buf
        next stamp_us input_wm buf)
      else if ver == video_version
      then (if ltb (length buf) 8
          then err short
          else do (stamp_us, buf) ← get_u64_le buf; next stamp_us 0 buf)
      else next 0 0 buf

  decode_fields : ℕ → Bytes → Decoded VideoCodecError VideoFragment
  decode_fields ver buf = do
    (flags, buf) ← get_u8 buf
    (width, buf) ← get_u16_le buf
    (height, buf) ← get_u16_le buf
    (seq, buf) ← get_u32_le buf
    (frag_idx, buf) ← get_u16_le buf
    (frag_count, buf) ← get_u16_le buf
    decode_stamps ver buf (finish flags width height seq frag_idx frag_count)

  check_version : ℕ → Bytes → Decoded VideoCodecError VideoFragment
  check_version ver buf =
      if not (ver == video_version)
        && not (ver == video_version_v2)
        && not (ver == video_version_v4)
      then err (bad_version ver)
      else if ltb (length buf + 5) (wire_header_len ver)
      then err short
      else decode_fields ver buf

  pub decode : Bytes → Decoded VideoCodecError VideoFragment
  decode buf = if ltb (length buf) video_header_len_v2 then err short else do
    (magic, buf) ← copy_to_slice 4 buf
    if not (bytes_eq magic video_magic)
        then err bad_magic
        else do (ver, buf) ← get_u8 buf; check_version ver buf
