-- ===== src/Proto/PadFrame.antt =====
-- crates/proto/src/pad_frame.rs: the binary pad protocol `CLPD`.
pub mod RoundTrip
use couchlink.Base.{
  ℕ, suc, ◌+◌, ◌<◌, ◌≤◌, ◌≡◌, arith, List, [], ◌∷◌, ◌++◌, Option, none, some, ltb, ◌==◌, bytes_eq,
  not, if◌then◌else◌, length,
}
use couchlink.Proto.Buffer.{Bytes, Buffer, ◌⨾◌, Decoded, ok, err, panic, ◌>>=◌}

abbrev pub pad_magic : Bytes
pad_magic = b'C' ∷ b'L' ∷ b'P' ∷ b'D' ∷ []

abbrev pub pad_version : ℕ
pad_version = 1

abbrev pub pad_version_v2 : ℕ
pad_version_v2 = 2

abbrev pub pad_frame_len : ℕ
pad_frame_len = 31

abbrev pub pad_frame_len_v2 : ℕ
pad_frame_len_v2 = 35

pub data PadCodecError : Type 0 where
  short bad_magic : PadCodecError
  bad_version : ℕ → PadCodecError

-- `gx`, `gy` and `gz` are the bit patterns of the signed words.
pub record PadFrame : Type 0 where
  pub seq : ℕ
  pub buttons : ℕ
  pub lx : ℕ
  pub ly : ℕ
  pub rx : ℕ
  pub ry : ℕ
  pub l2 : ℕ
  pub r2 : ℕ
  pub gx : ℕ
  pub gy : ℕ
  pub gz : ℕ
  pub touch_active : ℕ
  pub touch_x : ℕ
  pub touch_y : ℕ
  pub client_ts_ms : ℕ

-- Each field fits the width that the struct gives it.
pub record IsPadFrame (f : PadFrame) : Type 0 where
  pub seq_fits : f.seq < 0x1_0000_0000
  pub buttons_fits : f.buttons < 0x1_0000_0000
  pub lx_fits : f.lx < 256
  pub ly_fits : f.ly < 256
  pub rx_fits : f.rx < 256
  pub ry_fits : f.ry < 256
  pub l2_fits : f.l2 < 256
  pub r2_fits : f.r2 < 256
  pub gx_fits : f.gx < 65536
  pub gy_fits : f.gy < 65536
  pub gz_fits : f.gz < 65536
  pub touch_active_fits : f.touch_active < 256
  pub touch_x_fits : f.touch_x < 65536
  pub touch_y_fits : f.touch_y < 65536
  pub client_ts_ms_fits : f.client_ts_ms < 0x1_0000_0000

unfoldable pub neutral : PadFrame
neutral = record {
  seq = 0;
  buttons = 0;
  lx = 128;
  ly = 128;
  rx = 128;
  ry = 128;
  l2 = 0;
  r2 = 0;
  gx = 0;
  gy = 0;
  gz = 0;
  touch_active = 0;
  touch_x = 0;
  touch_y = 0;
  client_ts_ms = 0;
}

module _ (io : Buffer) where
  open io use {
    put_u8, put_u16_le, put_i16_le, put_u32_le, put_slice, get_u8, get_u16_le, get_i16_le,
    get_u32_le, copy_to_slice,
  }

  pub encode : PadFrame → Bytes → Bytes
  encode f =
      put_slice pad_magic
      ⨾ put_u8 pad_version_v2
      ⨾ put_u32_le f.seq
      ⨾ put_u32_le f.buttons
      ⨾ put_u8 f.lx
      ⨾ put_u8 f.ly
      ⨾ put_u8 f.rx
      ⨾ put_u8 f.ry
      ⨾ put_u8 f.l2
      ⨾ put_u8 f.r2
      ⨾ put_i16_le f.gx
      ⨾ put_i16_le f.gy
      ⨾ put_i16_le f.gz
      ⨾ put_u8 f.touch_active
      ⨾ put_u16_le f.touch_x
      ⨾ put_u16_le f.touch_y
      ⨾ put_u8 0
      ⨾ put_u32_le f.client_ts_ms

  -- The tail of `decode`: the match on the version, with what is left of the buffer.
  unfoldable pub decode_tail : ℕ → PadFrame → Bytes → Decoded PadCodecError PadFrame
  decode_tail ver frame buf =
      if ver == pad_version
      then (do (_, _) ← get_u8 buf; ok frame)
      else if ver == pad_version_v2
      then (if ltb (length buf) 5 then err short else do
        (_, buf) ← get_u8 buf
        (ts, _) ← get_u32_le buf
        ok (record frame { client_ts_ms = ts }))
      else err (bad_version ver)

  decode_body : Bytes → Decoded PadCodecError PadFrame
  decode_body buf = do
    (ver, buf) ← get_u8 buf
    (seq, buf) ← get_u32_le buf
    (buttons, buf) ← get_u32_le buf
    (lx, buf) ← get_u8 buf
    (ly, buf) ← get_u8 buf
    (rx, buf) ← get_u8 buf
    (ry, buf) ← get_u8 buf
    (l2, buf) ← get_u8 buf
    (r2, buf) ← get_u8 buf
    (gx, buf) ← get_i16_le buf
    (gy, buf) ← get_i16_le buf
    (gz, buf) ← get_i16_le buf
    (touch_active, buf) ← get_u8 buf
    (touch_x, buf) ← get_u16_le buf
    (touch_y, buf) ← get_u16_le buf
    decode_tail ver
        (record {
          seq = seq;
          buttons = buttons;
          lx = lx;
          ly = ly;
          rx = rx;
          ry = ry;
          l2 = l2;
          r2 = r2;
          gx = gx;
          gy = gy;
          gz = gz;
          touch_active = touch_active;
          touch_x = touch_x;
          touch_y = touch_y;
          client_ts_ms = 0;
        })
        buf

  unfoldable pub decode : Bytes → Decoded PadCodecError PadFrame
  unfolding decode_body
  decode buf = if ltb (length buf) pad_frame_len then err short else do
    (magic, buf) ← copy_to_slice 4 buf
    if not (bytes_eq magic pad_magic) then err bad_magic else decode_body buf
