-- ===== src/Capture/Wire.antt =====
-- crates/capture-bridge/src/lib.rs and src/audio.rs: the frames that cross the capture socket, of video and of
-- audio, and the commands that go back. A reader is the bytes that it has yet to give; a read past their
-- end fails.
pub mod RoundTrip
pub mod Buffered
use couchlink.Base.{
  ℕ, zero, suc, ◌+◌, ◌*◌, ◌%◌, ◌^◌, List, [], ◌∷◌, ◌++◌, Option, none, some, Bool, true, false, not,
  ◌&&◌, ◌||◌, ltb, leb, ◌==◌, if◌then◌else◌, length, get_or, take, drop, bytes_eq,
}
use couchlink.Proto.Buffer.{Bytes, le_bytes}
use couchlink.Host.LinkGov.{EncodeTarget}

abbrev pub frame_magic : Bytes
frame_magic = b'C' ∷ b'L' ∷ b'F' ∷ b'2' ∷ []

abbrev pub audio_magic : Bytes
audio_magic = b'C' ∷ b'L' ∷ b'A' ∷ b'1' ∷ []

-- Not an `abbrev`: nothing below computes with these numbers.
unfoldable pub max_payload : ℕ
max_payload = 64 * 1024 * 1024

unfoldable pub max_opus : ℕ
max_opus = 64 * 1024

abbrev pub request_idr : ℕ
request_idr = b'I'

abbrev pub expedite : ℕ
expedite = b'X'

abbrev pub set_target : ℕ
set_target = b'T'

pub data FrameFormat : Type 0 where
  bgra h264 : FrameFormat

abbrev pub is_bgra : FrameFormat → Bool
is_bgra bgra = true
is_bgra h264 = false

abbrev pub same_format : FrameFormat → FrameFormat → Bool
same_format bgra f = is_bgra f
same_format h264 f = not (is_bgra f)

abbrev pub as_byte : FrameFormat → ℕ
as_byte bgra = 0
as_byte h264 = 1

abbrev pub from_byte : ℕ → Option FrameFormat
from_byte zero = some bgra
from_byte (suc zero) = some h264
from_byte (suc (suc b)) = none

pub record FrameInfo : Type 0 where
  pub width : ℕ
  pub height : ℕ
  pub format : FrameFormat
  pub keyframe : Bool

pub record AudioFrame : Type 0 where
  pub seq : ℕ
  pub sample_rate : ℕ
  pub channels : ℕ
  pub opus : Bytes

-- Why a read fails: the stream, or what it says.
pub data ReadError : Type 0 where
  io bad_magic bgra_size : ReadError
  unknown_format bad_payload_size bad_opus_size : ℕ → ReadError

-- What is read, and what the reader has left.
pub data Read (A : Type 0) : Type 0 where
  done : A → Bytes → Read A
  failed : ReadError → Read A

infixl 5 ◌>>=◌
abbrev pub ◌>>=◌ : {A B : Type 0} → Read A → (A → Bytes → Read B) → Read B
done a rest >>= f = f a rest
failed e >>= f = failed e

unfoldable pub read_exact : ℕ → Bytes → Read Bytes
read_exact n r = if leb n (length r) then done (take n r) (drop n r) else failed io

-- `u32::from_le_bytes` of the four bytes from `i` on
abbrev pub u32_at : Bytes → ℕ → ℕ
u32_at b i =
    get_or b i 0
    + get_or b (i + 1) 0 * 256
    + get_or b (i + 2) 0 * 65536
    + get_or b (i + 3) 0 * 0x100_0000

-- `width as usize * height as usize * 4`, as a release build computes it.
abbrev pub bgra_len : ℕ → ℕ → ℕ
bgra_len width height = width * height * 4 % 2 ^ 64

-- The tests of the header, and the payload behind it.
unfoldable pub read_payload : FrameInfo → ℕ → Bytes → Read (FrameInfo × Bytes)
read_payload info len r =
    if len == 0 || ltb max_payload len
    then failed (bad_payload_size len)
    else if is_bgra info.format && not (len == bgra_len info.width info.height)
    then failed bgra_size
    else read_exact len r >>= λ buf rest. done (info, buf) rest

abbrev pub odd : ℕ → Bool
odd b = b % 2 == 1

unfoldable pub read_head : Bytes → Bytes → Read (FrameInfo × Bytes)
read_head head r = elim (from_byte (get_or head 0 0)) [
  | none ↦ failed (unknown_format (get_or head 0 0))
  | some format ↦
      read_payload
        (record {
          width = u32_at head 2;
          height = u32_at head 6;
          format = format;
          keyframe = odd (get_or head 1 0);
        })
        (u32_at head 10) r
]

unfoldable pub read_frame_body_sync : Bytes → Read (FrameInfo × Bytes)
read_frame_body_sync r = read_exact 14 r >>= λ head rest. read_head head rest

unfoldable pub read_frame_sync : Bytes → Read (FrameInfo × Bytes)
read_frame_sync r = read_exact 4 r >>= λ magic rest.
    (if not (bytes_eq magic frame_magic) then failed bad_magic else read_frame_body_sync rest)

abbrev pub bit_of : Bool → ℕ
bit_of true = 1
bit_of false = 0

-- What the writer appends to the stream.
unfoldable pub write_frame_with_format : FrameInfo → Bytes → Bytes
write_frame_with_format info payload =
    frame_magic
    ++ (as_byte info.format ∷ bit_of info.keyframe ∷ [])
    ++ le_bytes 4 info.width
    ++ le_bytes 4 info.height
    ++ le_bytes 4 (length payload)
    ++ payload

unfoldable pub read_audio_head : Bytes → Bytes → Read AudioFrame
read_audio_head head r =
    let len = u32_at head 9 in
    if ltb max_opus len
    then failed (bad_opus_size len)
    else read_exact len r >>= λ opus rest.
        (done
          (record {
            seq = u32_at head 0;
            sample_rate = u32_at head 4;
            channels = get_or head 8 0;
            opus = opus;
          })
          rest)

unfoldable pub read_audio_body : Bytes → Read AudioFrame
read_audio_body r = read_exact 13 r >>= λ head rest. read_audio_head head rest

unfoldable pub read_audio_frame : Bytes → Read AudioFrame
read_audio_frame r = read_exact 4 r >>= λ magic rest.
    (if not (bytes_eq magic audio_magic) then failed bad_magic else read_audio_body rest)

-- What `try_read_audio_frame` refuses.
pub data AudioError : Type 0 where
  truncated_header truncated_payload : AudioError
  invalid_opus_size : ℕ → AudioError

-- Its answer: a packet and the number of its bytes, no audio, or an error.
pub data Tried : Type 0 where
  tried : Option (AudioFrame × ℕ) → Tried
  refused : AudioError → Tried

unfoldable pub try_read_audio_frame : Bytes → Tried
try_read_audio_frame buf =
    let len = u32_at buf 13 in
    if ltb (length buf) 4
    then tried none
    else if not (bytes_eq (take 4 buf) audio_magic)
    then tried none
    else if ltb (length buf) 17
    then refused truncated_header
    else if ltb max_opus len
    then refused (invalid_opus_size len)
    else if ltb (length buf) (17 + len)
    then refused truncated_payload
    else tried (
        some (
          record {
            seq = u32_at buf 4;
            sample_rate = u32_at buf 8;
            channels = get_or buf 12 0;
            opus = take len (drop 17 buf);
          },
          17 + len,
        ))

-- `none` is the refusal of a packet that is too large.
unfoldable pub write_audio_frame : AudioFrame → Option Bytes
write_audio_frame f =
    if ltb max_opus (length f.opus)
    then none
    else some (
        audio_magic
        ++ le_bytes 4 f.seq
        ++ le_bytes 4 f.sample_rate
        ++ (f.channels ∷ [])
        ++ le_bytes 4 (length f.opus)
        ++ f.opus)

unfoldable pub write_set_target : EncodeTarget → Bytes
write_set_target t =
    set_target ∷ le_bytes 4 t.width
    ++ le_bytes 4 t.height
    ++ le_bytes 4 t.fps
    ++ le_bytes 4 t.bitrate_kbps
