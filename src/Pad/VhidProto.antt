-- ===== src/Pad/VhidProto.antt =====
-- crates/pad/src/vhid_proto.rs: the framing between the host and the Windows companion.
pub mod Frames
use couchlink.Base.{
  ℕ, zero, suc, ◌+◌, ◌*◌, ◌/◌, ◌%◌, arith, List, [], ◌∷◌, ◌++◌, Option, none, some, ltb, ◌==◌, not,
  bytes_eq, if◌then◌else◌, length, get_or, take, drop, min,
}
use couchlink.Proto.Buffer.{Bytes}

abbrev pub dsvh_magic : Bytes
dsvh_magic = b'D' ∷ b'S' ∷ b'V' ∷ b'H' ∷ []

abbrev pub dsvo_magic : Bytes
dsvo_magic = b'D' ∷ b'S' ∷ b'V' ∷ b'O' ∷ []

abbrev pub dsvs_magic : Bytes
dsvs_magic = b'D' ∷ b'S' ∷ b'V' ∷ b'S' ∷ []

abbrev pub vhid_version : ℕ
vhid_version = 1

abbrev pub ds_usb_input_len : ℕ
ds_usb_input_len = 64

pub data VhidCodecError : Type 0 where
  short bad_magic : VhidCodecError
  bad_version : ℕ → VhidCodecError

pub data Result (A : Type 0) : Type 0 where
  ok : A → Result A
  err : VhidCodecError → Result A

unfoldable pub encode_slot_hello : ℕ → Bytes
encode_slot_hello slot = dsvs_magic ++ vhid_version ∷ slot ∷ []

-- An index that the length test has made good is read with `get_or`.
unfoldable pub decode_slot_hello : Bytes → Result ℕ
decode_slot_hello buf =
    if ltb (length buf) 6
    then err short
    else if not (bytes_eq (take 4 buf) dsvs_magic)
    then err bad_magic
    else if not (get_or buf 4 0 == vhid_version)
    then err (bad_version (get_or buf 4 0))
    else ok (get_or buf 5 0)

unfoldable pub encode_input : Bytes → Bytes
encode_input report = dsvh_magic ++ vhid_version ∷ report

unfoldable pub decode_input : Bytes → Result Bytes
decode_input buf =
    if ltb (length buf) (4 + 1 + ds_usb_input_len)
    then err short
    else if not (bytes_eq (take 4 buf) dsvh_magic)
    then err bad_magic
    else if not (get_or buf 4 0 == vhid_version)
    then err (bad_version (get_or buf 4 0))
    else ok (take ds_usb_input_len (drop 5 buf))

unfoldable pub encode_output : Bytes → Bytes
encode_output report =
    let len = min (length report) 65535 in
    dsvo_magic ++ vhid_version ∷ len % 256 ∷ len / 256 ∷ take len report

-- `u16::from_le_bytes([buf[5], buf[6]])`
abbrev pub output_len : Bytes → ℕ
output_len buf = get_or buf 5 0 + get_or buf 6 0 * 256

unfoldable pub decode_output : Bytes → Result Bytes
decode_output buf =
    let len = output_len buf in
    if ltb (length buf) (4 + 1 + 2)
    then err short
    else if not (bytes_eq (take 4 buf) dsvo_magic)
    then err bad_magic
    else if not (get_or buf 4 0 == vhid_version)
    then err (bad_version (get_or buf 4 0))
    else if ltb (length buf) (7 + len)
    then err short
    else ok (take len (drop 7 buf))

-- The buffer that is left, and the frame that was taken from it.
unfoldable pub take_output_frame : Bytes → Bytes × Option Bytes
take_output_frame buf =
    let len = output_len buf in
    if ltb (length buf) 7
    then (buf, none)
    else if not (bytes_eq (take 4 buf) dsvo_magic)
    then (drop 1 buf, none)
    else if not (get_or buf 4 0 == vhid_version)
    then (drop 1 buf, none)
    else if ltb (length buf) (7 + len)
    then (buf, none)
    else (drop (7 + len) buf, some (take len (drop 7 buf)))

-- The `while let` loop of `poll_output` (crates/pad/src/vhid_client.rs): the frames, and the buffer that
-- is left. Each round that goes on takes at least seven bytes, so `length buf` rounds are enough.
unfoldable pub drain : ℕ → Bytes → List Bytes × Bytes
drain zero buf = ([], buf)
drain (suc n) buf =
    let (left, taken) = take_output_frame buf in
    let (frames, rest) = drain n left in
    elim taken [ none ↦ ([], left) | some frame ↦ (frame ∷ frames, rest) ]

-- `poll_output` on an open connection: what came is put behind the buffer, and the frames are taken.
unfoldable pub poll_output : (came rx_buf : Bytes) → List Bytes × Bytes
poll_output came rx_buf = drain (suc (length (rx_buf ++ came))) (rx_buf ++ came)
