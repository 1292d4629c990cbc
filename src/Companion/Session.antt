-- ===== src/Companion/Session.antt =====
-- A client's session with the companion: what crates/pad/src/vhid_client.rs writes, and what `serve_tcp` and
-- `serve_duplex` of crates/ds-vhid/src/session.rs make of it. A stream is the bytes that come until it
-- ends.
pub mod Applied
use couchlink.Base.{
  ℕ, zero, suc, ◌+◌, List, [], ◌∷◌, ◌++◌, Option, none, some, Bool, not, ltb, if◌then◌else◌, length,
  take, drop, bytes_eq,
}
use couchlink.Proto.Buffer.{Bytes}
use couchlink.Proto.PadFrame.{PadFrame}
use couchlink.Pad.MapFrame.{pad_frame_to_dualsense_usb_report}
use couchlink.Pad.VhidProto.{
  VhidCodecError, Result, ok, err, encode_slot_hello, decode_slot_hello, encode_input, decode_input,
  dsvh_magic, ds_usb_input_len,
}
use couchlink.Companion.Registry.{SlotRegistry, get_or_create}

-- `VhidClient::apply`: what is written for a frame.
unfoldable pub apply : PadFrame → Bytes
apply frame = encode_input (pad_frame_to_dualsense_usb_report frame)

abbrev pub apply_all : List PadFrame → Bytes
apply_all [] = []
apply_all (f ∷ frames) = apply f ++ apply_all frames

-- All that a client writes: the hello of `connect_tcp`, and its frames.
abbrev pub client_bytes : ℕ → List PadFrame → Bytes
client_bytes slot frames = encode_slot_hello slot ++ apply_all frames

-- How a session ends.
pub data Ended : Type 0 where
  disconnected bad_magic_seen apply_failed : Ended
  not_decoded : VhidCodecError → Ended

-- One round's frame.
abbrev pub frame_len : ℕ
frame_len = 4 + 1 + ds_usb_input_len

-- The loop of `serve_duplex`: the reports that the controller is given, and the end. `takes k` is whether the
-- controller takes its `k`-th report. Each round reads 69 bytes, so as many rounds as there are bytes are
-- enough.
unfoldable pub serve_duplex : ℕ → (ℕ → Bool) → ℕ → Bytes → List Bytes × Ended
serve_duplex zero takes k bytes = ([], disconnected)
serve_duplex (suc n) takes k bytes =
    let rest = serve_duplex n takes (k + 1) (drop frame_len bytes) in
    if ltb (length bytes) frame_len
    then ([], disconnected)
    else if not (bytes_eq (take 4 (take frame_len bytes)) dsvh_magic)
    then ([], bad_magic_seen)
    else elim (decode_input (take frame_len bytes)) [
      | err e ↦ ([], not_decoded e)
      | ok report ↦ if not (takes k) then ([], apply_failed) else (report ∷ rest.0, rest.1)
    ]

-- What becomes of a client.
pub data Served : Type 0 where
  no_hello no_controller : Served
  served : (slot backend : ℕ) (reports : List Bytes) (ended : Ended) → Served

-- `read_slot_hello`: six bytes.
unfoldable pub read_slot_hello : Bytes → Option ℕ
read_slot_hello bytes =
    if ltb (length bytes) 6
    then none
    else elim (decode_slot_hello (take 6 bytes)) [ err e ↦ none | ok slot ↦ some slot ]

unfoldable pub serve_tcp : Option ℕ → (ℕ → Bool) → Bytes → SlotRegistry → SlotRegistry × Served
serve_tcp created takes bytes reg = elim (read_slot_hello bytes) [
  | none ↦ (reg, no_hello)
  | some slot ↦ elim (get_or_create slot created reg).1 [
    | none ↦ ((get_or_create slot created reg).0, no_controller)
    | some backend ↦
        let session = serve_duplex (length bytes) takes 0 (drop 6 bytes) in
        ((get_or_create slot created reg).0, served slot backend session.0 session.1)
  ]
]
