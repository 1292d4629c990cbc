-- ===== src/Pad/MapFrame.antt =====
-- crates/pad/src/map_frame.rs: a pad frame as the input report of a virtual DualSense.
mod Directions
pub mod RoundTrip
use couchlink.Base.{List, ℕ, [], ◌∷◌, Bool, true, false, replicate, min, ◌-◌, ◌*◌}
use couchlink.Proto.Buffer.{Bytes}
use couchlink.Proto.PadFrame.{PadFrame}
use couchlink.Pad.Buttons.{
  r3, l3, options, create, dpad_right, r2, l2, triangle, mute, dpad_left, touch, dpad_down, circle,
  r1, dpad_up, cross, l1, ps, press_all, is_set, square,
}

-- The match of `dpad_nibble` on the tests for up, down, left and right.
abbrev pub nibble_of : (up down left right : Bool) → ℕ
nibble_of true false false false = 0
nibble_of true false false true = 1
nibble_of false false false true = 2
nibble_of false true false true = 3
nibble_of false true false false = 4
nibble_of false true true false = 5
nibble_of false false true false = 6
nibble_of true false true false = 7
nibble_of u d l r = 8

unfoldable pub dpad_nibble : ℕ → ℕ
dpad_nibble b =
    nibble_of (is_set b dpad_up) (is_set b dpad_down) (is_set b dpad_left) (is_set b dpad_right)

abbrev pub low_rows : ℕ → List (ℕ × ℕ × ℕ)
low_rows b = (b, square, 0x10) ∷ (b, cross, 0x20) ∷ (b, circle, 0x40) ∷ (b, triangle, 0x80) ∷ []

abbrev pub high_rows : ℕ → List (ℕ × ℕ × ℕ)
high_rows b =
    (b, l1, 0x01)
    ∷ (b, r1, 0x02)
    ∷ (b, l2, 0x04)
    ∷ (b, r2, 0x08)
    ∷ (b, create, 0x10)
    ∷ (b, options, 0x20)
    ∷ (b, l3, 0x40)
    ∷ (b, r3, 0x80)
    ∷ []

abbrev pub extra_rows : ℕ → List (ℕ × ℕ × ℕ)
extra_rows b = (b, ps, 0x01) ∷ (b, touch, 0x02) ∷ (b, mute, 0x04) ∷ []

-- The bytes 8, 9 and 10 of the report.
unfoldable pub low_buttons : ℕ → ℕ
low_buttons b = press_all (low_rows b) (dpad_nibble b)

unfoldable pub high_buttons : ℕ → ℕ
high_buttons b = press_all (high_rows b) 0

unfoldable pub extra_buttons : ℕ → ℕ
extra_buttons b = press_all (extra_rows b) 0

unfoldable pub pad_frame_to_dualsense_usb_report : PadFrame → Bytes
pad_frame_to_dualsense_usb_report f =
    0x01
    ∷ f.lx
    ∷ f.ly
    ∷ f.rx
    ∷ f.ry
    ∷ f.l2
    ∷ f.r2
    ∷ 0
    ∷ low_buttons f.buttons
    ∷ high_buttons f.buttons
    ∷ extra_buttons f.buttons
    ∷ replicate 53 0
