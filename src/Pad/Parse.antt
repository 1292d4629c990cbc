-- ===== src/Pad/Parse.antt =====
-- crates/pad/src/parse.rs: the input reports of a DualSense over USB and Bluetooth.
use couchlink.Base.{
  List, ℕ, [], ◌∷◌, Option, none, some, ltb, leb, ◌==◌, if◌then◌else◌, length, get_or, drop,
  bit_and,
}
use couchlink.Proto.Buffer.{Bytes}
use couchlink.Proto.PadFrame.{PadFrame}
use couchlink.Pad.Buttons.{
  mute, touch, ps, r3, l3, options, create, r2, l2, r1, l1, triangle, circle, cross, press_all,
  press_dpad, controls, square,
}

abbrev pub input_usb : ℕ
input_usb = 0x01

abbrev pub input_bt : ℕ
input_bt = 0x31

-- Where the body of the report starts; over Bluetooth a tag of 1 may stand before it.
unfoldable pub report_body : Bytes → Option Bytes
report_body [] = none
report_body (b ∷ bs) =
    if b == input_usb
    then some bs
    else if b == input_bt
    then (if ltb (length (b ∷ bs)) 3
        then none
        else some (if get_or bs 0 0 == 1 then drop 1 bs else bs))
    else if leb 9 (length (b ∷ bs))
    then some (b ∷ bs)
    else none

-- The tests on the three bytes of buttons.
abbrev pub report_rows : ℕ → ℕ → ℕ → List (ℕ × ℕ × ℕ)
report_rows l h extra =
    (l, 0x10, square)
    ∷ (l, 0x20, cross)
    ∷ (l, 0x40, circle)
    ∷ (l, 0x80, triangle)
    ∷ (h, 0x01, l1)
    ∷ (h, 0x02, r1)
    ∷ (h, 0x04, l2)
    ∷ (h, 0x08, r2)
    ∷ (h, 0x10, create)
    ∷ (h, 0x20, options)
    ∷ (h, 0x40, l3)
    ∷ (h, 0x80, r3)
    ∷ (extra, 0x01, ps)
    ∷ (extra, 0x02, touch)
    ∷ (extra, 0x04, mute)
    ∷ []

-- They are followed by the match on the direction.
unfoldable pub report_buttons : ℕ → ℕ → ℕ → ℕ
report_buttons l h extra = press_dpad (bit_and l 0x0F) (press_all (report_rows l h extra) 0)

-- The body has at least ten bytes here.
unfoldable pub report_frame : Bytes → PadFrame
report_frame body =
    controls (report_buttons (get_or body 7 0) (get_or body 8 0) (get_or body 9 0))
      (get_or body 0 0) (get_or body 1 0) (get_or body 2 0) (get_or body 3 0) (get_or body 4 0)
      (get_or body 5 0)

abbrev pub frame_of : Option Bytes → Option PadFrame
frame_of none = none
frame_of (some body) = if ltb (length body) 10 then none else some (report_frame body)

unfoldable pub parse_input_report : Bytes → Option PadFrame
parse_input_report raw = frame_of (report_body raw)
