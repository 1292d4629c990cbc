-- ===== src/Pad/ParseDs4.antt =====
-- crates/pad/src/parse_ds4.rs: the input reports of a DualShock 4.
use couchlink.Base.{
  List, ℕ, ◌≡◌, ◌≤◌, arith, [], ◌∷◌, Option, none, some, ltb, leb, ◌==◌, if◌then◌else◌, length,
  get_or, drop, bit_and,
}
use couchlink.Proto.Buffer.{Bytes}
use couchlink.Proto.PadFrame.{PadFrame}
use couchlink.Pad.Buttons.{
  controls, press_all, press_dpad, square, cross, circle, triangle, l1, r1, l2, r2, create, options,
  l3, r3, ps, touch,
}

abbrev pub ds4_usb : ℕ
ds4_usb = 0x01

abbrev pub ds4_bt : ℕ
ds4_bt = 0x11

-- The tests on the three bytes of buttons.
abbrev pub ds4_rows : ℕ → ℕ → ℕ → List (ℕ × ℕ × ℕ)
ds4_rows l h x =
    (l, 0x10, square)
    ∷ (l, 0x20, cross)
    ∷ (l, 0x40, circle)
    ∷ (l, 0x80, triangle)
    ∷ (h, 0x01, l1)
    ∷ (h, 0x02, r1)
    ∷ (h, 0x04, l2)
    ∷ (h, 0x08, r2)
    ∷ (h, 0x10, create)
    ∷ (h, 0x20, options)
    ∷ (h, 0x40, l3)
    ∷ (h, 0x80, r3)
    ∷ (x, 0x01, ps)
    ∷ (x, 0x02, touch)
    ∷ []

-- They are followed by the match on the direction.
unfoldable pub ds4_buttons : ℕ → ℕ → ℕ → ℕ
ds4_buttons l h x = press_dpad (bit_and l 0x0F) (press_all (ds4_rows l h x) 0)

-- Where the body of the report starts.
unfoldable pub ds4_body : Bytes → Option Bytes
ds4_body [] = none
ds4_body (b ∷ bs) =
    if b == ds4_usb
    then some bs
    else if b == ds4_bt
    then (if ltb (length (b ∷ bs)) 4 then none else some (drop 3 (b ∷ bs)))
    else if leb 10 (length (b ∷ bs))
    then some (b ∷ bs)
    else none

-- The first six bytes are there; the others are 0 where the body is shorter.
unfoldable pub ds4_frame : Bytes → PadFrame
ds4_frame body =
    controls (ds4_buttons (get_or body 4 0) (get_or body 5 0) (get_or body 6 0)) (get_or body 0 0)
      (get_or body 1 0) (get_or body 2 0) (get_or body 3 0) (get_or body 7 0) (get_or body 8 0)

abbrev pub frame_of : Option Bytes → Option PadFrame
frame_of none = none
frame_of (some body) = if ltb (length body) 6 then none else some (ds4_frame body)

unfoldable pub parse_ds4_input_report : Bytes → Option PadFrame
parse_ds4_input_report raw = frame_of (ds4_body raw)

-- A report over Bluetooth with at least one byte of body is read as the report over USB with the same
-- body: the two bytes after its tag are passed over.
pub parse_ds4_input_report-bluetooth :
    (b0 b1 : ℕ) (body : Bytes)
    → 1 ≤ length body
    → parse_ds4_input_report (ds4_bt ∷ b0 ∷ b1 ∷ body) ≡ parse_ds4_input_report (ds4_usb ∷ body)
unfolding parse_ds4_input_report ds4_body
parse_ds4_input_report-bluetooth b0 b1 body some_body = ground arith
