-- ===== src/Pad/ParseSwitch.antt =====
-- crates/pad/src/parse_switch.rs: the full input reports of Switch controllers.
use couchlink.Base.{
  refl, arith, ℕ, ◌+◌, ◌*◌, ◌/◌, ◌%◌, ◌^◌, ◌<◌, ◌≡◌, List, [], ◌∷◌, Option, none, some, ltb, ◌==◌,
  not, ◌||◌, if◌then◌else◌, length, get_or, bit_and, bit_or,
}
use couchlink.Proto.Buffer.{Bytes}
use couchlink.Proto.PadFrame.{PadFrame}
use couchlink.Base.Digits.{bit_or-disjoint}
use couchlink.Pad.Buttons.Digits.{bit_and-15}
use couchlink.Pad.Buttons.{
  press_all, controls, cross, circle, square, triangle, l1, r1, create, options, l2, r2, l3, r3, ps,
  dpad_up, dpad_down, dpad_left, dpad_right,
}

abbrev pub switch_report_id : ℕ
switch_report_id = 0x30

abbrev pub min_len : ℕ
min_len = 13

-- The axes x and y of three bytes.
unfoldable pub packed_stick : (b0 b1 b2 : ℕ) → ℕ × ℕ
packed_stick b0 b1 b2 =
    (bit_or b0 (bit_and b1 0x0F * 2 ^ 8) / 16 % 256, bit_or (b1 / 16) (b2 * 2 ^ 4) / 16 % 256)

-- The shift of the low half of `y` to the left keeps within a byte.
unfoldable pub pack_stick : (x y : ℕ) → ℕ × ℕ × ℕ
pack_stick x y =
    (x % 256, bit_or (bit_and (x / 256 % 256) 0x0F) (bit_and y 0x0F % 256 * 2 ^ 4), y / 16 % 256)

abbrev pub switch_rows : (b3 b4 b5 : ℕ) → List (ℕ × ℕ × ℕ)
switch_rows b3 b4 b5 =
    (b3, 0x01, triangle)
    ∷ (b3, 0x02, square)
    ∷ (b3, 0x04, circle)
    ∷ (b3, 0x08, cross)
    ∷ (b3, 0x40, r1)
    ∷ (b3, 0x80, r2)
    ∷ (b5, 0x40, l1)
    ∷ (b5, 0x80, l2)
    ∷ (b4, 0x01, create)
    ∷ (b4, 0x02, options)
    ∷ (b4, 0x04, r3)
    ∷ (b4, 0x08, l3)
    ∷ (b4, 0x10, ps)
    ∷ (b5, 0x01, dpad_down)
    ∷ (b5, 0x02, dpad_up)
    ∷ (b5, 0x04, dpad_right)
    ∷ (b5, 0x08, dpad_left)
    ∷ []

unfoldable pub switch_frame : Bytes → PadFrame
unfolding packed_stick
switch_frame raw =
    let (lx, ly) = packed_stick (get_or raw 6 0) (get_or raw 7 0) (get_or raw 8 0) in
    let (rx, ry) = packed_stick (get_or raw 9 0) (get_or raw 10 0) (get_or raw 11 0) in
    controls (press_all (switch_rows (get_or raw 3 0) (get_or raw 4 0) (get_or raw 5 0)) 0) lx ly rx
      ry 0 0

unfoldable pub parse_switch_input_report : Bytes → Option PadFrame
parse_switch_input_report raw =
    if ltb (length raw) min_len || not (get_or raw 0 0 == switch_report_id)
    then none
    else some (switch_frame raw)

-- The byte that the two axes share.
shared_byte :
    (x y : ℕ)
    → x < 4096
    → bit_or (bit_and (x / 256 % 256) 0x0F) (bit_and y 0x0F % 256 * 2 ^ 4) ≡ x / 256 + y % 16 * 16
shared_byte x y lx =
    let high : bit_and (x / 256 % 256) 0x0F ≡ x / 256 = omega (arith, bit_and-15 (x / 256 % 256)) in
    let low : bit_and y 0x0F % 256 ≡ y % 16 = omega (arith, bit_and-15 y) in
    rw (high, low) (bit_or-disjoint 4 (x / 256) (y % 16) (omega arith))

unpacked :
    (x y b1 : ℕ)
    → x < 4096
    → y < 4096
    → b1 ≡ x / 256 + y % 16 * 16
    → packed_stick (x % 256) b1 (y / 16 % 256) ≡ (x / 16, y / 16)
unfolding packed_stick
unpacked x y b1 lx ly e =
    let low : bit_and b1 0x0F ≡ x / 256 = omega (arith, bit_and-15 b1) in
    let high : b1 / 16 ≡ y % 16 = omega arith in
    rw (low, high)
      (both (omega (arith, bit_or-disjoint 8 (x % 256) (x / 256) (omega arith)))
        (omega (arith, bit_or-disjoint 4 (y % 16) (y / 16 % 256) (omega arith))))
  where
    both : {a b c d : ℕ} → a ≡ b → c ≡ d → ◌≡◌ {A = ℕ × ℕ} (a, c) (b, d)
    both p q = rw (p, q) refl

-- Two axes of twelve bits, packed as the controller packs them, are read back as their upper eight bits.
pub packed_stick-pack_stick :
    (x y : ℕ)
    → x < 4096
    → y < 4096
    → (let (b0, b1, b2) = pack_stick x y in packed_stick b0 b1 b2) ≡ (x / 16, y / 16)
unfolding pack_stick
packed_stick-pack_stick x y lx ly = unpacked x y _ lx ly (shared_byte x y lx)
