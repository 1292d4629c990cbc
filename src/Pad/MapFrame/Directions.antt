-- ===== src/Pad/MapFrame/Directions.antt =====
-- The four directions: from their tests to the half byte of the report, and back to their bits.
use couchlink.Base.{ℕ, ◌<◌, ◌≡◌, refl, arith, Bool, true, false, ◌&&◌, if◌then◌else◌, bit_or, max}
use couchlink.Base.Digits.{digit-zero, digit-multiple, digit, digit-bit_or}
use couchlink.Pad.Buttons.{dpad_left, dpad_down, dpad_right, dpad_up, press_dpad}
use couchlink.Pad.MapFrame.{nibble_of}

-- The bits that a direction sets.
abbrev pub dpad_bits : (up down left right : Bool) → ℕ
dpad_bits true false false false = dpad_up
dpad_bits true false false true = bit_or dpad_up dpad_right
dpad_bits false false false true = dpad_right
dpad_bits false true false true = bit_or dpad_down dpad_right
dpad_bits false true false false = dpad_down
dpad_bits false true true false = bit_or dpad_down dpad_left
dpad_bits false false true false = dpad_left
dpad_bits true false true false = bit_or dpad_up dpad_left
dpad_bits u d l r = 0

pub dpad-sets :
    (u d l r : Bool) (x k : ℕ)
    → digit (press_dpad (nibble_of u d l r) x) k ≡ max (digit x k) (digit (dpad_bits u d l r) k)
unfolding press_dpad
dpad-sets true false false false x k = digit-bit_or x dpad_up k
dpad-sets true false false true x k = digit-bit_or x (bit_or dpad_up dpad_right) k
dpad-sets false false false true x k = digit-bit_or x dpad_right k
dpad-sets false true false true x k = digit-bit_or x (bit_or dpad_down dpad_right) k
dpad-sets false true false false x k = digit-bit_or x dpad_down k
dpad-sets false true true false x k = digit-bit_or x (bit_or dpad_down dpad_left) k
dpad-sets false false true false x k = digit-bit_or x dpad_left k
dpad-sets true false true false x k = digit-bit_or x (bit_or dpad_up dpad_left) k
dpad-sets u d l r x k = omega (arith, digit-zero k)

pub dpad_bits-low : (u d l r : Bool) (k : ℕ) → k < 16 → digit (dpad_bits u d l r) k ≡ 0
dpad_bits-low true false false false k lt = digit-multiple 16 1 k lt
dpad_bits-low true false false true k lt = digit-multiple 16 9 k lt
dpad_bits-low false false false true k lt = digit-multiple 16 8 k lt
dpad_bits-low false true false true k lt = digit-multiple 16 10 k lt
dpad_bits-low false true false false k lt = digit-multiple 16 2 k lt
dpad_bits-low false true true false k lt = digit-multiple 16 6 k lt
dpad_bits-low false false true false k lt = digit-multiple 16 4 k lt
dpad_bits-low true false true false k lt = digit-multiple 16 5 k lt
dpad_bits-low u d l r k lt = digit-zero k

pub nibble_of-lt : (u d l r : Bool) → nibble_of u d l r < 9
nibble_of-lt true false false false = omega arith
nibble_of-lt true false false true = omega arith
nibble_of-lt false false false true = omega arith
nibble_of-lt false true false true = omega arith
nibble_of-lt false true false false = omega arith
nibble_of-lt false true true false = omega arith
nibble_of-lt false false true false = omega arith
nibble_of-lt true false true false = omega arith
nibble_of-lt u d l r = omega arith

-- The directions as digits, when no two are opposite.
pub dpad_bits-digits :
    (u d l r : Bool)
    → (u && d) ≡ false
    → (l && r) ≡ false
    → (digit (dpad_bits u d l r) 16 ≡ (if u then 1 else 0))
      × (digit (dpad_bits u d l r) 17 ≡ (if d then 1 else 0))
      × (digit (dpad_bits u d l r) 18 ≡ (if l then 1 else 0))
      × (digit (dpad_bits u d l r) 19 ≡ (if r then 1 else 0))
unfolding digit
dpad_bits-digits true true l r p q = cc
dpad_bits-digits u d true true p q = cc
dpad_bits-digits true false false false p q = (refl, refl, refl, refl)
dpad_bits-digits true false false true p q = (refl, refl, refl, refl)
dpad_bits-digits true false true false p q = (refl, refl, refl, refl)
dpad_bits-digits false true false false p q = (refl, refl, refl, refl)
dpad_bits-digits false true false true p q = (refl, refl, refl, refl)
dpad_bits-digits false true true false p q = (refl, refl, refl, refl)
dpad_bits-digits false false false false p q = (refl, refl, refl, refl)
dpad_bits-digits false false false true p q = (refl, refl, refl, refl)
dpad_bits-digits false false true false p q = (refl, refl, refl, refl)
