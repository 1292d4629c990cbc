-- ===== src/Pad/Buttons/Digits.antt =====
-- What the parsers' tests do to the single bits of the buttons.
use couchlink.Base.{
  ltb, ◌&&◌, ◌≤◌, ◌/◌, ℕ, zero, suc, ◌+◌, ◌*◌, ◌%◌, ◌^◌, ◌<◌, ◌≡◌, arith, List, [], ◌∷◌, Bool, true,
  not, ◌==◌, if◌then◌else◌, bit_and, bit_or, max, inl, inr, Bool-cases,
}
use native.Mathlib.Nat.{pow-suc}
use couchlink.Base.Digits.{
  empty_mask, digit, digit-lt, digit-bit_or, bit_and-power, bit_or-lt, bit_and_lowest,
}
use couchlink.Pad.Buttons.{is_set, press, press_all}

-- The test of one bit as a digit.
pub set_digit : (a k : ℕ) → (if is_set a (2 ^ k) then 1 else 0) ≡ digit a k
set_digit a k = by_digit (digit a k) (2 ^ k) _ (digit-lt a k) (positive_power k) (bit_and-power a k)
  where
    positive_power : (k : ℕ) → 1 ≤ 2 ^ k
    positive_power zero = omega arith
    positive_power (suc k) = omega (arith, pow-suc 2 k, positive_power k)

    by_digit : (d p x : ℕ) → d < 2 → 1 ≤ p → x ≡ d * p → (if not (x == 0) then 1 else 0) ≡ d
    by_digit zero p x lt pos e = ground arith
    by_digit (suc zero) p x lt pos e = ground arith
    by_digit (suc (suc d)) p x lt pos e = absurd (omega arith)

-- What the rows set of the bit of weight `2 ^ k`.
abbrev pub row_digit : List (ℕ × ℕ × ℕ) → ℕ → ℕ
row_digit [] k = 0
row_digit ((byte, mask, bit) ∷ rows) k =
    if digit bit k == 0
    then row_digit rows k
    else max (if is_set byte mask then 1 else 0) (row_digit rows k)

pub digit-press_all :
    (rows : List (ℕ × ℕ × ℕ)) (acc k : ℕ)
    → digit (press_all rows acc) k ≡ max (digit acc k) (row_digit rows k)
unfolding press_all press
digit-press_all [] acc k = omega arith
digit-press_all ((byte, mask, bit) ∷ rows) acc k = ground (
  arith,
  digit-press_all rows (press byte mask bit acc) k,
  digit-bit_or acc bit k,
  digit-lt bit k,
  digit-lt acc k,
)

pub bit_and-15 : (a : ℕ) → bit_and a 0x0F ≡ a % 16
bit_and-15 a = omega (
  arith,
  bit_and_lowest a 15,
  bit_and_lowest (a / 2) 7,
  bit_and_lowest (a / 2 / 2) 3,
  bit_and_lowest (a / 2 / 2 / 2) 1,
  empty_mask (a / 2 / 2 / 2 / 2),
)

pub low_digits : (a : ℕ) → a % 16 ≡ digit a 0 + 2 * digit a 1 + 4 * digit a 2 + 8 * digit a 3
unfolding digit
low_digits a = omega arith

-- Whether every row sets bits below `2 ^ n` only.
abbrev pub rows_below : ℕ → List (ℕ × ℕ × ℕ) → Bool
rows_below n [] = true
rows_below n ((byte, mask, bit) ∷ rows) = ltb bit (2 ^ n) && rows_below n rows

pub press_all-lt :
    (n : ℕ) (rows : List (ℕ × ℕ × ℕ)) (acc : ℕ)
    → rows_below n rows ≡ true
    → acc < 2 ^ n
    → press_all rows acc < 2 ^ n
unfolding press_all press
press_all-lt n [] acc h lt = lt
press_all-lt n ((byte, mask, bit) ∷ rows) acc h lt =
    let low : bit < 2 ^ n = ground arith in
    let rest : rows_below n rows ≡ true = ground arith in
    elim (Bool-cases (is_set byte mask)) [
      | inl y ↦ rw y (press_all-lt n rows (bit_or acc bit) rest (bit_or-lt n acc bit lt low))
      | inr n' ↦ rw n' (press_all-lt n rows acc rest lt)
    ]
