-- ===== src/Base/Digits.antt =====
-- The binary digits of a number, and what `bit_or` and `bit_and` with a power of two do to them.
use Prim.Native.Nat.{
  ℕ, zero, suc, ◌+◌, ◌*◌, ◌/◌, ◌%◌, ◌^◌, ◌≤◌, ◌<◌, min, max, bit_and, bit_or, bit_and-bitwise,
  bit_or-bitwise,
}
use mathlib.Core.Path.{◌≡◌, refl, ap, ◌∙◌}
use native.Mathlib.Nat.{pow-suc}
use native.Mathlib.Omega.{arith}
use couchlink.Base.{subst, inl, inr, ◌==◌, Bool-cases}
use couchlink.Base.Bits.{lowest_digit}

-- The digit of weight `2 ^ k`.
unfoldable pub digit : ℕ → ℕ → ℕ
digit x zero = x % 2
digit x (suc k) = digit (x / 2) k

bit_or_lowest :
    (x mask : ℕ) → bit_or x mask ≡ max (x % 2) (mask % 2) + 2 * bit_or (x / 2) (mask / 2)
bit_or_lowest zero mask = simp bit_or-bitwise (omega arith)
bit_or_lowest (suc x) mask = simp bit_or-bitwise (omega (arith, lowest_digit (λ y. y) max x mask))

pub bit_and_lowest :
    (x mask : ℕ) → bit_and x mask ≡ min (x % 2) (mask % 2) + 2 * bit_and (x / 2) (mask / 2)
bit_and_lowest zero mask = simp bit_and-bitwise (omega arith)
bit_and_lowest (suc x) mask = simp bit_and-bitwise (omega (arith, lowest_digit (λ y. 0) min x mask))

pub digit-lt : (x k : ℕ) → digit x k < 2
unfolding digit
digit-lt x zero = omega arith
digit-lt x (suc k) = digit-lt (x / 2) k

pub digit-bit_or : (a b k : ℕ) → digit (bit_or a b) k ≡ max (digit a k) (digit b k)
unfolding digit
digit-bit_or a b zero = omega (arith, bit_or_lowest a b)
digit-bit_or a b (suc k) =
    let halved : bit_or a b / 2 ≡ bit_or (a / 2) (b / 2) = omega (arith, bit_or_lowest a b) in
    ap (λ x. digit x k) halved ∙ digit-bit_or (a / 2) (b / 2) k

empty_mask_below : (fuel x : ℕ) → x < fuel → bit_and x 0 ≡ 0
empty_mask_below zero x lt = absurd (omega arith)
empty_mask_below (suc fuel) zero lt = refl
empty_mask_below (suc fuel) (suc x) lt =
    omega (arith, empty_mask_below fuel (suc x / 2) (omega arith), bit_and_lowest (suc x) 0)

pub empty_mask : (x : ℕ) → bit_and x 0 ≡ 0
empty_mask x = empty_mask_below (x + 1) x (omega arith)

-- A mask of one bit takes one digit.
pub bit_and-power : (a k : ℕ) → bit_and a (2 ^ k) ≡ digit a k * 2 ^ k
unfolding digit
bit_and-power a zero = omega (arith, bit_and_lowest a 1, empty_mask (a / 2))
bit_and-power a (suc k) =
    let half : 2 ^ suc k / 2 ≡ 2 ^ k = omega (arith, pow-suc 2 k) in
    grind (
      arith,
      pow-suc 2 k,
      bit_and_lowest a (2 ^ suc k),
      ap (λ x. bit_and (a / 2) x) half,
      bit_and-power (a / 2) k,
    )

pub bit_or-lt : (k a b : ℕ) → a < 2 ^ k → b < 2 ^ k → bit_or a b < 2 ^ k
bit_or-lt zero a b p q =
    let e : a ≡ 0 = omega arith in let f : b ≡ 0 = omega arith in rw (e, f) (omega arith)
bit_or-lt (suc k) a b p q = omega (
  arith,
  pow-suc 2 k,
  bit_or_lowest a b,
  bit_or-lt k (a / 2) (b / 2) (omega (arith, pow-suc 2 k)) (omega (arith, pow-suc 2 k)),
)

pub digit-zero : (k : ℕ) → digit 0 k ≡ 0
unfolding digit
digit-zero zero = refl
digit-zero (suc k) = digit-zero k

doubled : (a n : ℕ) → a * 2 ^ suc n ≡ a * 2 ^ n * 2
doubled a n = grind (arith, pow-suc 2 n)

-- The digits below the lowest that is set.
pub digit-multiple : (n a k : ℕ) → k < n → digit (a * 2 ^ n) k ≡ 0
unfolding digit
digit-multiple zero a k lt = absurd (omega arith)
digit-multiple (suc n) a zero lt = omega (arith, doubled a n)
digit-multiple (suc n) a (suc k) lt =
    let halved : a * 2 ^ suc n / 2 ≡ a * 2 ^ n = omega (arith, doubled a n) in
    ap (λ x. digit x k) halved ∙ digit-multiple n a k (omega arith)

-- The digits past the highest that is set.
pub digit-above : (n x k : ℕ) → x < 2 ^ n → n ≤ k → digit x k ≡ 0
unfolding digit
digit-above zero x k lt le = let e : x ≡ 0 = omega arith in rw e (digit-zero k)
digit-above (suc n) x zero lt le = absurd (omega arith)
digit-above (suc n) x (suc k) lt le =
    digit-above n (x / 2) k (omega (arith, pow-suc 2 n)) (omega arith)

-- A predicate at every number below `n`.
abbrev pub AllBelow {ℓ} : (ℕ → Type ℓ) → ℕ → Type ℓ
AllBelow P zero = Unit {ℓ}
AllBelow P (suc n) = P n × AllBelow P n

pub AllBelow-at {ℓ} : (P : ℕ → Type ℓ) (n k : ℕ) → AllBelow P n → k < n → P k
AllBelow-at P zero k h lt = absurd (omega arith)
AllBelow-at P (suc n) k h lt = elim (Bool-cases (k == n)) [
  | inl y ↦ let e : n ≡ k = ground arith in subst P e h.0
  | inr other ↦ AllBelow-at P n k h.1 (ground arith)
]

zero-bit_or : (a : ℕ) → bit_or 0 a ≡ a
zero-bit_or a = bit_or-bitwise 0 a

-- Numbers without a common digit are put together by their sum.
pub bit_or-disjoint : (k a c : ℕ) → a < 2 ^ k → bit_or a (c * 2 ^ k) ≡ a + c * 2 ^ k
bit_or-disjoint zero a c lt =
    let e : a ≡ 0 = omega arith in rw e (omega (arith, zero-bit_or (c * 2 ^ 0)))
bit_or-disjoint (suc k) a c lt =
    let halved : c * 2 ^ suc k / 2 ≡ c * 2 ^ k = omega (arith, doubled c k) in
    omega (
      arith,
      pow-suc 2 k,
      doubled c k,
      bit_or_lowest a (c * 2 ^ suc k),
      ap (λ x. bit_or (a / 2) x) halved,
      bit_or-disjoint k (a / 2) c (omega (arith, pow-suc 2 k)),
    )
