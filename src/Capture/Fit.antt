-- ===== src/Capture/Fit.antt =====
-- `fit` of crates/capture-bridge/src/bin/win_capture.rs: the size that a captured window is encoded at.
use couchlink.Base.Order.{div-le}
use couchlink.Base.{
  ℕ, ◌*◌, ◌/◌, ◌%◌, ◌^◌, ◌<◌, ◌≤◌, ◌≡◌, arith, false, ◌&&◌, ◌||◌, leb, ◌==◌, if◌then◌else◌, max,
  Bool-cases, inl, inr,
}

-- `a * b` on `u32`, as a release build computes it
abbrev pub mul32 : ℕ → ℕ → ℕ
mul32 a b = a * b % 2 ^ 32

-- `(n & !1).max(2)`
abbrev pub even_down : ℕ → ℕ
even_down n = max (n / 2 * 2) 2

unfoldable pub fit : (sw sh max_w max_h : ℕ) → ℕ × ℕ
fit sw sh max_w max_h =
    if sw == 0 || sh == 0
    then (sw, sh)
    else if leb sw max_w && leb sh max_h
    then (even_down sw, even_down sh)
    else if leb (mul32 sw max_h) (mul32 max_w sh)
    then (even_down (max (mul32 sw max_h / sh) 1), even_down max_h)
    else (even_down max_w, even_down (max (mul32 sh max_w / sw) 1))

-- A size of a window and a box, none of them more than 65535.
abbrev pub IsSize : ℕ → Type 0
IsSize n = (2 ≤ n) × (n < 65536)

mul32-small : (a b : ℕ) → a < 65536 → b < 65536 → mul32 a b ≡ a * b
mul32-small a b p q = let one : a * b ≤ 65535 * b = grind arith in omega (arith, one)

even_down_bounds :
    (n m : ℕ) → n ≤ m → 2 ≤ m → (2 ≤ even_down n) × (even_down n ≤ m) × (even_down n % 2 ≡ 0)
even_down_bounds n m le two = (omega arith, omega arith, omega arith)

-- The encoder is given even sizes of at least two that stay within the box, for a window and a box of at least
-- two and at most 65535 on each side.
pub fit_bounds :
    (sw sh max_w max_h : ℕ)
    → IsSize sw
    → IsSize sh
    → IsSize max_w
    → IsSize max_h
    → (2 ≤ (fit sw sh max_w max_h).0)
      × ((fit sw sh max_w max_h).0 ≤ max_w)
      × ((fit sw sh max_w max_h).0 % 2 ≡ 0)
      × (2 ≤ (fit sw sh max_w max_h).1)
      × ((fit sw sh max_w max_h).1 ≤ max_h)
      × ((fit sw sh max_w max_h).1 % 2 ≡ 0)
unfolding fit
fit_bounds sw sh max_w max_h a b c d =
    let some_size : (sw == 0 || sh == 0) ≡ false = ground arith in
    let (w2, wm, we) = even_down_bounds max_w max_w (omega arith) c.0 in
    let (h2, hm, he) = even_down_bounds max_h max_h (omega arith) d.0 in
    elim (Bool-cases (leb sw max_w && leb sh max_h)) [
      | inl inside ↦
          let (p, q, r) = even_down_bounds sw max_w (ground arith) c.0 in
          let (s, t, u) = even_down_bounds sh max_h (ground arith) d.0 in
          rw (some_size, inside) (p, q, r, s, t, u)
      | inr outside ↦ elim (Bool-cases (leb (mul32 sw max_h) (mul32 max_w sh))) [
        | inl tall ↦
            let le : mul32 sw max_h ≤ mul32 max_w sh = ground arith in
            let narrow : mul32 sw max_h / sh ≤ max_w =
              div-le (mul32 sw max_h) max_w sh (omega arith)
                (omega (arith, le, mul32-small max_w sh c.1 b.1)) in
            let (p, q, r) =
              even_down_bounds (max (mul32 sw max_h / sh) 1) max_w (omega arith) c.0 in
            rw (some_size, outside, tall) (p, q, r, h2, hm, he)
        | inr wide ↦
            let le : mul32 max_w sh ≤ mul32 sw max_h = ground arith in
            let low : mul32 sh max_w / sw ≤ max_h = div-le (mul32 sh max_w) max_h sw (omega arith) (
              grind (
                arith,
                mul32-small max_w sh c.1 b.1,
                mul32-small sh max_w b.1 c.1,
                mul32-small sw max_h a.1 d.1,
              )) in
            let (p, q, r) =
              even_down_bounds (max (mul32 sh max_w / sw) 1) max_h (omega arith) d.0 in
            rw (some_size, outside, wide) (w2, wm, we, p, q, r)
      ]
    ]
