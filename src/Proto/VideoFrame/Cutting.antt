-- ===== src/Proto/VideoFrame/Cutting.antt =====
-- What `slice::chunks` gives: pieces that join to the slice, all full but the last, and as many as
-- `div_ceil` says.
use couchlink.Base.{
  ℕ, zero, suc, ◌+◌, ◌-◌, ◌/◌, ◌<◌, ◌≤◌, ◌≡◌, ◌⊎◌, inl, inr, refl, ◌∙◌, ap, arith, List, [], ◌∷◌,
  length, take, drop, max, min, take-append-drop, length-take, length-drop,
}
use native.Mathlib.Decide.{dec_le}
use native.Mathlib.Nat.{div-eq-sub-div, div-eq_of_lt}
use couchlink.Proto.Buffer.{Bytes}
use couchlink.Proto.VideoFrame.{VideoAccessUnit}
use couchlink.Proto.VideoFrame.Send.{chunks_fuel, chunks, fragment_count}
use couchlink.Proto.VideoFrame.Parity.{IsCut, joined}

-- What the sender cuts an access unit into: at least one piece.
abbrev pub nonempty : List Bytes → List Bytes
nonempty [] = [] ∷ []
nonempty (c ∷ cs) = c ∷ cs

unfoldable pub pieces : ℕ → VideoAccessUnit → List Bytes
pieces cap au = nonempty (chunks (max cap 1) au.annex_b)

module _ (n : ℕ) (pos : 0 < n) where
  chunks_fuel-joined :
      (fuel : ℕ) (xs : Bytes) → length xs ≤ fuel → joined (chunks_fuel fuel n xs) ≡ xs
  unfolding chunks_fuel
  chunks_fuel-joined zero [] h = refl
  chunks_fuel-joined zero (x ∷ xs) h = absurd (omega arith)
  chunks_fuel-joined (suc fuel) [] h = refl
  chunks_fuel-joined (suc fuel) (x ∷ xs) h =
      rw (chunks_fuel-joined fuel (drop n (x ∷ xs)) (omega (arith, length-drop n (x ∷ xs))))
        (take-append-drop n (x ∷ xs))

  one_more : (l d : ℕ) → 0 < l → d ≡ l - n → suc ((d + n - 1) / n) ≡ (l + n - 1) / n
  one_more l d lpos e = elim (dec_le n l) [
    | yes le ↦
        let same : d + n - 1 ≡ l + n - 1 - n = omega arith in
        rw same (omega (arith, div-eq-sub-div {m = n} {n = l + n - 1} pos (omega arith)))
    | no gt ↦
        let low : (d + n - 1) / n ≡ 0 = div-eq_of_lt (omega arith) in
        let rest : (l + n - 1 - n) / n ≡ 0 = div-eq_of_lt (omega arith) in
        omega (arith, low, rest, div-eq-sub-div {m = n} {n = l + n - 1} pos (omega arith))
  ]

  -- The number of pieces, by steps of `n`.
  chunks_fuel-length :
      (fuel : ℕ) (xs : Bytes)
      → length xs ≤ fuel
      → length (chunks_fuel fuel n xs) ≡ (length xs + n - 1) / n
  unfolding chunks_fuel
  chunks_fuel-length zero [] h = grind arith
  chunks_fuel-length zero (x ∷ xs) h = absurd (omega arith)
  chunks_fuel-length (suc fuel) [] h = grind arith
  chunks_fuel-length (suc fuel) (x ∷ xs) h =
      ap suc (chunks_fuel-length fuel (drop n (x ∷ xs)) (omega (arith, length-drop n (x ∷ xs))))
      ∙ one_more (length (x ∷ xs)) (length (drop n (x ∷ xs))) (omega arith) (length-drop n (x ∷ xs))

  IsCut-cons :
      (c : Bytes) (cs : List Bytes)
      → length c ≤ n
      → ((cs ≡ []) ⊎ (length c ≡ n))
      → IsCut n cs
      → IsCut n (c ∷ cs)
  IsCut-cons c [] le full cut = le
  IsCut-cons c (d ∷ cs) le (inl e) cut = cc
  IsCut-cons c (d ∷ cs) le (inr e) cut = (e, cut)

  chunks_fuel-nil : (fuel : ℕ) (xs : Bytes) → xs ≡ [] → chunks_fuel fuel n xs ≡ []
  unfolding chunks_fuel
  chunks_fuel-nil zero xs e = refl
  chunks_fuel-nil (suc fuel) [] e = refl
  chunks_fuel-nil (suc fuel) (x ∷ xs) e = cc

  nil-or-full : (xs ys : Bytes) → length ys ≡ length xs - n → (ys ≡ []) ⊎ (min n (length xs) ≡ n)
  nil-or-full xs [] e = inl refl
  nil-or-full xs (y ∷ ys) e = inr (omega arith)

  chunks_fuel-IsCut : (fuel : ℕ) (xs : Bytes) → length xs ≤ fuel → IsCut n (chunks_fuel fuel n xs)
  unfolding chunks_fuel
  chunks_fuel-IsCut zero xs h = tt
  chunks_fuel-IsCut (suc fuel) [] h = tt
  chunks_fuel-IsCut (suc fuel) (x ∷ xs) h =
      IsCut-cons (take n (x ∷ xs)) (chunks_fuel fuel n (drop n (x ∷ xs)))
        (omega (arith, length-take n (x ∷ xs)))
        (elim (nil-or-full (x ∷ xs) (drop n (x ∷ xs)) (length-drop n (x ∷ xs))) [
          | inl e ↦ inl (chunks_fuel-nil fuel _ e)
          | inr e ↦ inr (length-take n (x ∷ xs) ∙ e)
        ])
        (chunks_fuel-IsCut fuel (drop n (x ∷ xs)) (omega (arith, length-drop n (x ∷ xs))))

-- The payload limit and the size of an access unit for which the numbers fit 16 bits. The program's
-- limit is 14000 bytes, so an access unit may have up to 917 million.
pub record IsSendable (cap : ℕ) (au : VideoAccessUnit) : Type 0 where
  pub positive : 0 < cap
  pub narrow : cap < 65536
  pub small : length (pieces cap au) < 65536

max-one : (n : ℕ) → 0 < n → max n 1 ≡ n
max-one n h = omega arith

nonempty-joined : (cs : List Bytes) → joined (nonempty cs) ≡ joined cs
nonempty-joined [] = refl
nonempty-joined (c ∷ cs) = refl

nonempty-IsCut : (n : ℕ) (cs : List Bytes) → IsCut n cs → IsCut n (nonempty cs)
nonempty-IsCut n [] h = omega arith
nonempty-IsCut n (c ∷ cs) h = h

length-nonempty : (cs : List Bytes) → length (nonempty cs) ≡ max (length cs) 1
length-nonempty [] = refl
length-nonempty (c ∷ cs) = omega arith

pub pieces-pos : (cap : ℕ) (au : VideoAccessUnit) → 0 < length (pieces cap au)
unfolding pieces
pieces-pos cap au = omega (arith, length-nonempty (chunks (max cap 1) au.annex_b))

module _ (cap : ℕ) (au : VideoAccessUnit) (s : IsSendable cap au) where
  -- Nothing is lost by the cut.
  pub joined-pieces : joined (pieces cap au) ≡ au.annex_b
  unfolding pieces chunks
  joined-pieces =
      nonempty-joined (chunks (max cap 1) au.annex_b)
      ∙ chunks_fuel-joined (max cap 1) (omega arith) (length au.annex_b) au.annex_b (omega arith)

  pub pieces-IsCut : IsCut cap (pieces cap au)
  unfolding pieces chunks
  pieces-IsCut = rw (max-one cap s.positive) (
      nonempty-IsCut cap _
        (chunks_fuel-IsCut cap s.positive (length au.annex_b) au.annex_b (omega arith)))

  -- The count that the sender puts on the wire is the number of pieces.
  pub fragment_count-pieces : fragment_count cap au.annex_b ≡ length (pieces cap au)
  unfolding pieces chunks fragment_count
  fragment_count-pieces = ground (
    arith,
    length-nonempty (chunks (max cap 1) au.annex_b),
    s.small,
    chunks_fuel-length (max cap 1) (omega arith) (length au.annex_b) au.annex_b (omega arith),
  )
