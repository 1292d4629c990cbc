-- ===== src/Proto/VideoFrame/Complete.antt =====
-- When the parts of an assembler are complete, or one short with the parity at hand, `complete` gives
-- all pieces; otherwise it gives nothing.
use couchlink.Base.{
  ℕ, zero, suc, ◌+◌, ◌-◌, ◌<◌, ◌≤◌, ◌≡◌, ◌≢◌, refl, subst, arith, List, [], ◌∷◌, length, set,
  Option, none, some, Bool, true, false, ◌⊎◌, inl,
}
use couchlink.Proto.Buffer.{Bytes}
use couchlink.Proto.VideoFrame.Assembler.{Parts, missing, concat_parts, recover_fragment, complete}
use couchlink.Proto.VideoFrame.Parity.{
  Fits, IsCut, joined, parity_of, Fits-set, concat_parts-full, recover_fragment_lem,
}

abbrev pub is_some : Option Bytes → Bool
is_some none = false
is_some (some x) = true

-- Part `j` has arrived.
abbrev pub present : ℕ → Parts → Bool
present j [] = false
present zero (p ∷ ps) = is_some p
present (suc j) (p ∷ ps) = present j ps

pub present-set :
    (ps : Parts) (i j : ℕ) (c : Bytes) → present j ps ≡ true → present j (set ps i (some c)) ≡ true
present-set [] i j c h = cc
present-set (p ∷ ps) zero zero c h = refl
present-set (p ∷ ps) zero (suc j) c h = h
present-set (p ∷ ps) (suc i) zero c h = h
present-set (p ∷ ps) (suc i) (suc j) c h = present-set ps i j c h

pub present-set_self :
    (ps : Parts) (i : ℕ) (c : Bytes) → i < length ps → present i (set ps i (some c)) ≡ true
present-set_self [] i c h = absurd (omega arith)
present-set_self (p ∷ ps) zero c h = refl
present-set_self (p ∷ ps) (suc i) c h = present-set_self ps i c (omega arith)

missing-le : (ps : Parts) (i m : ℕ) (ms : List ℕ) → missing i ps ≡ m ∷ ms → i ≤ m
unfolding missing
missing-le [] i m ms e = cc
missing-le (none ∷ ps) i m ms e = ground arith
missing-le (some p ∷ ps) i m ms e = omega (arith, missing-le ps (i + 1) m ms e)

pub missing-lt : (ps : Parts) (i m : ℕ) (ms : List ℕ) → missing i ps ≡ m ∷ ms → m < i + length ps
unfolding missing
missing-lt [] i m ms e = cc
missing-lt (none ∷ ps) i m ms e = ground arith
missing-lt (some p ∷ ps) i m ms e = omega (arith, missing-lt ps (i + 1) m ms e)

missing-set :
    (ps : Parts) (i m : ℕ) (c : Bytes)
    → missing i ps ≡ m ∷ []
    → missing i (set ps (m - i) (some c)) ≡ []
unfolding missing
missing-set [] i m c e = cc
missing-set (none ∷ ps) i m c e = (let start : m - i ≡ 0 = ground arith in rw start (cc))
missing-set (some p ∷ ps) i m c e =
    let le = missing-le ps (i + 1) m [] e in
    let step : m - i ≡ suc (m - (i + 1)) = omega arith in rw step (missing-set ps (i + 1) m c e)

-- If all parts but one are known to be there, nothing else is missing.
pub missing-present :
    (ps : Parts) (i gone : ℕ)
    → ((j : ℕ) → j < length ps → j + i ≢ gone → present j ps ≡ true)
    → (missing i ps ≡ []) ⊎ (missing i ps ≡ gone ∷ [])
unfolding missing
missing-present [] i gone h = inl refl
missing-present (none ∷ ps) i gone h = ground (
  arith,
  h 0,
  missing-present ps (i + 1) gone (λ j lt ne. h (suc j) (omega arith) (omega arith)),
  missing-le ps (i + 1) gone [],
)
missing-present (some p ∷ ps) i gone h =
    missing-present ps (i + 1) gone (λ j lt ne. h (suc j) (omega arith) (omega arith))

-- The parts are complete, or one is missing and the parity is there.
abbrev pub enough_for : List ℕ → Option Bytes → Bool
enough_for [] parity = true
enough_for (m ∷ []) parity = is_some parity
enough_for (m ∷ n ∷ ms) parity = false

abbrev pub IsParity : ℕ → List Bytes → Option Bytes → Type 0
IsParity cap cs none = Unit {0}
IsParity cap cs (some p) = p ≡ parity_of cap cs

module _ (cap : ℕ) (cs : List Bytes) (narrow : cap < 65536) (cut : IsCut cap cs) where
  pub complete-enough :
      (ps : Parts) (parity : Option Bytes) (ms : List ℕ)
      → Fits cs ps
      → IsParity cap cs parity
      → missing 0 ps ≡ ms
      → enough_for ms parity ≡ true
      → (qs : Parts) × (complete cap ps parity ms ≡ some qs) × (concat_parts qs ≡ joined cs)
  unfolding complete
  complete-enough ps parity [] fits par e en = (ps, refl, concat_parts-full cs ps 0 fits e)
  complete-enough ps none (m ∷ []) fits par e en = cc
  complete-enough ps (some p) (m ∷ []) fits par e en =
      let (c, at, r) = recover_fragment_lem cap cs narrow cut ps m fits e in
      let closed : missing 0 (set ps m (some c)) ≡ [] =
        subst (λ t. missing 0 (set ps t (some c)) ≡ []) (omega arith) (missing-set ps 0 m c e) in
      (
        set ps m (some c),
        ground (arith, par, r),
        concat_parts-full cs (set ps m (some c)) 0 (Fits-set cs ps m c fits at) closed,
      )
  complete-enough ps parity (m ∷ n ∷ ms) fits par e en = cc

  pub complete-short :
      (ps : Parts) (parity : Option Bytes) (ms : List ℕ)
      → enough_for ms parity ≡ false
      → complete cap ps parity ms ≡ none
  unfolding complete recover_fragment
  complete-short ps parity [] en = cc
  complete-short ps none (m ∷ []) en = refl
  complete-short ps (some p) (m ∷ []) en = cc
  complete-short ps parity (m ∷ n ∷ ms) en = refl
