-- ===== src/Host/LinkGov/Ladder.antt =====
-- The ladder of targets: every rung lies within the baseline, and where a target is found.
use couchlink.Base.{
  ap, ℕ, zero, suc, ◌*◌, ◌≤◌, ◌<◌, ◌≡◌, refl, subst, min, arith, List, [], ◌∷◌, ◌++◌, some, Bool,
  true, false, leb, if◌then◌else◌, length, get_elem?, All, inl, inr, Bool-cases, Option-cases,
}
use couchlink.Host.LinkGov.{
  EncodeTarget, target_eq, cut, floor_fps, next_fps, fps_rungs, any_target, new_fps_rungs,
  rungs_from_inner, index_of,
}

-- A target that asks for no more than the baseline: the same picture, at no more frames, no more bits,
-- and no fewer frames than the floor; and at the baseline's bits where no congestion was seen.
pub record IsRung (baseline : EncodeTarget) (congested : Bool) (t : EncodeTarget) : Type 0 where
  pub same_width : t.width ≡ baseline.width
  pub same_height : t.height ≡ baseline.height
  pub fps_most : t.fps ≤ baseline.fps
  pub fps_least : min 45 baseline.fps ≤ t.fps
  pub bitrate_most : t.bitrate_kbps ≤ baseline.bitrate_kbps
  pub bitrate_held : congested ≡ false → t.bitrate_kbps ≡ baseline.bitrate_kbps

pub baseline-IsRung : (b : EncodeTarget) (c : Bool) → IsRung b c b
baseline-IsRung b c = record {
  same_width = refl;
  same_height = refl;
  fps_most = omega arith;
  fps_least = omega arith;
  bitrate_most = omega arith;
  bitrate_held = λ e. refl;
}

cut-IsRung :
    (b : EncodeTarget) (pct : ℕ)
    → b.bitrate_kbps * pct ≤ b.bitrate_kbps * 100
    → IsRung b true (cut b pct)
cut-IsRung b pct small = record {
  same_width = refl;
  same_height = refl;
  fps_most = omega arith;
  fps_least = omega arith;
  bitrate_most = omega arith;
  bitrate_held = λ e. cc;
}

fps_rungs-IsRung :
    (n : ℕ) (b : EncodeTarget) (low : EncodeTarget) (fps : ℕ)
    → IsRung b true low
    → fps ≤ b.fps
    → min 45 b.fps ≤ fps
    → All (IsRung b true) (fps_rungs n (floor_fps b) low fps)
unfolding fps_rungs
fps_rungs-IsRung zero b low fps l most least = tt
fps_rungs-IsRung (suc n) b low fps l most least =
    elim (Bool-cases (leb fps (next_fps (floor_fps b) fps))) [
      | inl y ↦ rw y tt
      | inr m ↦ rw m (
        lower b low fps l most m,
        fps_rungs-IsRung n b low (next_fps (floor_fps b) fps) l (ground arith) (omega arith),
      )
    ]
  where
    lower :
        (b low : EncodeTarget) (fps : ℕ)
        → IsRung b true low
        → fps ≤ b.fps
        → leb fps (next_fps (floor_fps b) fps) ≡ false
        → IsRung b true (record low { fps = next_fps (floor_fps b) fps })
    lower b low fps l most m = record {
      same_width = l.same_width;
      same_height = l.same_height;
      fps_most = ground arith;
      fps_least = omega arith;
      bitrate_most = l.bitrate_most;
      bitrate_held = λ e. cc;
    }

All-append {ℓ κ} :
    {A : Type ℓ} (P : A → Type κ) (xs ys : List A) → All P xs → All P ys → All P (xs ++ ys)
All-append P [] ys h k = k
All-append P (x ∷ xs) ys h k = (h.0, All-append P xs ys h.1 k)

new_fps_rungs-IsRung :
    (n : ℕ) (b : EncodeTarget) (fps : ℕ) (rungs : List EncodeTarget)
    → fps ≤ b.fps
    → All (IsRung b false) rungs
    → All (IsRung b false) (new_fps_rungs n (floor_fps b) b fps rungs)
unfolding new_fps_rungs
new_fps_rungs-IsRung zero b fps rungs most h = h
new_fps_rungs-IsRung (suc n) b fps rungs most h =
    elim (Bool-cases (leb fps (next_fps (floor_fps b) fps))) [
      | inl y ↦ rw y h
      | inr m ↦ rw m (
          new_fps_rungs-IsRung n b (next_fps (floor_fps b) fps) _ (ground arith)
            (grown b fps rungs most m h))
    ]
  where
    grown :
        (b : EncodeTarget) (fps : ℕ) (rungs : List EncodeTarget)
        → fps ≤ b.fps
        → leb fps (next_fps (floor_fps b) fps) ≡ false
        → All (IsRung b false) rungs
        → let extra : EncodeTarget = record b { fps = next_fps (floor_fps b) fps } in
          All (IsRung b false) (if any_target rungs extra then rungs else rungs ++ extra ∷ [])
    grown b fps rungs most m h =
        let extra : EncodeTarget = record b { fps = next_fps (floor_fps b) fps } in
        let extra-IsRung : IsRung b false extra = record {
          same_width = refl;
          same_height = refl;
          fps_most = ground arith;
          fps_least = omega arith;
          bitrate_most = omega arith;
          bitrate_held = λ e. refl;
        } in
        elim (Bool-cases (any_target rungs extra)) [
          | inl y ↦ rw y h
          | inr n ↦ rw n (All-append (IsRung b false) rungs (extra ∷ []) h (extra-IsRung, tt))
        ]

-- Every rung of the ladder lies within the baseline.
pub rungs_from_inner-IsRung :
    (b : EncodeTarget) (c : Bool) → All (IsRung b c) (rungs_from_inner b c)
unfolding rungs_from_inner
rungs_from_inner-IsRung b false =
    new_fps_rungs-IsRung 4 b b.fps (b ∷ []) (omega arith) (baseline-IsRung b false, tt)
rungs_from_inner-IsRung b true =
    let low = cut-IsRung b 40 (omega arith) in
    let below = fps_rungs-IsRung 4 b (cut b 40) b.fps low (omega arith) (omega arith) in
    (
      baseline-IsRung b true,
      (cut-IsRung b 80 (omega arith), (cut-IsRung b 60 (omega arith), (low, below))),
    )

target_eq→eq : (s t : EncodeTarget) → target_eq s t ≡ true → s ≡ t
target_eq→eq s t h = ground arith

target_eq_refl : (t : EncodeTarget) → target_eq t t ≡ true
target_eq_refl t = ground arith

pub index_of-some :
    (rs : List EncodeTarget) (t : EncodeTarget) (i : ℕ)
    → index_of rs t ≡ some i
    → (get_elem? rs i ≡ some t) × (i < length rs)
unfolding index_of
index_of-some [] t i e = cc
index_of-some (r ∷ rs) t i e = elim (Bool-cases (target_eq r t)) [
  | inl y ↦ let first : i ≡ 0 = ground arith in rw first (ap some (target_eq→eq r t y), omega arith)
  | inr n ↦ elim (Option-cases (index_of rs t)) [
    | inl m ↦ ground arith
    | inr (j, m) ↦
        let next : i ≡ suc j = ground arith in
        let (here, lt) = index_of-some rs t j m in rw next (here, omega arith)
  ]
]

-- A target that stands on the ladder is found, at its first place.
pub index_of-get :
    (rs : List EncodeTarget) (t : EncodeTarget) (i : ℕ)
    → get_elem? rs i ≡ some t
    → (j : ℕ) × (index_of rs t ≡ some j) × (j ≤ i)
unfolding index_of
index_of-get [] t i e = cc
index_of-get (r ∷ rs) t zero e =
    let same : r ≡ t = ground arith in (0, ground (arith, target_eq_refl t), omega arith)
index_of-get (r ∷ rs) t (suc i) e = elim (Bool-cases (target_eq r t)) [
  | inl y ↦ (0, rw y refl, omega arith)
  | inr n ↦ let (j, found, le) = index_of-get rs t i e in (suc j, ground arith, omega arith)
]

pub All-get {ℓ κ} :
    {A : Type ℓ} (P : A → Type κ) (xs : List A) (i : ℕ) (x : A)
    → All P xs
    → get_elem? xs i ≡ some x
    → P x
All-get P [] i x h e = cc
All-get P (y ∷ ys) zero x h e = subst P (ground arith) h.0
All-get P (y ∷ ys) (suc i) x h e = All-get P ys i x h.1 e

pub get_elem?-within {ℓ} :
    {A : Type ℓ} (xs : List A) (i : ℕ) → i < length xs → (x : A) × (get_elem? xs i ≡ some x)
get_elem?-within [] i lt = absurd (omega arith)
get_elem?-within (x ∷ xs) zero lt = (x, refl)
get_elem?-within (x ∷ xs) (suc i) lt = get_elem?-within xs i (omega arith)
