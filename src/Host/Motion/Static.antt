-- ===== src/Host/Motion/Static.antt =====
-- A static screen is told from a moving one: crates/host/src/motion.rs on frames that repeat.
use couchlink.Base.{
  ◌^◌, min, min, ℕ, zero, suc, ◌+◌, ◌-◌, ◌*◌, ◌≤◌, ◌≡◌, refl, ◌∙◌, ap, arith, List, [], ◌∷◌, ◌++◌,
  map, true, false, ltb, leb, ◌==◌, length, length-append, inl, inr, Bool-cases,
}
use couchlink.Proto.Buffer.{Bytes}
use couchlink.Host.Motion.{
  MotionDetector, tiles, rows_of_tiles, row_of_tiles, range_from, tiles_x, tiles_y, luma_at,
  sample_loop, tile_loop, seed, changed_tiles, judge, is_idle, is_far,
}

length-map : (f : ℕ → ℕ) (xs : List ℕ) → length (map f xs) ≡ length xs
length-map f [] = refl
length-map f (x ∷ xs) = ap suc (length-map f xs)

is_far-same : (a : ℕ) → is_far a a ≡ false
is_far-same a = ground arith

-- Slots that were written from the same bytes show no change.
sample_loop-same :
    (bgra : Bytes) (is rest : List ℕ)
    → sample_loop bgra is (map (luma_at bgra) is ++ rest) ≡ (false, map (luma_at bgra) is, rest)
unfolding sample_loop
sample_loop-same bgra [] rest = refl
sample_loop-same bgra (i ∷ is) rest =
    rw (sample_loop-same bgra is rest, is_far-same (luma_at bgra i)) refl

tile_loop-same :
    (bgra : Bytes) (ts : List (List ℕ)) → tile_loop bgra ts (seed bgra ts) ≡ (0, seed bgra ts)
unfolding tile_loop seed
tile_loop-same bgra [] = refl
tile_loop-same bgra (t ∷ ts) =
    rw (sample_loop-same bgra t (seed bgra ts), tile_loop-same bgra ts) refl

-- Where there is a slot for every sample, the loop writes what `seed` writes.
sample_loop-written :
    (bgra : Bytes) (is slots : List ℕ)
    → length is ≤ length slots
    → (let (changed, written, left) = sample_loop bgra is slots in
        (written ≡ map (luma_at bgra) is) × (length left + length is ≡ length slots))
unfolding sample_loop
sample_loop-written bgra [] slots le = (refl, omega arith)
sample_loop-written bgra (i ∷ is) [] le = absurd (omega arith)
sample_loop-written bgra (i ∷ is) (p ∷ slots) le =
    let (w, l) = sample_loop-written bgra is slots (omega arith) in
    (ap (λ xs. luma_at bgra i ∷ xs) w, omega arith)

tile_loop-written :
    (bgra : Bytes) (ts : List (List ℕ)) (slots : List ℕ)
    → length (seed bgra ts) ≤ length slots
    → (tile_loop bgra ts slots).1 ≡ seed bgra ts
unfolding tile_loop seed
tile_loop-written bgra [] slots le = refl
tile_loop-written bgra (t ∷ ts) slots le =
    let split = length-append (map (luma_at bgra) t) (seed bgra ts) in
    let mapped = length-map (luma_at bgra) t in
    let (w, l) = sample_loop-written bgra t slots (omega arith) in
    let rest = tile_loop-written bgra ts (sample_loop bgra t slots).2 (omega arith) in
    rw (w, rest) refl

-- The number of slots.
length-range : (start n : ℕ) → length (range_from start n) ≡ n
length-range start zero = refl
length-range start (suc n) = ap suc (length-range (start + 1) n)

seed-append :
    (bgra : Bytes) (ts us : List (List ℕ)) → seed bgra (ts ++ us) ≡ seed bgra ts ++ seed bgra us
unfolding seed
seed-append bgra [] us = refl
seed-append bgra (t ∷ ts) us = rw (seed-append bgra ts us) (regroup (map (luma_at bgra) t))
  where
    regroup :
        (xs : List ℕ) → xs ++ (seed bgra ts ++ seed bgra us) ≡ (xs ++ seed bgra ts) ++ seed bgra us
    regroup [] = refl
    regroup (x ∷ xs) = ap (λ ys. x ∷ ys) (regroup xs)

row-length :
    (d : MotionDetector) (bgra : Bytes) (ty : ℕ) (txs : List ℕ)
    → length (seed bgra (row_of_tiles d ty txs)) ≡ length txs * 4
unfolding seed
row-length d bgra ty [] = refl
row-length d bgra ty (tx ∷ txs) = omega (arith, row-length d bgra ty txs)

rows-length :
    (d : MotionDetector) (bgra : Bytes) (tys : List ℕ)
    → length (seed bgra (rows_of_tiles d tys)) ≡ length tys * (tiles_x d * 4)
unfolding seed
rows-length d bgra [] = omega arith
rows-length d bgra (ty ∷ tys) =
    let row = row_of_tiles d ty (range_from 0 (tiles_x d)) in
    let split = ap length (seed-append bgra row (rows_of_tiles d tys)) in
    let parts = length-append (seed bgra row) (seed bgra (rows_of_tiles d tys)) in
    grind (
      arith,
      split,
      parts,
      row-length d bgra ty (range_from 0 (tiles_x d)),
      length-range 0 (tiles_x d),
      rows-length d bgra tys,
    )

pub slots-length :
    (d : MotionDetector) (bgra : Bytes) → length (seed bgra (tiles d)) ≡ tiles_x d * tiles_y d * 4
unfolding tiles
slots-length d bgra =
    rows-length d bgra (range_from 0 (tiles_y d)) ∙ grind (arith, length-range 0 (tiles_y d))

-- The tiles are those of the size alone.
rows_of_tiles-same :
    (d : MotionDetector) (p : List ℕ) (s : ℕ) (tys : List ℕ)
    → rows_of_tiles (record d { prev = p; idle_streak = s }) tys ≡ rows_of_tiles d tys
rows_of_tiles-same d p s [] = refl
rows_of_tiles-same d p s (ty ∷ tys) =
    ap (λ ts. row_of_tiles d ty (range_from 0 (tiles_x d)) ++ ts) (rows_of_tiles-same d p s tys)

tiles-same :
    (d : MotionDetector) (p : List ℕ) (s : ℕ)
    → tiles (record d { prev = p; idle_streak = s }) ≡ tiles d
unfolding tiles
tiles-same d p s = rows_of_tiles-same d p s (range_from 0 (tiles_y d))

abbrev pub IsFull : MotionDetector → Bytes → Type 0
IsFull d bgra = ltb (length bgra) (d.width * 4 * d.height) ≡ false

-- The detector after it has seen the frame.
abbrev seen : MotionDetector → Bytes → ℕ → MotionDetector
seen d bgra s = record d { prev = seed bgra (tiles d); idle_streak = s }

changed_tiles-first :
    (d : MotionDetector) (bgra : Bytes)
    → IsFull d bgra
    → (changed_tiles d bgra).0 ≡ seen d bgra d.idle_streak
unfolding changed_tiles
changed_tiles-first d bgra full =
    rw full (elim (Bool-cases (length d.prev == tiles_x d * tiles_y d * 4)) [
      | inl same ↦ rw same (
          ap (λ p. record d { prev = p })
            (tile_loop-written bgra (tiles d) d.prev (ground (arith, slots-length d bgra))))
      | inr other ↦ rw other refl
    ])

changed_tiles-again :
    (d : MotionDetector) (bgra : Bytes) (s : ℕ)
    → IsFull d bgra
    → changed_tiles (seen d bgra s) bgra ≡ (seen d bgra s, 0)
unfolding changed_tiles
changed_tiles-again d bgra s full =
    let slots : (length (seed bgra (tiles d)) == tiles_x d * tiles_y d * 4) ≡ true =
      ground (arith, slots-length d bgra) in
    rw (full, slots, tiles-same d (seed bgra (tiles d)) s, tile_loop-same bgra (tiles d)) refl

abbrev with_streak : ℕ → MotionDetector → MotionDetector
with_streak s d = record d { idle_streak = s }

judge-seen :
    (d : MotionDetector) (bgra : Bytes) (r : MotionDetector × ℕ)
    → r.0 ≡ seen d bgra d.idle_streak
    → (s : ℕ) × ((judge r).0 ≡ seen d bgra s)
judge-seen d bgra (d', changed) e = elim (Bool-cases (leb 1 changed)) [
  | inl moved ↦ (0, rw moved (ap (with_streak 0) e))
  | inr still ↦ (
    min (d'.idle_streak + 1) (2 ^ 32 - 1),
    rw still (ap (with_streak (min (d'.idle_streak + 1) (2 ^ 32 - 1))) e),
  )
]

is_idle-again :
    (d : MotionDetector) (bgra : Bytes) (s : ℕ)
    → IsFull d bgra
    → is_idle (seen d bgra s) bgra
      ≡ (seen d bgra (min (s + 1) (2 ^ 32 - 1)), leb 6 (min (s + 1) (2 ^ 32 - 1)))
unfolding is_idle
is_idle-again d bgra s full = rw (changed_tiles-again d bgra s full) refl

-- The detector after `n` looks at the same frame.
abbrev pub after : MotionDetector → Bytes → ℕ → MotionDetector
after d bgra zero = d
after d bgra (suc n) = (is_idle (after d bgra n) bgra).0

after-seen :
    (d : MotionDetector) (bgra : Bytes) (n : ℕ)
    → IsFull d bgra
    → (s : ℕ) × (after d bgra (suc n) ≡ seen d bgra s) × (min n (2 ^ 32 - 1) ≤ s)
unfolding is_idle
after-seen d bgra zero full =
    let (s, e) = judge-seen d bgra (changed_tiles d bgra) (changed_tiles-first d bgra full) in
    (s, e, omega arith)
after-seen d bgra (suc n) full =
    let (s, e, le) = after-seen d bgra n full in
    (
      min (s + 1) (2 ^ 32 - 1),
      ap (λ x. (is_idle x bgra).0) e ∙ ap (λ r. r.0) (is_idle-again d bgra s full),
      omega arith,
    )

-- On a screen that does not change, the detector is idle from the seventh look at the same full frame on,
-- whatever it has seen before.
pub is_idle-static :
    (d : MotionDetector) (bgra : Bytes) (n : ℕ)
    → IsFull d bgra
    → 6 ≤ n
    → (is_idle (after d bgra n) bgra).1 ≡ true
is_idle-static d bgra zero full le = absurd (omega arith)
is_idle-static d bgra (suc n) full le =
    let (s, e, many) = after-seen d bgra n full in
    let streak : 6 ≤ min (s + 1) (2 ^ 32 - 1) = omega arith in
    ap (λ x. (is_idle x bgra).1) e
    ∙ ap (λ r. r.1) (is_idle-again d bgra s full)
    ∙ ground (arith, streak)
