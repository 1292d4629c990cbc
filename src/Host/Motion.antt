-- ===== src/Host/Motion.antt =====
-- crates/host/src/motion.rs: the detector that tells a static screen from a moving one. The frame has at
-- least one row and one column.
pub mod Static
pub mod Moving
mod Examples
use couchlink.Base.{
  ℕ, zero, suc, ◌+◌, ◌-◌, ◌*◌, ◌/◌, ◌%◌, ◌^◌, min, max, List, [], ◌∷◌, ◌++◌, map, Bool, true, false,
  ltb, leb, not, ◌==◌, ◌||◌, if◌then◌else◌, length, get_or, replicate,
}
use couchlink.Proto.Buffer.{Bytes}

abbrev pub active_tile_minimum : ℕ
active_tile_minimum = 1

abbrev pub luma_tolerance : ℕ
luma_tolerance = 10

abbrev pub idle_streak_required : ℕ
idle_streak_required = 6

abbrev pub samples : List (ℕ × ℕ)
samples = (1, 1) ∷ (3, 1) ∷ (1, 3) ∷ (3, 3) ∷ []

-- `u32::MAX`
abbrev pub all_changed : ℕ
all_changed = 2 ^ 32 - 1

pub record MotionDetector : Type 0 where
  pub prev : List ℕ
  pub width : ℕ
  pub height : ℕ
  pub tile : ℕ
  pub idle_streak : ℕ

unfoldable pub new : ℕ → ℕ → MotionDetector
new width height = record { prev = []; width = width; height = height; tile = 16; idle_streak = 0 }

unfoldable pub resize : MotionDetector → ℕ → ℕ → MotionDetector
resize d width height = record d { width = width; height = height; prev = []; idle_streak = 0 }

unfoldable pub luma_at : Bytes → ℕ → ℕ
luma_at bgra i =
    if leb (i + 3) (length bgra)
    then (get_or bgra (i + 2) 0 * 77 + get_or bgra (i + 1) 0 * 150 + get_or bgra i 0 * 29)
      / 256
      % 256
    else 0

-- `0..n`
abbrev pub range_from : ℕ → ℕ → List ℕ
range_from start zero = []
range_from start (suc n) = start ∷ range_from (start + 1) n

abbrev pub tile_width : MotionDetector → ℕ
tile_width d = max d.tile 8

abbrev pub tiles_x : MotionDetector → ℕ
tiles_x d = max (d.width / tile_width d) 1

abbrev pub tiles_y : MotionDetector → ℕ
tiles_y d = max (d.height / tile_width d) 1

-- The byte at which a sample of the tile (tx, ty) stands.
abbrev pub sample_at : MotionDetector → ℕ → ℕ → ℕ × ℕ → ℕ
sample_at d ty tx (fx, fy) =
    let tw = tile_width d in
    let x = min (tx * tw + tw * fx / 4) (d.width - 1) in
    let y = min (ty * tw + tw * fy / 4) (d.height - 1) in y * (d.width * 4) + x * 4

abbrev pub row_of_tiles : MotionDetector → ℕ → List ℕ → List (List ℕ)
row_of_tiles d ty txs = map (λ tx. map (sample_at d ty tx) samples) txs

abbrev pub rows_of_tiles : MotionDetector → List ℕ → List (List ℕ)
rows_of_tiles d [] = []
rows_of_tiles d (ty ∷ tys) = row_of_tiles d ty (range_from 0 (tiles_x d)) ++ rows_of_tiles d tys

-- The tiles in the order of the two loops, each as the bytes of its samples.
unfoldable pub tiles : MotionDetector → List (List ℕ)
tiles d = rows_of_tiles d (range_from 0 (tiles_y d))

-- `(luma - prev).abs() > LUMA_TOLERANCE`
abbrev pub is_far : ℕ → ℕ → Bool
is_far a b = ltb luma_tolerance (a - b + (b - a))

-- The loop over the samples of a tile: whether one has changed, what is written, and the slots that are left.
-- There is a slot for every sample.
unfoldable pub sample_loop : Bytes → List ℕ → List ℕ → Bool × List ℕ × List ℕ
unfolding luma_at
sample_loop bgra [] slots = (false, [], slots)
sample_loop bgra (i ∷ is) [] = (false, [], [])
sample_loop bgra (i ∷ is) (p ∷ slots) =
    let (changed, written, left) = sample_loop bgra is slots in
    (is_far (luma_at bgra i) p || changed, luma_at bgra i ∷ written, left)

-- The loops over the tiles: the number that have changed and what is written.
unfoldable pub tile_loop : Bytes → List (List ℕ) → List ℕ → ℕ × List ℕ
unfolding sample_loop
tile_loop bgra [] slots = (0, [])
tile_loop bgra (t ∷ ts) slots =
    let (is_changed, written, left) = sample_loop bgra t slots in
    let (changed, more) = tile_loop bgra ts left in
    (if is_changed then changed + 1 else changed, written ++ more)

-- `seed` writes every slot.
unfoldable pub seed : Bytes → List (List ℕ) → List ℕ
seed bgra [] = []
seed bgra (t ∷ ts) = map (luma_at bgra) t ++ seed bgra ts

unfoldable pub changed_tiles : MotionDetector → Bytes → MotionDetector × ℕ
changed_tiles d bgra =
    if ltb (length bgra) (d.width * 4 * d.height)
    then (d, all_changed)
    else if not (length d.prev == tiles_x d * tiles_y d * 4)
    then (record d { prev = seed bgra (tiles d) }, all_changed)
    else (let (changed, written) = tile_loop bgra (tiles d) d.prev in
        (record d { prev = written }, changed))

abbrev pub judge : MotionDetector × ℕ → MotionDetector × Bool
judge (d, changed) =
    if leb active_tile_minimum changed
    then (record d { idle_streak = 0 }, false)
    else (let streak = min (d.idle_streak + 1) (2 ^ 32 - 1) in
        (record d { idle_streak = streak }, leb idle_streak_required streak))

unfoldable pub is_idle : MotionDetector → Bytes → MotionDetector × Bool
is_idle d bgra = judge (changed_tiles d bgra)
