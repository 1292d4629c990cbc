-- ===== src/Host/Motion/Moving.antt =====
-- What counts as motion: crates/host/src/motion.rs on a frame that follows another.
use couchlink.Base.{
  ℕ, zero, suc, ◌+◌, ◌-◌, ◌*◌, ◌^◌, ◌≡◌, refl, ◌∙◌, ap, arith, min, List, [], ◌∷◌, ◌++◌, map, Bool,
  true, false, leb, ◌==◌, ◌||◌, if◌then◌else◌, length,
}
use couchlink.Proto.Buffer.{Bytes}
use couchlink.Host.Motion.{
  MotionDetector, tiles, tiles_x, tiles_y, luma_at, sample_loop, tile_loop, seed, changed_tiles,
  judge, is_idle, is_far,
}
use couchlink.Host.Motion.Static.{IsFull, slots-length}

-- Whether one of these samples has changed from the frame `old` to the frame `bgra` by more than the tolerance.
abbrev pub sample_moved : Bytes → Bytes → List ℕ → Bool
sample_moved old bgra [] = false
sample_moved old bgra (i ∷ is) = is_far (luma_at bgra i) (luma_at old i) || sample_moved old bgra is

abbrev pub moved_tiles : Bytes → Bytes → List (List ℕ) → ℕ
moved_tiles old bgra [] = 0
moved_tiles old bgra (t ∷ ts) =
    let rest = moved_tiles old bgra ts in if sample_moved old bgra t then rest + 1 else rest

sample_loop-moved :
    (old bgra : Bytes) (is rest : List ℕ)
    → sample_loop bgra is (map (luma_at old) is ++ rest)
      ≡ (sample_moved old bgra is, map (luma_at bgra) is, rest)
unfolding sample_loop
sample_loop-moved old bgra [] rest = refl
sample_loop-moved old bgra (i ∷ is) rest = rw (sample_loop-moved old bgra is rest) refl

tile_loop-moved :
    (old bgra : Bytes) (ts : List (List ℕ))
    → tile_loop bgra ts (seed old ts) ≡ (moved_tiles old bgra ts, seed bgra ts)
unfolding tile_loop seed
tile_loop-moved old bgra [] = refl
tile_loop-moved old bgra (t ∷ ts) =
    rw (sample_loop-moved old bgra t (seed old ts), tile_loop-moved old bgra ts) refl

changed_tiles-moved :
    (d : MotionDetector) (old bgra : Bytes)
    → d.prev ≡ seed old (tiles d)
    → IsFull d bgra
    → changed_tiles d bgra
      ≡ (record d { prev = seed bgra (tiles d) }, moved_tiles old bgra (tiles d))
unfolding changed_tiles
changed_tiles-moved d old bgra before full =
    let slots : (length d.prev == tiles_x d * tiles_y d * 4) ≡ true =
      ground (arith, slots-length d old, ap length before) in
    rw (full, slots) (ap (looked (tiles d)) before ∙ ap named (tile_loop-moved old bgra (tiles d)))
  where
    named : ℕ × List ℕ → MotionDetector × ℕ
    named (changed, written) = (record d { prev = written }, changed)

    looked : List (List ℕ) → List ℕ → MotionDetector × ℕ
    looked ts slots = named (tile_loop bgra ts slots)

-- After a full frame `old`, a full frame `bgra` in which a sample of some tile has changed by more than the
-- tolerance is never idle, and starts the count of still frames anew; one in which none has changed is
-- counted as still, and is idle from the sixth on. The detector then remembers `bgra`.
pub is_idle-moved :
    (d : MotionDetector) (old bgra : Bytes)
    → d.prev ≡ seed old (tiles d)
    → IsFull d bgra
    → (let still = min (d.idle_streak + 1) (2 ^ 32 - 1) in
        is_idle d bgra ≡ (
          if moved_tiles old bgra (tiles d) == 0
          then (record d { prev = seed bgra (tiles d); idle_streak = still }, leb 6 still)
          else (record d { prev = seed bgra (tiles d); idle_streak = 0 }, false)))
unfolding is_idle
is_idle-moved d old bgra before full =
    ap judge (changed_tiles-moved d old bgra before full) ∙ judged (moved_tiles old bgra (tiles d))
  where
    judged :
        (m : ℕ)
        → (let still = min (d.idle_streak + 1) (2 ^ 32 - 1) in
            judge (record d { prev = seed bgra (tiles d) }, m) ≡ (
              if m == 0
              then (record d { prev = seed bgra (tiles d); idle_streak = still }, leb 6 still)
              else (record d { prev = seed bgra (tiles d); idle_streak = 0 }, false)))
    judged zero = refl
    judged (suc m) =
        let active : leb 1 (suc m) ≡ true = ground arith in
        let some_tile : (suc m == 0) ≡ false = ground arith in rw (active, some_tile) refl
