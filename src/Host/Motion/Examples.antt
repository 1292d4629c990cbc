-- ===== src/Host/Motion/Examples.antt =====
-- Concrete frames for the motion detector.
use couchlink.Base.{◌≡◌, refl, arith, [], ◌∷◌, true, false, leb, ◌==◌, if◌then◌else◌}
use couchlink.Proto.Buffer.{Bytes}
use couchlink.Host.Motion.{MotionDetector, new, tiles, seed, is_idle}
use couchlink.Host.Motion.Static.{after, is_idle-static}
use couchlink.Host.Motion.Moving.{moved_tiles, is_idle-moved}

-- A screen of one pixel, dark and then bright.
abbrev dark : Bytes
dark = 10 ∷ 10 ∷ 10 ∷ 255 ∷ []

abbrev bright : Bytes
bright = 200 ∷ 200 ∷ 200 ∷ 255 ∷ []

abbrev detector : MotionDetector
detector = record {
  prev = seed dark (tiles (new 1 1));
  width = 1;
  height = 1;
  tile = 16;
  idle_streak = 3;
}

is_idle-static_example : (is_idle (after detector dark 6) dark).1 ≡ true
is_idle-static_example = is_idle-static detector dark 6 refl (omega arith)

is_idle-moved_example : is_idle detector bright ≡ (
    if moved_tiles dark bright (tiles detector) == 0
    then (record detector { prev = seed bright (tiles detector); idle_streak = 4 }, leb 6 4)
    else (record detector { prev = seed bright (tiles detector); idle_streak = 0 }, false))
unfolding seed tiles new
is_idle-moved_example = is_idle-moved detector dark bright refl refl
