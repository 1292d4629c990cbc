-- ===== src/Capture/EncodeTarget.antt =====
-- crates/capture-bridge/src/encode_target.rs: what the encoder does with a new target.
use couchlink.Base.{
  ℕ, ◌≡◌, ◌≢◌, arith, Option, none, some, Bool, false, ◌==◌, ◌&&◌, ◌||◌, if◌then◌else◌, not,
}

-- The frame rate and the bitrate.
abbrev pub Target : Type 0
Target = ℕ × ℕ

pub data TargetPlan : Type 0 where
  keep rebuild : TargetPlan
  apply_bitrate : ℕ → TargetPlan

abbrev pub same_target : Target → Target → Bool
same_target s t = s.0 == t.0 && s.1 == t.1

abbrev pub is_target : Option Target → Target → Bool
is_target none t = false
is_target (some s) t = same_target s t

unfoldable pub plan_target_change : Target → Target → Option Target → TargetPlan
plan_target_change current wanted rejected =
    if same_target wanted current || is_target rejected wanted
    then keep
    else if wanted.0 == current.0
    then apply_bitrate wanted.1
    else rebuild

-- `Option::filter`
unfoldable pub fallback_after_failed_build : Target → Option Target → Option Target
fallback_after_failed_build attempted none = none
fallback_after_failed_build attempted (some good) =
    if not (same_target good attempted) then some good else none

-- What the encoder runs at after a plan, when a rebuild succeeds.
abbrev pub carried_out : Target → Target → TargetPlan → Target
carried_out current wanted keep = current
carried_out current wanted rebuild = wanted
carried_out current wanted (apply_bitrate rate) = (current.0, rate)

-- Unless the wanted target is the one that a build refused, the plan brings the encoder to it when it
-- is carried out; and a rebuild is planned only when the frame rate changes.
pub plan_target_change_lem :
    (current wanted : Target) (rejected : Option Target)
    → is_target rejected wanted ≡ false
    → (carried_out current wanted (plan_target_change current wanted rejected) ≡ wanted)
      × (wanted.0 ≡ current.0 → plan_target_change current wanted rejected ≢ rebuild)
unfolding plan_target_change
plan_target_change_lem (f, r) (f', r') rejected h = (ground arith, λ e e'. ground arith)

-- The fallback after a failed build, where there is one, is the last good target and not the one that
-- failed; so the build after it is another one.
pub fallback_after_failed_build_lem :
    (attempted good : Target) (last_good : Option Target)
    → fallback_after_failed_build attempted last_good ≡ some good
    → (last_good ≡ some good) × (good ≢ attempted)
unfolding fallback_after_failed_build
fallback_after_failed_build_lem attempted good none e = cc
fallback_after_failed_build_lem (f, r) (f', r') (some (g, s)) e = (ground arith, λ h. ground arith)
