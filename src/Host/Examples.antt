-- ===== src/Host/Examples.antt =====
-- Concrete runs of the link governor, from the preset that its tests use.
use couchlink.Base.{ℕ, ◌≡◌, refl, arith, List, [], ◌∷◌, some, true, false, map}
use couchlink.Host.LinkGov.{
  EncodeTarget, LinkGov, new, on_window, rungs_from_inner, index_of, bad_window, take_window,
  step_down, fps_rungs, new_fps_rungs,
}
use couchlink.Host.LinkGov.Ladder.{IsRung}
use couchlink.Host.LinkGov.Bounds.{
  observe, Observation, loss, window, observe, observe_all, observed-within_baseline,
}
use couchlink.Host.LinkGov.Recovery.{IsOn, quiet-back_to_baseline}
use couchlink.Host.LinkGov.Stuck.{IsOff, observe_all-stuck}

abbrev p720 : EncodeTarget
p720 = record { width = 1280; height = 720; fps = 60; bitrate_kbps = 10_000 }

abbrev rough : List Observation
rough = window 9 100 ∷ window 9 100 ∷ loss ∷ window 15 100 ∷ []

observed-within_baseline_example :
    (g : LinkGov) × (observe_all (new p720) rough ≡ some g)
    × IsRung p720 g.client_congestion_seen g.current
observed-within_baseline_example = observed-within_baseline p720 rough

-- One severe window has cut the bitrate by a fifth.
abbrev cut_once : LinkGov
cut_once = record {
  baseline = p720;
  current = record p720 { bitrate_kbps = 8_000 };
  clean_windows = 0;
  bad_windows = 0;
  client_congestion_seen = true;
  client_loss_window = false;
}

cut_once_reached : on_window (new p720) 15 100 ≡ some cut_once
unfolding on_window new bad_window take_window step_down index_of rungs_from_inner fps_rungs
cut_once_reached = refl

cut_once-IsOn : IsOn 1 p720 cut_once
unfolding rungs_from_inner index_of
cut_once-IsOn = record {
  same_baseline = refl;
  place = 1;
  on = refl;
  near = omega arith;
  no_loss = refl;
  few_clean = omega arith;
}

quiet-back_to_baseline_example :
    (g : LinkGov) × (observe_all cut_once
        (map (λ (w : ℕ × ℕ). window w.0 w.1) ((0, 60) ∷ (8, 100) ∷ []))
      ≡ some g)
    × (g.current ≡ p720)
quiet-back_to_baseline_example =
    quiet-back_to_baseline ((0, 60) ∷ (8, 100) ∷ []) 1 p720 cut_once cut_once-IsOn
      (omega arith, (omega arith, tt)) (omega arith)

-- Two mild windows have taken eight frames off; then a severe one is seen.
abbrev off_ladder : LinkGov
off_ladder = record {
  baseline = p720;
  current = record p720 { fps = 52 };
  clean_windows = 0;
  bad_windows = 0;
  client_congestion_seen = true;
  client_loss_window = false;
}

off_ladder_reached :
    observe_all (new p720) (window 9 100 ∷ window 9 100 ∷ window 15 100 ∷ []) ≡ some off_ladder
unfolding observe_all observe on_window new bad_window take_window step_down index_of
    rungs_from_inner new_fps_rungs fps_rungs
off_ladder_reached = refl

off_ladder-IsOff : IsOff p720 (record p720 { fps = 52 }) off_ladder
unfolding rungs_from_inner index_of fps_rungs
off_ladder-IsOff = record { same_baseline = refl; same_current = refl; seen = refl; off = refl }

observe_all-stuck_example :
    (g : LinkGov) × (observe_all off_ladder (window 0 60 ∷ window 40 100 ∷ window 40 100 ∷ [])
      ≡ some g)
    × (g.current ≡ record p720 { fps = 52 })
observe_all-stuck_example =
    observe_all-stuck p720 (record p720 { fps = 52 }) off_ladder
      (window 0 60 ∷ window 40 100 ∷ window 40 100 ∷ []) off_ladder-IsOff
