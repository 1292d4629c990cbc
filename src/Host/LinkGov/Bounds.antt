-- ===== src/Host/LinkGov/Bounds.antt =====
-- What the governor may command: whatever it observes, a target within its baseline.
use couchlink.Base.{
  ℕ, zero, suc, ◌+◌, ◌-◌, ◌%◌, ◌^◌, ◌≤◌, ◌<◌, ◌≡◌, refl, subst, min, arith, List, [], ◌∷◌, Option,
  none, some, Bool, true, false, leb, ltb, ◌||◌, length, get_elem?, All, inl, inr, Bool-cases,
  Option-cases,
}
use couchlink.Host.LinkGov.{
  up_after_clean_windows, down_trigger_pct, EncodeTarget, LinkGov, rungs_from_inner, index_of,
  step_down, step_up, bad_window, clean_window, move_to, take_window, on_window,
  note_client_congestion, note_client_loss, new, drop_pct, severe_shed_pct,
}
use couchlink.Host.LinkGov.Ladder.{
  IsRung, baseline-IsRung, rungs_from_inner-IsRung, index_of-some, All-get, get_elem?-within,
}

-- What the host tells the governor.
pub data Observation : Type 0 where
  congestion loss : Observation
  window : ℕ → ℕ → Observation

unfoldable pub observe : LinkGov → Observation → Option LinkGov
observe g congestion = some (note_client_congestion g)
observe g loss = some (note_client_loss g)
observe g (window shed sent) = on_window g shed sent

unfoldable pub observe_all : LinkGov → List Observation → Option LinkGov
observe_all g [] = some g
observe_all g (o ∷ os) = elim (observe g o) [ none ↦ none | some g' ↦ observe_all g' os ]

-- A step along the ladder finds a rung.
abbrev pub Stepped {κ} : (EncodeTarget → Type κ) → Option EncodeTarget → Type κ
Stepped P o = (t : EncodeTarget) × (o ≡ some t) × P t

at-Stepped {κ} :
    (P : EncodeTarget → Type κ) (rungs : List EncodeTarget) (i : ℕ)
    → All P rungs
    → i < length rungs
    → Stepped P (get_elem? rungs i)
at-Stepped P rungs i h lt =
    let (t, found) = get_elem?-within rungs i lt in (t, found, All-get P rungs i t h found)

pub step_down-Stepped {κ} :
    (P : EncodeTarget → Type κ) (rungs : List EncodeTarget) (current : EncodeTarget)
    → All P rungs
    → P current
    → Stepped P (step_down rungs current)
unfolding step_down
step_down-Stepped P rungs current h p = elim (Option-cases (index_of rungs current)) [
  | inl off ↦ rw (off, step_down) (current, refl, p)
  | inr (i, on) ↦
      let lt = (index_of-some rungs current i on).1 in
      rw (on, step_down) (at-Stepped P rungs (min (i + 1) (length rungs - 1)) h (omega arith))
]

pub step_up-Stepped {κ} :
    (P : EncodeTarget → Type κ) (rungs : List EncodeTarget) (current : EncodeTarget)
    → All P rungs
    → P current
    → Stepped P (step_up rungs current)
unfolding step_up
step_up-Stepped P rungs current h p = elim (Option-cases (index_of rungs current)) [
  | inl off ↦ rw (off, step_up) (current, refl, p)
  | inr (zero, on) ↦ rw (on, step_up) (current, refl, p)
  | inr (suc i, on) ↦
      let lt = (index_of-some rungs current (suc i) on).1 in
      rw (on, step_up) (at-Stepped P rungs i h (omega arith))
]

-- The governor of a baseline: its command is within the baseline, and both counters are below the
-- number of windows that they wait for.
pub record IsGov (b : EncodeTarget) (g : LinkGov) : Type 0 where
  pub same_baseline : g.baseline ≡ b
  pub within : IsRung b g.client_congestion_seen g.current
  pub few_bad : g.bad_windows < 2
  pub few_clean : g.clean_windows < 2

abbrev pub Governs : EncodeTarget → Option LinkGov → Type 0
Governs b o = (g : LinkGov) × (o ≡ some g) × IsGov b g

IsRung-seen : (b t : EncodeTarget) (c d : Bool) → IsRung b c t → IsRung b (c || d) t
IsRung-seen b t c d h = record {
  same_width = h.same_width;
  same_height = h.same_height;
  fps_most = h.fps_most;
  fps_least = h.fps_least;
  bitrate_most = h.bitrate_most;
  bitrate_held = λ e. h.bitrate_held (ground arith);
}

move_to-Governs :
    (b : EncodeTarget) (g : LinkGov) (o : Option EncodeTarget)
    → IsGov b g
    → Stepped (IsRung b g.client_congestion_seen) o
    → Governs b (move_to g o)
move_to-Governs b g o h (t, e, r) = rw e (
  record g { current = t },
  refl,
  record {
    same_baseline = h.same_baseline;
    within = r;
    few_bad = h.few_bad;
    few_clean = h.few_clean;
  },
)

reset :
    (b : EncodeTarget) (g : LinkGov) (bad clean : ℕ)
    → IsGov b g
    → bad < 2
    → clean < 2
    → IsGov b (record g { bad_windows = bad; clean_windows = clean })
reset b g bad clean h lt lt' = record {
  same_baseline = h.same_baseline;
  within = h.within;
  few_bad = lt;
  few_clean = lt';
}

noted :
    (b : EncodeTarget) (g : LinkGov) (l : Bool)
    → IsGov b g
    → IsGov b (record g { client_congestion_seen = true; client_loss_window = l })
noted b g l h = record {
  same_baseline = h.same_baseline;
  within = record {
    same_width = h.within.same_width;
    same_height = h.within.same_height;
    fps_most = h.within.fps_most;
    fps_least = h.within.fps_least;
    bitrate_most = h.within.bitrate_most;
    bitrate_held = λ e. cc;
  };
  few_bad = h.few_bad;
  few_clean = h.few_clean;
}

bad_window-Governs :
    (b : EncodeTarget) (g : LinkGov) (rungs : List EncodeTarget) (need : ℕ)
    → IsGov b g
    → All (IsRung b g.client_congestion_seen) rungs
    → need ≤ 2
    → Governs b (bad_window g rungs need)
unfolding bad_window
bad_window-Governs b g rungs need h l small =
    elim (Bool-cases (leb need ((g.bad_windows + 1) % 2 ^ 32))) [
      | inl y ↦ rw y (
          move_to-Governs b (record g { clean_windows = 0; bad_windows = 0 })
            (step_down rungs g.current) (reset b g 0 0 h (omega arith) (omega arith))
            (step_down-Stepped (IsRung b g.client_congestion_seen) rungs g.current l h.within))
      | inr n ↦
          rw n (_, refl, reset b g ((g.bad_windows + 1) % 2 ^ 32) 0 h (ground arith) (omega arith))
    ]

clean_window-Governs :
    (b : EncodeTarget) (g : LinkGov) (rungs : List EncodeTarget)
    → IsGov b g
    → All (IsRung b g.client_congestion_seen) rungs
    → Governs b (clean_window g rungs)
unfolding clean_window
clean_window-Governs b g rungs h l =
    elim (Bool-cases (leb up_after_clean_windows ((g.clean_windows + 1) % 2 ^ 32))) [
      | inl y ↦ rw y (
          move_to-Governs b (record g { bad_windows = 0; clean_windows = 0 })
            (step_up rungs g.current) (reset b g 0 0 h (omega arith) (omega arith))
            (step_up-Stepped (IsRung b g.client_congestion_seen) rungs g.current l h.within))
      | inr n ↦
          rw n
            (_, refl, reset b g 0 ((g.clean_windows + 1) % 2 ^ 32) h (omega arith) (ground arith))
    ]

on_window-Governs :
    (b : EncodeTarget) (g : LinkGov) (shed sent : ℕ) → IsGov b g → Governs b (on_window g shed sent)
unfolding on_window take_window
on_window-Governs b g shed sent h =
    let pct = drop_pct shed sent in
    let g' = take_window g pct in
    let seen = g'.client_congestion_seen in
    let h' : IsGov b g' = record {
      same_baseline = h.same_baseline;
      within = IsRung-seen b g.current g.client_congestion_seen (leb severe_shed_pct pct) h.within;
      few_bad = h.few_bad;
      few_clean = h.few_clean;
    } in
    let ladder : All (IsRung b seen) (rungs_from_inner g.baseline seen) =
      subst (λ x. All (IsRung x seen) (rungs_from_inner g.baseline seen)) h.same_baseline
        (rungs_from_inner-IsRung g.baseline seen) in
    elim (Bool-cases (ltb down_trigger_pct pct || g.client_loss_window)) [
      | inl y ↦
          rw y
            (bad_window-Governs b g' (rungs_from_inner g.baseline seen) _ h' ladder (ground arith))
      | inr n ↦ rw n (clean_window-Governs b g' (rungs_from_inner g.baseline seen) h' ladder)
    ]

observe-Governs :
    (b : EncodeTarget) (g : LinkGov) (o : Observation) → IsGov b g → Governs b (observe g o)
unfolding observe note_client_congestion note_client_loss
observe-Governs b g (window shed sent) h = on_window-Governs b g shed sent h
observe-Governs b g congestion h = (_, refl, noted b g g.client_loss_window h)
observe-Governs b g loss h = (_, refl, noted b g true h)

observe_all-Governs :
    (b : EncodeTarget) (os : List Observation) (g : LinkGov)
    → IsGov b g
    → Governs b (observe_all g os)
unfolding observe_all
observe_all-Governs b [] g h = (g, refl, h)
observe_all-Governs b (o ∷ os) g h =
    let (g', e, h') = observe-Governs b g o h in
    rw (e, observe_all) (observe_all-Governs b os g' h')

-- Whatever a new governor observes, in any order, it never panics, and it commands a target within its
-- baseline: the same picture, at most its frame rate and at least the smaller of that and 45, at most
-- its bitrate, and exactly its bitrate as long as no congestion was seen.
pub observed-within_baseline :
    (b : EncodeTarget) (os : List Observation)
    → (g : LinkGov) × (observe_all (new b) os ≡ some g)
      × IsRung b g.client_congestion_seen g.current
unfolding new
observed-within_baseline b os =
    let start : IsGov b (new b) = record {
      same_baseline = refl;
      within = baseline-IsRung b false;
      few_bad = omega arith;
      few_clean = omega arith;
    } in
    let (g, e, h) = observe_all-Governs b os (new b) start in (g, e, h.within)
