-- ===== src/Host/LinkGov/Recovery.antt =====
-- A quiet link brings the governor back to its baseline.
use couchlink.Base.{
  subst, ℕ, zero, suc, ◌+◌, ◌-◌, ◌*◌, ◌%◌, ◌^◌, ◌≤◌, ◌<◌, ◌≡◌, refl, arith, List, [], ◌∷◌, ◌++◌,
  Option, some, Bool, true, false, leb, ltb, ◌||◌, inl, inr, Bool-cases, length, All, map,
  get_elem?,
}
use couchlink.Host.LinkGov.{
  EncodeTarget, LinkGov, rungs_from_inner, new_fps_rungs, index_of, step_up, clean_window,
  take_window, on_window, drop_pct, next_fps, up_after_clean_windows, down_trigger_pct, any_target,
  floor_fps,
}
use couchlink.Host.LinkGov.Ladder.{index_of-some, index_of-get, get_elem?-within}
use couchlink.Host.LinkGov.Bounds.{window, observe, observe_all}

-- A governor whose target is on its ladder, at most `i` rungs below the baseline.
pub record IsOn (i : ℕ) (b : EncodeTarget) (g : LinkGov) : Type 0 where
  pub same_baseline : g.baseline ≡ b
  pub place : ℕ
  pub on : index_of (rungs_from_inner g.baseline g.client_congestion_seen) g.current ≡ some place
  pub near : place ≤ i
  pub no_loss : g.client_loss_window ≡ false
  pub few_clean : g.clean_windows < 2

-- A window that sheds no more than the trigger.
abbrev pub IsQuiet : ℕ × ℕ → Type 0
IsQuiet w = drop_pct w.0 w.1 ≤ down_trigger_pct

new_fps_rungs-head :
    (n floor : ℕ) (b : EncodeTarget) (fps : ℕ) (r : EncodeTarget) (rs : List EncodeTarget)
    → get_elem? (new_fps_rungs n floor b fps (r ∷ rs)) 0 ≡ some r
unfolding new_fps_rungs
new_fps_rungs-head zero floor b fps r rs = refl
new_fps_rungs-head (suc n) floor b fps r rs = elim (Bool-cases (leb fps (next_fps floor fps))) [
  | inl y ↦ rw y refl
  | inr m ↦ elim (Bool-cases (any_target (r ∷ rs) (record b { fps = next_fps floor fps }))) [
    | inl y ↦ rw m (rw y (new_fps_rungs-head n floor b (next_fps floor fps) r rs))
    | inr k ↦ rw m (
        rw k (
          new_fps_rungs-head n floor b (next_fps floor fps) r
            (rs ++ (record b { fps = next_fps floor fps }) ∷ [])))
  ]
]

rungs_from_inner-head : (b : EncodeTarget) (c : Bool) → get_elem? (rungs_from_inner b c) 0 ≡ some b
unfolding rungs_from_inner
rungs_from_inner-head b true = refl
rungs_from_inner-head b false = new_fps_rungs-head 4 (floor_fps b) b b.fps b []

-- A step up finds a target that is nearer to the top.
step_up-nearer :
    (rs : List EncodeTarget) (t : EncodeTarget) (i k : ℕ)
    → index_of rs t ≡ some i
    → i ≤ k + 1
    → (t' : EncodeTarget) × (step_up rs t ≡ some t') × (j : ℕ) × (index_of rs t' ≡ some j) × (j ≤ k)
unfolding step_up
step_up-nearer rs t zero k e le = rw (e, step_up) (t, refl, 0, e, omega arith)
step_up-nearer rs t (suc i) k e le =
    let lt = (index_of-some rs t (suc i) e).1 in
    let (t', here) = get_elem?-within rs i (omega arith) in
    let (j, found, low) = index_of-get rs t' i here in
    rw (e, step_up) (t', here, j, found, omega arith)

abbrev Climbs : ℕ → EncodeTarget → ℕ → Option LinkGov → Type 0
Climbs i b n o = (g : LinkGov) × (o ≡ some g) × (k : ℕ) × IsOn k b g × (2 * k ≤ n + g.clean_windows)

clean_window-Climbs :
    (i n : ℕ) (b : EncodeTarget) (g : LinkGov)
    → IsOn i b g
    → 2 * i ≤ suc n + g.clean_windows
    → Climbs i b n (clean_window g (rungs_from_inner g.baseline g.client_congestion_seen))
unfolding clean_window
clean_window-Climbs i n b g h enough =
    let rungs = rungs_from_inner g.baseline g.client_congestion_seen in
    elim (Bool-cases (leb up_after_clean_windows ((g.clean_windows + 1) % 2 ^ 32))) [
      | inl y ↦
          let (t, e, j, found, low) =
            step_up-nearer rungs g.current h.place (i - 1) h.on (omega (arith, h.near)) in
          rw y (
            rw e (
              _,
              refl,
              i - 1,
              record {
                same_baseline = h.same_baseline;
                place = j;
                on = found;
                near = low;
                no_loss = h.no_loss;
                few_clean = omega arith;
              },
              ground arith,
            ))
      | inr m ↦ rw m (
        _,
        refl,
        i,
        record {
          same_baseline = h.same_baseline;
          place = h.place;
          on = h.on;
          near = h.near;
          no_loss = h.no_loss;
          few_clean = ground arith;
        },
        ground arith,
      )
    ]

on_window-Climbs :
    (i n : ℕ) (b : EncodeTarget) (g : LinkGov) (w : ℕ × ℕ)
    → IsOn i b g
    → IsQuiet w
    → 2 * i ≤ suc n + g.clean_windows
    → Climbs i b n (on_window g w.0 w.1)
unfolding on_window take_window
on_window-Climbs i n b g (shed, sent) h quiet enough =
    let g' : LinkGov = record g { client_loss_window = false } in
    let h' : IsOn i b g' = record {
      same_baseline = h.same_baseline;
      place = h.place;
      on = h.on;
      near = h.near;
      no_loss = refl;
      few_clean = h.few_clean;
    } in
    let mild : leb 12 (drop_pct shed sent) ≡ false = ground arith in
    let low : ltb 8 (drop_pct shed sent) ≡ false = ground arith in
    let seen : (g.client_congestion_seen || false) ≡ g.client_congestion_seen = ground arith in
    rw mild (rw low (rw h.no_loss (rw seen (clean_window-Climbs i n b g' h' enough))))

at_top : (b : EncodeTarget) (g : LinkGov) → IsOn 0 b g → g.current ≡ b
at_top b g h =
    let top : h.place ≡ 0 = omega (arith, h.near) in
    let (here, lt) =
      index_of-some (rungs_from_inner g.baseline g.client_congestion_seen) g.current h.place h.on in
    let head = rungs_from_inner-head g.baseline g.client_congestion_seen in
    cc (top, here, head, h.same_baseline)

-- A governor whose target is on its ladder, at most `i` rungs below the baseline, with no client loss
-- pending and fewer than two clean windows counted, commands its baseline again after windows that shed
-- no more than 8 percent, when there are at least `2 * i` of them, less the clean windows already
-- counted.
pub quiet-back_to_baseline :
    (ws : List (ℕ × ℕ)) (i : ℕ) (b : EncodeTarget) (g : LinkGov)
    → IsOn i b g
    → All IsQuiet ws
    → 2 * i ≤ length ws + g.clean_windows
    → (g' : LinkGov) × (observe_all g (map (λ w. window w.0 w.1) ws) ≡ some g') × (g'.current ≡ b)
unfolding observe_all observe
quiet-back_to_baseline [] i b g h quiet enough =
    (g, refl, at_top b g (subst (λ k. IsOn k b g) (omega (arith, h.few_clean)) h))
quiet-back_to_baseline (w ∷ ws) i b g h quiet enough =
    let (g', e, k, h', enough') = on_window-Climbs i (length ws) b g w h quiet.0 enough in
    rw (e, observe_all) (quiet-back_to_baseline ws k b g' h' quiet.1 enough')
