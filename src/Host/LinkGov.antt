-- ===== src/Host/LinkGov.antt =====
-- crates/host/src/link_gov.rs: the link governor, which commands the encoder down the ladder of targets
-- while the link sheds frames and up again while it is clean. A panic is `none`.
pub mod Ladder
pub mod Bounds
pub mod Recovery
pub mod Stuck
use couchlink.Base.{
  ℕ, zero, suc, ◌+◌, ◌-◌, ◌*◌, ◌/◌, ◌%◌, ◌^◌, min, max, arith, List, [], ◌∷◌, ◌++◌, Option, none,
  some, Bool, true, false, ltb, leb, not, ◌&&◌, ◌||◌, ◌==◌, if◌then◌else◌, length, get_elem?,
}
use mathlib.Core.Option

-- capture-bridge's `EncodeTarget`.
pub record EncodeTarget : Type 0 where
  pub width : ℕ
  pub height : ℕ
  pub fps : ℕ
  pub bitrate_kbps : ℕ

abbrev pub down_trigger_pct : ℕ
down_trigger_pct = 8

abbrev pub severe_shed_pct : ℕ
severe_shed_pct = 12

abbrev pub down_after_windows : ℕ
down_after_windows = 2

abbrev pub severe_down_after_windows : ℕ
severe_down_after_windows = 1

abbrev pub up_after_clean_windows : ℕ
up_after_clean_windows = 2

pub record LinkGov : Type 0 where
  pub baseline : EncodeTarget
  pub current : EncodeTarget
  pub clean_windows : ℕ
  pub bad_windows : ℕ
  pub client_congestion_seen : Bool
  pub client_loss_window : Bool

-- The derived `==` of targets.
abbrev pub target_eq : EncodeTarget → EncodeTarget → Bool
target_eq s t =
    s.width == t.width && s.height == t.height && s.fps == t.fps && s.bitrate_kbps == t.bitrate_kbps

-- The bitrate at a share of the baseline's, multiplied in 64 bits.
abbrev pub cut : EncodeTarget → ℕ → EncodeTarget
cut baseline pct = record baseline { bitrate_kbps = baseline.bitrate_kbps * pct / 100 % 2 ^ 32 }

abbrev pub floor_fps : EncodeTarget → ℕ
floor_fps baseline = min (max (baseline.fps * 5 % 2 ^ 32 / 9) 45) baseline.fps

abbrev pub next_fps : ℕ → ℕ → ℕ
next_fps floor fps = max (fps - max (fps / 7) 6) floor

-- The fps rungs below `fps`, at the target `low`: at most `n`.
unfoldable pub fps_rungs : ℕ → ℕ → EncodeTarget → ℕ → List EncodeTarget
fps_rungs zero floor low fps = []
fps_rungs (suc n) floor low fps =
    let next = next_fps floor fps in
    let rest = fps_rungs n floor low next in
    if leb fps next then [] else record low { fps = next } ∷ rest

abbrev pub any_target : List EncodeTarget → EncodeTarget → Bool
any_target [] t = false
any_target (r ∷ rs) t = target_eq r t || any_target rs t

-- The same loop without congestion: a rung that stands already is not added again.
unfoldable pub new_fps_rungs : ℕ → ℕ → EncodeTarget → ℕ → List EncodeTarget → List EncodeTarget
new_fps_rungs zero floor baseline fps rungs = rungs
new_fps_rungs (suc n) floor baseline fps rungs =
    let next = next_fps floor fps in
    let extra : EncodeTarget = record baseline { fps = next } in
    let rest =
      new_fps_rungs n floor baseline next
        (if any_target rungs extra then rungs else rungs ++ extra ∷ []) in
    if leb fps next then rungs else rest

unfoldable pub rungs_from_inner : EncodeTarget → Bool → List EncodeTarget
rungs_from_inner baseline true =
    baseline
    ∷ cut baseline 80
    ∷ cut baseline 60
    ∷ cut baseline 40
    ∷ fps_rungs 4 (floor_fps baseline) (cut baseline 40) baseline.fps
rungs_from_inner baseline false =
    new_fps_rungs 4 (floor_fps baseline) baseline baseline.fps (baseline ∷ [])

-- `saturating_add` on 32 bits
abbrev pub saturating_add : ℕ → ℕ → ℕ
saturating_add a b = min (a + b) (2 ^ 32 - 1)

unfoldable pub client_report_is_congested : ℕ → ℕ → ℕ → Bool
client_report_is_congested lost received freezes =
    let total = saturating_add lost received in
    (leb 200 total && leb (2 * total) (lost * 100)) || leb 2 freezes

unfoldable pub index_of : List EncodeTarget → EncodeTarget → Option ℕ
index_of [] t = none
index_of (r ∷ rs) t =
    let rest = Option.map suc (index_of rs t) in if target_eq r t then some 0 else rest

unfoldable pub new : EncodeTarget → LinkGov
new baseline = record {
  baseline = baseline;
  current = baseline;
  clean_windows = 0;
  bad_windows = 0;
  client_congestion_seen = false;
  client_loss_window = false;
}

unfoldable pub note_client_congestion : LinkGov → LinkGov
note_client_congestion g = record g { client_congestion_seen = true }

unfoldable pub note_client_loss : LinkGov → LinkGov
note_client_loss g = record g { client_congestion_seen = true; client_loss_window = true }

-- `rungs[(i + 1).min(rungs.len() - 1)]`, or the current target when it is on no rung; `none` is an
-- index out of bounds.
unfoldable pub step_down : List EncodeTarget → EncodeTarget → Option EncodeTarget
step_down rungs current = elim (index_of rungs current) [
  | none ↦ some current
  | some i ↦ get_elem? rungs (min (i + 1) (length rungs - 1))
]

unfoldable pub step_up : List EncodeTarget → EncodeTarget → Option EncodeTarget
step_up rungs current = elim (index_of rungs current) [
  | none ↦ some current
  | some zero ↦ some current
  | some (suc i) ↦ get_elem? rungs i
]

abbrev pub move_to : LinkGov → Option EncodeTarget → Option LinkGov
move_to g none = none
move_to g (some step) = some (record g { current = step })

-- The branch of a bad window, in which `need` of them step down.
unfoldable pub bad_window : LinkGov → List EncodeTarget → ℕ → Option LinkGov
bad_window g rungs need =
    let bad = (g.bad_windows + 1) % 2 ^ 32 in
    if leb need bad
    then move_to (record g { clean_windows = 0; bad_windows = 0 }) (step_down rungs g.current)
    else some (record g { clean_windows = 0; bad_windows = bad })

unfoldable pub clean_window : LinkGov → List EncodeTarget → Option LinkGov
clean_window g rungs =
    let clean = (g.clean_windows + 1) % 2 ^ 32 in
    if leb up_after_clean_windows clean
    then move_to (record g { bad_windows = 0; clean_windows = 0 }) (step_up rungs g.current)
    else some (record g { bad_windows = 0; clean_windows = clean })

-- The share of the frames that were shed, in percent; the product wraps at 32 bits.
abbrev pub drop_pct : ℕ → ℕ → ℕ
drop_pct shed zero = 0
drop_pct shed (suc n) = shed * 100 % 2 ^ 32 / suc n

-- The governor that decides on a window: the client's loss is taken out, a severe shed is remembered.
unfoldable pub take_window : LinkGov → ℕ → LinkGov
take_window g pct = record g {
  client_loss_window = false;
  client_congestion_seen = g.client_congestion_seen || leb severe_shed_pct pct;
}

-- The governor after a window; its `current` is what the call returns.
unfoldable pub on_window : LinkGov → ℕ → ℕ → Option LinkGov
on_window g shed sent =
    let pct = drop_pct shed sent in
    let g' = take_window g pct in
    let rungs = rungs_from_inner g'.baseline g'.client_congestion_seen in
    if ltb down_trigger_pct pct || g.client_loss_window
    then bad_window g' rungs
        (if leb severe_shed_pct pct then severe_down_after_windows else down_after_windows)
    else clean_window g' rungs
