-- ===== src/Host/LinkGov/Stuck.antt =====
-- A governor that has seen congestion and commands a target off the congested ladder.
use couchlink.Base.{
  ℕ, ◌+◌, ◌%◌, ◌^◌, ◌≡◌, refl, List, [], ◌∷◌, Option, none, some, true, false, leb, ltb, ◌||◌, inl,
  inr, Bool-cases,
}
use couchlink.Host.LinkGov.{
  down_trigger_pct, up_after_clean_windows, EncodeTarget, LinkGov, rungs_from_inner, index_of,
  step_down, step_up, bad_window, clean_window, take_window, on_window, note_client_congestion,
  note_client_loss, drop_pct,
}
use couchlink.Host.LinkGov.Bounds.{Observation, congestion, loss, window, observe, observe_all}

-- Congestion was seen, and the target is on no rung of the ladder for it.
pub record IsOff (b t : EncodeTarget) (g : LinkGov) : Type 0 where
  pub same_baseline : g.baseline ≡ b
  pub same_current : g.current ≡ t
  pub seen : g.client_congestion_seen ≡ true
  pub off : index_of (rungs_from_inner b true) t ≡ none

abbrev Stays : EncodeTarget → EncodeTarget → Option LinkGov → Type 0
Stays b t o = (g : LinkGov) × (o ≡ some g) × IsOff b t g

counted :
    (b t : EncodeTarget) (g : LinkGov) (bad clean : ℕ)
    → IsOff b t g
    → IsOff b t (record g { bad_windows = bad; clean_windows = clean })
counted b t g bad clean h = record {
  same_baseline = h.same_baseline;
  same_current = h.same_current;
  seen = h.seen;
  off = h.off;
}

bad_window-Stays :
    (b t : EncodeTarget) (g : LinkGov) (need : ℕ)
    → IsOff b t g
    → Stays b t (bad_window g (rungs_from_inner b true) need)
unfolding bad_window step_down
bad_window-Stays b t g need h = elim (Bool-cases (leb need ((g.bad_windows + 1) % 2 ^ 32))) [
  | inl y ↦ rw y (
      rw h.same_current (
        rw (h.off, step_down)
          (
            _,
            refl,
            record {
              same_baseline = h.same_baseline;
              same_current = refl;
              seen = h.seen;
              off = h.off;
            },
          )))
  | inr n ↦ rw n (_, refl, counted b t g _ 0 h)
]

clean_window-Stays :
    (b t : EncodeTarget) (g : LinkGov)
    → IsOff b t g
    → Stays b t (clean_window g (rungs_from_inner b true))
unfolding clean_window step_up
clean_window-Stays b t g h =
    elim (Bool-cases (leb up_after_clean_windows ((g.clean_windows + 1) % 2 ^ 32))) [
      | inl y ↦ rw y (
          rw h.same_current (
            rw (h.off, step_up)
              (
                _,
                refl,
                record {
                  same_baseline = h.same_baseline;
                  same_current = refl;
                  seen = h.seen;
                  off = h.off;
                },
              )))
      | inr n ↦ rw n (_, refl, counted b t g 0 _ h)
    ]

on_window-Stays :
    (b t : EncodeTarget) (g : LinkGov) (shed sent : ℕ)
    → IsOff b t g
    → Stays b t (on_window g shed sent)
unfolding on_window take_window
on_window-Stays b t g shed sent h =
    let pct = drop_pct shed sent in
    let g' : LinkGov = record g {
      baseline = b;
      client_congestion_seen = true;
      client_loss_window = false;
    } in
    let h' : IsOff b t g' = record {
      same_baseline = refl;
      same_current = h.same_current;
      seen = refl;
      off = h.off;
    } in
    rw h.same_baseline (
      rw h.seen (elim (Bool-cases (ltb down_trigger_pct pct || g.client_loss_window)) [
        | inl y ↦ rw y (bad_window-Stays b t g' _ h')
        | inr n ↦ rw n (clean_window-Stays b t g' h')
      ]))

observe-Stays :
    (b t : EncodeTarget) (g : LinkGov) (o : Observation) → IsOff b t g → Stays b t (observe g o)
unfolding observe note_client_congestion note_client_loss
observe-Stays b t g (window shed sent) h = on_window-Stays b t g shed sent h
observe-Stays b t g congestion h = (
  _,
  refl,
  record {
    same_baseline = h.same_baseline;
    same_current = h.same_current;
    seen = refl;
    off = h.off;
  },
)
observe-Stays b t g loss h = (
  _,
  refl,
  record {
    same_baseline = h.same_baseline;
    same_current = h.same_current;
    seen = refl;
    off = h.off;
  },
)

-- A governor that has seen congestion, and whose target is on no rung of the ladder for it, commands
-- that same target for ever: no sequence of observations makes it step down or up.
pub observe_all-stuck :
    (b t : EncodeTarget) (g : LinkGov) (os : List Observation)
    → IsOff b t g
    → (g' : LinkGov) × (observe_all g os ≡ some g') × (g'.current ≡ t)
unfolding observe_all
observe_all-stuck b t g [] h = (g, refl, h.same_current)
observe_all-stuck b t g (o ∷ os) h =
    let (g', e, h') = observe-Stays b t g o h in
    rw (e, observe_all) (observe_all-stuck b t g' os h')
