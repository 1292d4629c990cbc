-- ===== src/Host/Peer/Watermark.antt =====
-- `note_input_wm` of crates/host/src/webrtc_peer.rs, by any number of callers at the same time.
use couchlink.Base.{ℕ, ◌<◌, ◌≤◌, ◌≡◌, refl, arith, ◌≢◌, ◌==◌, if◌then◌else◌, inl, inr, ◌⊎◌}

-- Where a call stands: before its load, with what it has loaded, or at its end.
pub data Call : Type 0 where
  outside : Call
  loading : (seq : ℕ) → Call
  loaded : (seq cur : ℕ) → Call
  noted : (seq : ℕ) → Call

-- The watermark, and every call.
pub record Watermark : Type 0 where
  pub wm : ℕ
  pub at : ℕ → Call

abbrev pub go : (ℕ → Call) → ℕ → Call → ℕ → Call
go f i c j = if i == j then c else f j

-- What one call does next. A relaxed load may give a value that has been overtaken, and the exchange may fail
-- for no reason, but it succeeds only on the value of that instant.
pub data Step (s : Watermark) : Watermark → Type 0 where
  enter : (i seq : ℕ) → s.at i ≡ outside → Step s (record s { at = go s.at i (loading seq) })
  load :
      (i seq cur : ℕ)
      → s.at i ≡ loading seq
      → cur ≤ s.wm
      → Step s (record s { at = go s.at i (loaded seq cur) })
  older :
      (i seq cur : ℕ)
      → s.at i ≡ loaded seq cur
      → seq ≤ cur
      → Step s (record s { at = go s.at i (noted seq) })
  exchange :
      (i seq cur : ℕ)
      → s.at i ≡ loaded seq cur
      → cur < seq
      → s.wm ≡ cur
      → Step s (record { wm = seq; at = go s.at i (noted seq) })
  retry :
      (i seq cur : ℕ)
      → s.at i ≡ loaded seq cur
      → cur < seq
      → Step s (record s { at = go s.at i (loading seq) })

abbrev pub quiet : ℕ → Watermark
quiet wm = record { wm = wm; at = λ i. outside }

pub data Reach (s : Watermark) : Watermark → Type 0 where
  here : Reach s s
  next : {t u : Watermark} → Reach s t → Step t u → Reach s u

-- What holds of the watermark: it is no less than `low` and than what has been noted, it is one of these, and no
-- value that was loaded is more than it.
record IsMaximum (low : ℕ) (s : Watermark) : Type 0 where
  start : low ≤ s.wm
  all : (i seq : ℕ) → s.at i ≡ noted seq → seq ≤ s.wm
  read : (i seq cur : ℕ) → s.at i ≡ loaded seq cur → cur ≤ s.wm
  reached : (s.wm ≡ low) ⊎ ((i : ℕ) × (s.at i ≡ noted s.wm))

module _ (low : ℕ) (s : Watermark) (h : IsMaximum low s) (i : ℕ)
    (unfinished : (n : ℕ) → s.at i ≢ noted n) where
  go-reached : (c : Call) → (s.wm ≡ low) ⊎ ((j : ℕ) × (go s.at i c j ≡ noted s.wm))
  go-reached c = elim h.reached [
    | inl first ↦ inl first
    | inr (j, e) ↦ inr (j, ground (arith, e, unfinished s.wm))
  ]

  -- A call moves on and leaves the watermark as it is.
  go-IsMaximum :
      (c : Call)
      → ((n : ℕ) → c ≡ noted n → n ≤ s.wm)
      → ((n cur : ℕ) → c ≡ loaded n cur → cur ≤ s.wm)
      → IsMaximum low (record s { at = go s.at i c })
  go-IsMaximum c p q = record {
    start = h.start;
    all = λ j n e. ground (arith, h.all j n, p n);
    read = λ j n cur e. ground (arith, h.read j n cur, q n cur);
    reached = go-reached c;
  }

  exchange-IsMaximum :
      (seq : ℕ) → s.wm < seq → IsMaximum low (record { wm = seq; at = go s.at i (noted seq) })
  exchange-IsMaximum seq lt = record {
    start = omega (arith, h.start);
    all = λ j n e. ground (arith, h.all j n);
    read = λ j n cur e. ground (arith, h.read j n cur);
    reached = inr (i, ground arith);
  }

Step-IsMaximum : {s t : Watermark} (low : ℕ) → IsMaximum low s → Step s t → IsMaximum low t
Step-IsMaximum {s} low h (enter i seq e) =
    go-IsMaximum low s h i (λ n f. cc) (loading seq) (λ n f. cc) (λ n c f. cc)
Step-IsMaximum {s} low h (load i seq cur e le) =
    go-IsMaximum low s h i (λ n f. cc) (loaded seq cur) (λ n f. cc) (λ n c f. ground arith)
Step-IsMaximum {s} low h (older i seq cur e le) =
    go-IsMaximum low s h i (λ n f. cc) (noted seq) (λ n f. ground (arith, h.read i seq cur e))
      (λ n c f. cc)
Step-IsMaximum {s} low h (exchange i seq cur e lt same) =
    exchange-IsMaximum low s h i (λ n f. cc) seq (omega arith)
Step-IsMaximum {s} low h (retry i seq cur e lt) =
    go-IsMaximum low s h i (λ n f. cc) (loading seq) (λ n f. cc) (λ n c f. cc)

Reach-IsMaximum : {s t : Watermark} (low : ℕ) → IsMaximum low s → Reach s t → IsMaximum low t
Reach-IsMaximum low h here = h
Reach-IsMaximum low h (next r st) = Step-IsMaximum low (Reach-IsMaximum low h r) st

quiet-IsMaximum : (low : ℕ) → IsMaximum low (quiet low)
quiet-IsMaximum low = record {
  start = omega arith;
  all = λ i n. cc;
  read = λ i n c. cc;
  reached = inl refl;
}

-- However the calls interleave, whatever stale values they load and however often an exchange fails, the
-- watermark is the greatest of the value before them and of the sequence numbers of the calls that have ended.
pub Reach-greatest :
    (low : ℕ) (t : Watermark)
    → Reach (quiet low) t
    → (low ≤ t.wm)
      × ((i seq : ℕ) → t.at i ≡ noted seq → seq ≤ t.wm)
      × ((t.wm ≡ low) ⊎ ((i : ℕ) × (t.at i ≡ noted t.wm)))
Reach-greatest low t r =
    let h = Reach-IsMaximum low (quiet-IsMaximum low) r in (h.start, h.all, h.reached)
