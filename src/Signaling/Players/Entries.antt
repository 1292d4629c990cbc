-- ===== src/Signaling/Players/Entries.antt =====
-- The entries of a slot table: searches, writes, and lists in which no channel stands twice.
use couchlink.Base.{
  ◌∙◌, Bool-cases, ℕ, zero, suc, ◌<◌, ◌≡◌, ◌≢◌, refl, arith, List, [], ◌∷◌, Option, none, some,
  true, false, ◌==◌, if◌then◌else◌, get_elem?, set, length, inl, inr, Option-cases,
}
use couchlink.Signaling.Channels.{Channels}
use couchlink.Signaling.Players.{flat, free_position, held_position}

module _ (ch : Channels) where
  open ch use {Sender, same_channel}

  -- Nobody holds the channel of `tx` in these entries.
  abbrev pub Free : Sender → List (Option Sender) → Type 0
  Free tx [] = Unit {0}
  Free tx (none ∷ ss) = Free tx ss
  Free tx (some s ∷ ss) = (same_channel s tx ≡ false) × Free tx ss

  -- No channel holds two entries.
  abbrev pub Distinct : List (Option Sender) → Type 0
  Distinct [] = Unit {0}
  Distinct (none ∷ ss) = Distinct ss
  Distinct (some s ∷ ss) = Free s ss × Distinct ss

  -- Who sits at index `i`.
  abbrev pub at : List (Option Sender) → ℕ → Option Sender
  at ss i = flat ch (get_elem? ss i)

  -- The first free entry: free, and every entry below it taken.
  pub free_position-some :
      (ss : List (Option Sender)) (i : ℕ)
      → free_position ch ss ≡ some i
      → (get_elem? ss i ≡ some none) × ((j : ℕ) → j < i → at ss j ≢ none)
  unfolding free_position
  free_position-some [] i e = cc
  free_position-some (none ∷ ss) i e = (ground arith, λ j lt. ground arith)
  free_position-some (some s ∷ ss) i e = elim (Option-cases (free_position ch ss)) [
    | inl n ↦ cc (n, e)
    | inr (k, n) ↦
        let (here, below) = free_position-some ss k n in
        let is_suc : i ≡ suc k = ground arith in rw is_suc (here, λ j lt. taken j below lt)
  ]
    where
      taken :
          (j : ℕ) {k : ℕ}
          → ((j : ℕ) → j < k → at ss j ≢ none)
          → j < suc k
          → at (some s ∷ ss) j ≢ none
      taken zero below lt = λ p. cc
      taken (suc j) below lt = below j (omega arith)

  pub free_position-none :
      (ss : List (Option Sender))
      → free_position ch ss ≡ none
      → (j : ℕ) → j < length ss
      → at ss j ≢ none
  unfolding free_position
  free_position-none [] e j lt = absurd (omega arith)
  free_position-none (none ∷ ss) e j lt = cc
  free_position-none (some s ∷ ss) e zero lt = λ p. cc
  free_position-none (some s ∷ ss) e (suc j) lt =
      free_position-none ss (ground arith) j (omega arith)

  pub at-set :
      (ss : List (Option Sender)) (i j : ℕ) (v : Option Sender)
      → i < length ss
      → at (set ss i v) j ≡ (if i == j then v else at ss j)
  at-set [] i j v lt = absurd (omega arith)
  at-set (x ∷ ss) zero zero v lt = refl
  at-set (x ∷ ss) zero (suc j) v lt = ground arith
  at-set (x ∷ ss) (suc i) zero v lt = ground arith
  at-set (x ∷ ss) (suc i) (suc j) v lt = ground (arith, at-set ss i j v (omega arith))

  pub held_position-some :
      (ss : List (Option Sender)) (tx : Sender) (i : ℕ)
      → held_position ch ss tx ≡ some i
      → (s : Sender) × (get_elem? ss i ≡ some (some s)) × (same_channel s tx ≡ true)
  unfolding held_position
  held_position-some [] tx i e = cc
  held_position-some (none ∷ ss) tx i e = elim (Option-cases (held_position ch ss tx)) [
    | inl n ↦ cc (n, e)
    | inr (k, n) ↦
        let (s, here, same) = held_position-some ss tx k n in
        let is_suc : i ≡ suc k = ground arith in (s, rw is_suc here, same)
  ]
  held_position-some (some x ∷ ss) tx i e = elim (Bool-cases (same_channel x tx)) [
    | inl y ↦ (x, ground arith, y)
    | inr n ↦ elim (Option-cases (held_position ch ss tx)) [
      | inl m ↦ absurd (ground arith)
      | inr (k, m) ↦
          let (s, here, same) = held_position-some ss tx k m in
          let is_suc : i ≡ suc k = ground arith in (s, rw is_suc here, same)
    ]
  ]

  pub held_position-none :
      (ss : List (Option Sender)) (tx : Sender) → held_position ch ss tx ≡ none → Free tx ss
  unfolding held_position
  held_position-none [] tx e = tt
  held_position-none (none ∷ ss) tx e = held_position-none ss tx (ground arith)
  held_position-none (some x ∷ ss) tx e = (ground arith, held_position-none ss tx (ground arith))

  pub Free-held_position :
      (ss : List (Option Sender)) (tx : Sender) → Free tx ss → held_position ch ss tx ≡ none
  unfolding held_position
  Free-held_position [] tx f = refl
  Free-held_position (none ∷ ss) tx f = ground (arith, Free-held_position ss tx f)
  Free-held_position (some x ∷ ss) tx f = ground (arith, Free-held_position ss tx f.1)

  Free-set-some :
      (ss : List (Option Sender)) (i : ℕ) (s tx : Sender)
      → Free s ss
      → same_channel tx s ≡ false
      → Free s (set ss i (some tx))
  Free-set-some [] i s tx f n = tt
  Free-set-some (none ∷ ss) zero s tx f n = (n, f)
  Free-set-some (some x ∷ ss) zero s tx f n = (n, f.1)
  Free-set-some (none ∷ ss) (suc i) s tx f n = Free-set-some ss i s tx f n
  Free-set-some (some x ∷ ss) (suc i) s tx f n = (f.0, Free-set-some ss i s tx f.1 n)

  Free-set-none :
      (ss : List (Option Sender)) (i : ℕ) (s : Sender) → Free s ss → Free s (set ss i none)
  Free-set-none [] i s f = tt
  Free-set-none (none ∷ ss) zero s f = f
  Free-set-none (some x ∷ ss) zero s f = f.1
  Free-set-none (none ∷ ss) (suc i) s f = Free-set-none ss i s f
  Free-set-none (some x ∷ ss) (suc i) s f = (f.0, Free-set-none ss i s f.1)

  pub Distinct-set-some :
      (ss : List (Option Sender)) (i : ℕ) (tx : Sender)
      → Distinct ss
      → Free tx ss
      → Distinct (set ss i (some tx))
  Distinct-set-some [] i tx d f = tt
  Distinct-set-some (none ∷ ss) zero tx d f = (f, d)
  Distinct-set-some (some x ∷ ss) zero tx d f = (f.1, d.1)
  Distinct-set-some (none ∷ ss) (suc i) tx d f = Distinct-set-some ss i tx d f
  Distinct-set-some (some x ∷ ss) (suc i) tx d f =
      (Free-set-some ss i x tx d.0 (ch.same_sym tx x ∙ f.0), Distinct-set-some ss i tx d.1 f.1)

  pub Distinct-set-none :
      (ss : List (Option Sender)) (i : ℕ) → Distinct ss → Distinct (set ss i none)
  Distinct-set-none [] i d = tt
  Distinct-set-none (none ∷ ss) zero d = d
  Distinct-set-none (some x ∷ ss) zero d = d.1
  Distinct-set-none (none ∷ ss) (suc i) d = Distinct-set-none ss i d
  Distinct-set-none (some x ∷ ss) (suc i) d = (Free-set-none ss i x d.0, Distinct-set-none ss i d.1)

  -- A sender on the channel of a seated one is held apart from all that the seated one is.
  Free-same :
      (ss : List (Option Sender)) (s tx : Sender)
      → same_channel s tx ≡ true
      → Free s ss
      → Free tx ss
  Free-same [] s tx e f = tt
  Free-same (none ∷ ss) s tx e f = Free-same ss s tx e f
  Free-same (some x ∷ ss) s tx e f = (
    elim (Bool-cases (same_channel x tx)) [
      | inl y ↦ ground (arith, ch.same_trans x tx s y (ch.same_sym tx s ∙ e), f.0)
      | inr n ↦ n
    ],
    Free-same ss s tx e f.1,
  )

  pub Free-at :
      (ss : List (Option Sender)) (i : ℕ) (s tx : Sender)
      → Free tx ss
      → get_elem? ss i ≡ some (some s)
      → same_channel s tx ≡ false
  Free-at [] i s tx f e = cc
  Free-at (none ∷ ss) zero s tx f e = cc
  Free-at (some x ∷ ss) zero s tx f e = ground (arith, f.0)
  Free-at (none ∷ ss) (suc i) s tx f e = Free-at ss i s tx f e
  Free-at (some x ∷ ss) (suc i) s tx f e = Free-at ss i s tx f.1 e

  pub Free-vacated :
      (ss : List (Option Sender)) (i : ℕ) (s tx : Sender)
      → Distinct ss
      → get_elem? ss i ≡ some (some s)
      → same_channel s tx ≡ true
      → Free tx (set ss i none)
  Free-vacated [] i s tx d e same = tt
  Free-vacated (none ∷ ss) zero s tx d e same = cc
  Free-vacated (some x ∷ ss) zero s tx d e same = Free-same ss x tx (ground arith) d.0
  Free-vacated (none ∷ ss) (suc i) s tx d e same = Free-vacated ss i s tx d e same
  Free-vacated (some x ∷ ss) (suc i) s tx d e same = (
    elim (Bool-cases (same_channel x tx)) [
      | inl y ↦
          ground (arith, ch.same_trans s tx x same (ch.same_sym tx x ∙ y), Free-at ss i s x d.0 e)
      | inr n ↦ n
    ],
    Free-vacated ss i s tx d.1 e same,
  )
