-- ===== src/Base/Slots.antt =====
-- A map keyed by numbers, as an association list.
use Prim.Native.Nat.{ℕ}
use mathlib.Core.Path.{◌≡◌, refl}
use mathlib.Core.Option.{Option, none, some}
use mathlib.Core.List.{List, [], ◌∷◌}
use native.Mathlib.Omega.{arith}
use mathlib.Core.Path.{◌∙◌}
use mathlib.Core.Logic.{inl, inr}
use couchlink.Base.Tests.{◌==◌, if◌then◌else◌, Bool-cases}

module _ {ℓ} {V : Type ℓ} where
  unfoldable pub find : ℕ → List (ℕ × V) → Option V
  find k [] = none
  find k ((j, v) ∷ m) = if j == k then some v else find k m

  -- Writes the entry of `k`, or adds one.
  unfoldable pub put : ℕ → V → List (ℕ × V) → List (ℕ × V)
  put k v [] = (k, v) ∷ []
  put k v ((j, w) ∷ m) = if j == k then (k, v) ∷ m else (j, w) ∷ put k v m

  -- A write shows at its key and nowhere else.
  pub find-put :
      (k j : ℕ) (v : V) (m : List (ℕ × V))
      → find j (put k v m) ≡ (if k == j then some v else find j m)
  unfolding find put
  find-put k j v [] = refl
  find-put k j v ((i, w) ∷ m) = ground (arith, find-put k j v m)

  -- No key has two entries.
  abbrev pub Unique : List (ℕ × V) → Type ℓ
  Unique [] = Unit {ℓ}
  Unique ((j, v) ∷ m) = (find j m ≡ none) × Unique m

  pub put-Unique : (k : ℕ) (v : V) (m : List (ℕ × V)) → Unique m → Unique (put k v m)
  unfolding put find
  put-Unique k v [] u = (refl, tt)
  put-Unique k v ((i, w) ∷ m) u = elim (Bool-cases (i == k)) [
    | inl same ↦ rw same (ground (arith, u.0), u.1)
    | inr other ↦ rw other (find-put k i v m ∙ ground (arith, u.0), put-Unique k v m u.1)
  ]

  unfoldable pub remove : ℕ → List (ℕ × V) → List (ℕ × V)
  remove k [] = []
  remove k ((j, w) ∷ m) = if j == k then m else (j, w) ∷ remove k m
