-- ===== src/Signaling/Session/Map.antt =====
-- The map from session ids to sessions, as an association list.
pub use couchlink.Base.{Text}
use couchlink.Base.{
  subst, ◌+◌, ◌≡◌, refl, arith, List, [], ◌∷◌, Option, none, some, true, false, bytes_eq,
  if◌then◌else◌, length, inl, inr, Bool-cases, bytes_eq→eq, bytes_eq_refl,
}

pub bytes_eq_trans : (j k l : Text) → bytes_eq j k ≡ true → bytes_eq j l ≡ bytes_eq k l
bytes_eq_trans j k l e = rw (bytes_eq→eq j k e)

module _ {ℓ} {V : Type ℓ} where
  unfoldable pub find : Text → List (Text × V) → Option V
  find k [] = none
  find k ((j, v) ∷ m) = let rest = find k m in if bytes_eq j k then some v else rest

  -- Writes the entry of `k`, or adds one.
  unfoldable pub put : Text → V → List (Text × V) → List (Text × V)
  put k v [] = (k, v) ∷ []
  put k v ((j, w) ∷ m) = let rest = put k v m in if bytes_eq j k then (j, v) ∷ m else (j, w) ∷ rest

  unfoldable pub remove : Text → List (Text × V) → List (Text × V)
  remove k [] = []
  remove k ((j, w) ∷ m) = let rest = remove k m in if bytes_eq j k then m else (j, w) ∷ rest

  -- A write shows at its key and nowhere else.
  pub find-put :
      (k l : Text) (v : V) (m : List (Text × V))
      → find l (put k v m) ≡ (if bytes_eq k l then some v else find l m)
  unfolding find put
  find-put k l v [] = refl
  find-put k l v ((j, w) ∷ m) = elim (Bool-cases (bytes_eq j k)) [
    | inl y ↦ rw (y, bytes_eq_trans j k l y) (ground arith)
    | inr n ↦ rw n (ground (arith, find-put k l v m, separate j k l))
  ]
    where
      separate : (j k l : Text) → bytes_eq j l ≡ true → bytes_eq k l ≡ true → bytes_eq j k ≡ true
      separate j k l p q = rw (bytes_eq→eq j l p, bytes_eq→eq k l q) (bytes_eq_refl l)

  -- A key without an entry.
  abbrev pub Fresh : Text → List (Text × V) → Type 0
  Fresh k [] = Unit {0}
  Fresh k ((j, w) ∷ m) = (bytes_eq j k ≡ false) × Fresh k m

  -- No key has two entries.
  abbrev pub Unique : List (Text × V) → Type 0
  Unique [] = Unit {0}
  Unique ((j, w) ∷ m) = Fresh j m × Unique m

  abbrev pub Values {κ} : (V → Type κ) → List (Text × V) → Type κ
  Values P [] = Unit {κ}
  Values P ((j, w) ∷ m) = P w × Values P m

  pub Values-find {κ} :
      (P : V → Type κ) (k : Text) (m : List (Text × V)) {v : V}
      → Values P m
      → find k m ≡ some v
      → P v
  unfolding find
  Values-find P k [] h e = cc
  Values-find P k ((j, w) ∷ m) h e = elim (Bool-cases (bytes_eq j k)) [
    | inl y ↦ subst P (ground arith) h.0
    | inr n ↦ Values-find P k m h.1 (ground arith)
  ]

  pub Values-put {κ} :
      (P : V → Type κ) (k : Text) (v : V) (m : List (Text × V))
      → Values P m
      → P v
      → Values P (put k v m)
  unfolding put
  Values-put P k v [] h p = (p, tt)
  Values-put P k v ((j, w) ∷ m) h p = elim (Bool-cases (bytes_eq j k)) [
    | inl y ↦ rw y (p, h.1)
    | inr n ↦ rw n (h.0, Values-put P k v m h.1 p)
  ]

  pub Values-remove {κ} :
      (P : V → Type κ) (k : Text) (m : List (Text × V)) → Values P m → Values P (remove k m)
  unfolding remove
  Values-remove P k [] h = tt
  Values-remove P k ((j, w) ∷ m) h = elim (Bool-cases (bytes_eq j k)) [
    | inl y ↦ rw y h.1
    | inr n ↦ rw n (h.0, Values-remove P k m h.1)
  ]

  Fresh-put :
      (l k : Text) (v : V) (m : List (Text × V))
      → Fresh l m
      → bytes_eq k l ≡ false
      → Fresh l (put k v m)
  unfolding put
  Fresh-put l k v [] h n = (n, tt)
  Fresh-put l k v ((j, w) ∷ m) h n = elim (Bool-cases (bytes_eq j k)) [
    | inl y ↦ rw y h
    | inr o ↦ rw o (h.0, Fresh-put l k v m h.1 n)
  ]

  pub Unique-put : (k : Text) (v : V) (m : List (Text × V)) → Unique m → Unique (put k v m)
  unfolding put
  Unique-put k v [] h = (tt, tt)
  Unique-put k v ((j, w) ∷ m) h = elim (Bool-cases (bytes_eq j k)) [
    | inl y ↦ rw y h
    | inr o ↦ rw o (Fresh-put j k v m h.0 (flip j k o), Unique-put k v m h.1)
  ]
    where
      flip : (j k : Text) → bytes_eq j k ≡ false → bytes_eq k j ≡ false
      flip j k o = elim (Bool-cases (bytes_eq k j)) [
        | inl y ↦ ground (
          arith,
          o,
          bytes_eq_refl j,
          bytes_eq_trans k j j y,
          bytes_eq_trans k j k y,
          bytes_eq_refl k,
        )
        | inr n ↦ n
      ]

  Fresh-remove : (l k : Text) (m : List (Text × V)) → Fresh l m → Fresh l (remove k m)
  unfolding remove
  Fresh-remove l k [] h = tt
  Fresh-remove l k ((j, w) ∷ m) h = elim (Bool-cases (bytes_eq j k)) [
    | inl y ↦ rw y h.1
    | inr o ↦ rw o (h.0, Fresh-remove l k m h.1)
  ]

  pub Unique-remove : (k : Text) (m : List (Text × V)) → Unique m → Unique (remove k m)
  unfolding remove
  Unique-remove k [] h = tt
  Unique-remove k ((j, w) ∷ m) h = elim (Bool-cases (bytes_eq j k)) [
    | inl y ↦ rw y h.1
    | inr o ↦ rw o (Fresh-remove j k m h.0, Unique-remove k m h.1)
  ]

  -- A write adds an entry exactly when the key had none.
  pub length-put :
      (k : Text) (v : V) (m : List (Text × V))
      → length (put k v m) ≡ (elim (find k m) [ none ↦ length m + 1 | some w ↦ length m ])
  unfolding put find
  length-put k v [] = omega arith
  length-put k v ((j, w) ∷ m) = ground (arith, length-put k v m)

  pub length-remove :
      (k : Text) (m : List (Text × V)) (v : V)
      → find k m ≡ some v
      → length (remove k m) + 1 ≡ length m
  unfolding remove find
  length-remove k [] v e = cc
  length-remove k ((j, w) ∷ m) v e = elim (Bool-cases (bytes_eq j k)) [
    | inl y ↦ rw y (omega arith)
    | inr n ↦ rw n (omega (arith, length-remove k m v (ground arith)))
  ]
