-- ===== src/Signaling/Players/Laws.antt =====
-- The slot table as a map from slots to senders: what each operation does to every slot, and the
-- invariant that no channel holds two slots.
use couchlink.Base.{
  ℕ, zero, suc, ◌+◌, ◌-◌, ◌<◌, ◌≤◌, ◌≡◌, ◌≢◌, refl, sym, ◌∙◌, arith, Option, none, some, Bool, true,
  false, get_elem?, set, length, inl, inr, Option-cases, Bool-cases, get_elem?-lt, length-set,
  subst,
}
use native.Mathlib.Numerals.{add-one}
use couchlink.Signaling.Channels.{Channels}
use couchlink.Signaling.Players.{
  PlayerTable, free_position, held_position, assign, slot_of, reassert, vacate, vacate_entry, get,
  max_players, bump, slot_entry, default,
}
use couchlink.Signaling.Players.Entries.{
  Free, Distinct, at, free_position-some, free_position-none, at-set, held_position-some,
  held_position-none, Free-held_position, Distinct-set-some, Distinct-set-none, Free-vacated,
  Free-at,
}

module _ (ch : Channels) where
  open ch use {Sender, same_channel}

  -- There are as many slots as players are allowed, and no channel holds two of them.
  pub record IsTable (t : PlayerTable ch) : Type 0 where
    pub full_length : length t.slots ≡ max_players
    pub distinct : Distinct ch t.slots

  get-at : (t : PlayerTable ch) (i : ℕ) → get ch t (i + 1) ≡ at ch t.slots i
  unfolding get slot_entry
  get-at t i = rw add-one refl

  -- The slots from 1 on, by their indices.
  by_index :
      (t : PlayerTable ch) (P : ℕ → Option Sender → Type 0)
      → ((i : ℕ) → P (i + 1) (at ch t.slots i))
      → (j : ℕ) → 1 ≤ j
      → P j (get ch t j)
  by_index t P h zero lt = absurd (omega arith)
  by_index t P h (suc i) lt =
      subst (λ k. P k (get ch t k)) (omega arith)
        (subst (λ o. P (i + 1) o) (sym (get-at t i)) (h i))

  pub default-IsTable : IsTable (default ch)
  unfolding default
  default-IsTable = record { full_length = refl; distinct = tt }

  -- What `assign` does to a table in which the sender has no slot.
  abbrev pub Assigned : PlayerTable ch → Sender → PlayerTable ch × Option (ℕ × ℕ) → Type 0
  Assigned t tx (t', none) = (t' ≡ t) × ((j : ℕ) → 1 ≤ j → j ≤ max_players → get ch t j ≢ none)
  Assigned t tx (t', some (slot, epoch)) =
      (1 ≤ slot)
      × (slot ≤ max_players)
      × (get ch t slot ≡ none)
      × ((j : ℕ) → 1 ≤ j → j < slot → get ch t j ≢ none)
      × (get ch t' slot ≡ some tx)
      × ((j : ℕ) → j ≢ slot → get ch t' j ≡ get ch t j)
      × (epoch ≡ t'.epoch)
      × (t'.epoch ≡ bump t.epoch)

  assign-none :
      (t : PlayerTable ch) (tx : Sender)
      → free_position ch t.slots ≡ none
      → assign ch t tx ≡ (t, none)
  unfolding assign
  assign-none t tx e = rw (e, assign) refl

  abbrev seated : PlayerTable ch → ℕ → Sender → PlayerTable ch
  seated t i tx = record t { slots = set t.slots i (some tx); epoch = bump t.epoch }

  assign-some :
      (t : PlayerTable ch) (tx : Sender) (i : ℕ)
      → free_position ch t.slots ≡ some i
      → assign ch t tx ≡ (seated t i tx, some (i + 1, bump t.epoch))
  unfolding assign
  assign-some t tx i e = rw (e, assign) refl

  others-kept :
      (t : PlayerTable ch) (i : ℕ) (o : Option Sender) (e : ℕ) (j : ℕ)
      → i < length t.slots
      → j ≢ i + 1
      → get ch (record t { slots = set t.slots i o; epoch = e }) j ≡ get ch t j
  unfolding get slot_entry
  others-kept t i o e zero lt ne = refl
  others-kept t i o e (suc j) lt ne = at-set ch t.slots i j o lt ∙ ground arith

  -- In a well-formed table, `assign` gives out the lowest free slot, which is between 1 and the number
  -- of slots, with the table's epoch raised by one (at its limit it stays), and moves no seated player; a
  -- table without a free slot is refused and stays as it is.
  pub assign_lem : (t : PlayerTable ch) (tx : Sender) → IsTable t → Assigned t tx (assign ch t tx)
  assign_lem t tx v = elim (Option-cases (free_position ch t.slots)) [
    | inl e ↦ subst (Assigned t tx) (sym (assign-none t tx e)) (
      refl,
      λ j lo.
          by_index t (λ k o. k ≤ max_players → o ≢ none)
            (λ i hi. free_position-none ch t.slots e i (omega (arith, v.full_length))) j lo,
    )
    | inr (i, e) ↦
        let (free, below) = free_position-some ch t.slots i e in
        let lt = get_elem?-lt t.slots i free in
        subst (Assigned t tx) (sym (assign-some t tx i e)) (
          omega arith,
          omega (arith, v.full_length),
          get-at t i ∙ rw free refl,
          by_index t (λ k o. k < i + 1 → o ≢ none) (λ k hi. below k (omega arith)),
          get-at (seated t i tx) i ∙ at-set ch t.slots i i (some tx) lt ∙ ground arith,
          λ j ne. others-kept t i (some tx) (bump t.epoch) j lt ne,
          refl,
          refl,
        )
  ]

  -- `slot_of` finds the slot that a socket holds, and nothing for a stranger.
  pub slot_of-some :
      (t : PlayerTable ch) (tx : Sender) (slot : ℕ)
      → slot_of ch t tx ≡ some slot
      → (s : Sender) × (get ch t slot ≡ some s) × (same_channel s tx ≡ true) × (1 ≤ slot)
  unfolding slot_of
  slot_of-some t tx slot e = elim (Option-cases (held_position ch t.slots tx)) [
    | inl n ↦ cc (n, e)
    | inr (i, n) ↦
        let (s, here, same) = held_position-some ch t.slots tx i n in
        let is_next : slot ≡ i + 1 = ground arith in
        (s, rw is_next (get-at t i ∙ rw here refl), same, omega arith)
  ]

  -- A socket that `slot_of` does not find holds no slot.
  pub slot_of-none :
      (t : PlayerTable ch) (tx : Sender) (j : ℕ) (s : Sender)
      → slot_of ch t tx ≡ none
      → get ch t j ≡ some s
      → same_channel s tx ≡ false
  unfolding slot_of get slot_entry
  slot_of-none t tx zero s e h = cc
  slot_of-none t tx (suc i) s e h =
      Free-at ch t.slots i s tx (held_position-none ch t.slots tx (ground arith)) (ground arith)

  pub assign-IsTable :
      (t : PlayerTable ch) (tx : Sender)
      → IsTable t
      → slot_of ch t tx ≡ none
      → IsTable (assign ch t tx).0
  unfolding slot_of
  assign-IsTable t tx v e = elim (Option-cases (free_position ch t.slots)) [
    | inl n ↦ subst (λ r. IsTable r.0) (sym (assign-none t tx n)) v
    | inr (i, n) ↦
        subst (λ r. IsTable r.0) (sym (assign-some t tx i n))
          (record {
            full_length = length-set t.slots i (some tx) ∙ v.full_length;
            distinct =
                Distinct-set-some ch t.slots i tx v.distinct
                  (held_position-none ch t.slots tx (ground arith));
          })
  ]

  -- What `vacate` does: it frees the slot for the socket that holds it, and for no other.
  abbrev pub Vacated : PlayerTable ch → ℕ → Sender → PlayerTable ch × Bool → Type 0
  Vacated t slot tx (t', true) =
      (s : Sender) × (get ch t slot ≡ some s)
      × (same_channel s tx ≡ true)
      × (get ch t' slot ≡ none)
      × ((j : ℕ) → j ≢ slot → get ch t' j ≡ get ch t j)
      × (t'.epoch ≡ t.epoch)
      × (slot_of ch t' tx ≡ none)
  Vacated t slot tx (t', false) =
      (t' ≡ t) × ((s : Sender) → get ch t slot ≡ some s → same_channel s tx ≡ false)

  slot_of-Free : (t : PlayerTable ch) (tx : Sender) → Free ch tx t.slots → slot_of ch t tx ≡ none
  unfolding slot_of
  slot_of-Free t tx f = ground (arith, Free-held_position ch t.slots tx f)

  vacate-Vacated :
      (t : PlayerTable ch) (i : ℕ) (tx : Sender) (o : Option (Option Sender))
      → IsTable t
      → get_elem? t.slots i ≡ o
      → Vacated t (suc i) tx (vacate_entry ch t (suc i) tx o)
  unfolding get slot_entry
  vacate-Vacated t i tx none v e = (refl, λ s h. cc)
  vacate-Vacated t i tx (some none) v e = (refl, λ s h. ground arith)
  vacate-Vacated t i tx (some (some x)) v e =
      let lt = get_elem?-lt t.slots i e in
      let index : suc i - 1 ≡ i = omega arith in
      elim (Bool-cases (same_channel x tx)) [
        | inl y ↦ rw y (
            rw index (
              x,
              ground arith,
              y,
              at-set ch t.slots i i none lt ∙ ground arith,
              λ j ne. others-kept t i none t.epoch j lt (λ h. ne (omega arith)),
              refl,
              slot_of-Free (record t { slots = set t.slots i none }) tx
                  (Free-vacated ch t.slots i x tx v.distinct e y),
            ))
        | inr n ↦ rw n (refl, λ s h. ground arith)
      ]

  -- In a well-formed table, `vacate` frees a slot exactly when the given socket holds it; then no other
  -- slot and not the epoch changes, and the socket holds no slot any more. For any other socket it
  -- changes nothing.
  pub vacate_lem :
      (t : PlayerTable ch) (slot : ℕ) (tx : Sender)
      → IsTable t
      → Vacated t slot tx (vacate ch t slot tx)
  unfolding vacate slot_entry
  vacate_lem t zero tx v = (refl, λ s h. absurd (none_get t s h))
    where
      none_get : (t : PlayerTable ch) (s : Sender) → get ch t 0 ≡ some s → ⊥
      none_get t s h = unfold get slot_entry in cc
  vacate_lem t (suc i) tx v = vacate-Vacated t i tx (get_elem? t.slots i) v refl

  vacate_entry-IsTable :
      (t : PlayerTable ch) (slot : ℕ) (tx : Sender) (o : Option (Option Sender))
      → IsTable t
      → IsTable (vacate_entry ch t slot tx o).0
  vacate_entry-IsTable t slot tx none v = v
  vacate_entry-IsTable t slot tx (some none) v = v
  vacate_entry-IsTable t slot tx (some (some x)) v = elim (Bool-cases (same_channel x tx)) [
    | inl y ↦ rw y (record {
      full_length = length-set t.slots (slot - 1) none ∙ v.full_length;
      distinct = Distinct-set-none ch t.slots (slot - 1) v.distinct;
    })
    | inr n ↦ rw n v
  ]

  pub vacate-IsTable :
      (t : PlayerTable ch) (slot : ℕ) (tx : Sender) → IsTable t → IsTable (vacate ch t slot tx).0
  unfolding vacate
  vacate-IsTable t slot tx v = vacate_entry-IsTable t slot tx (slot_entry ch t slot) v

  pub reassert-IsTable :
      (t : PlayerTable ch) (tx : Sender) → IsTable t → IsTable (reassert ch t tx).0
  unfolding reassert
  reassert-IsTable t tx v = elim (Option-cases (held_position ch t.slots tx)) [
    | inl e ↦ rw (e, reassert) v
    | inr (i, e) ↦ rw (e, reassert) (record { full_length = v.full_length; distinct = v.distinct })
  ]
