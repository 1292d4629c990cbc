-- ===== src/Companion/Registry/Identity.antt =====
-- The controllers keep their slots (crates/ds-vhid/src/session.rs), however the connections interleave.
use couchlink.Base.{
  ◌↔◌, ap, ℕ, ◌+◌, ◌<◌, ◌≡◌, ◌≢◌, refl, ◌∙◌, arith, none, some, Option-cases, inl, inr,
}
use couchlink.Base.Slots.{find, put, find-put}
use couchlink.Companion.Registry.{
  SlotRegistry, register, Connection, idle, looking, creating, created, driving, Companion, move,
  Step, hello, reuse, miss, plug_in, refuse, insert, leave, started, Reach, here, next,
}

-- What the registry holds: controllers that were made, each for one slot.
pub record IsRegistry (reg : SlotRegistry) (made : ℕ) : Type 0 where
  pub known : (s b : ℕ) → find s reg ≡ some b → b < made
  pub apart : (s t b : ℕ) → find s reg ≡ some b → find t reg ≡ some b → s ≡ t

-- And the connections: a controller that is driven is its slot's; one to be registered is nobody else's.
pub record IsCompanion (reg : SlotRegistry) (made : ℕ) (at : ℕ → Connection) : Type 0 where
  pub driven : (i s b : ℕ) → at i ≡ driving s b → find s reg ≡ some b
  pub new : (i s b : ℕ) → at i ≡ created s b → b < made
  pub unused : (i s b t : ℕ) → at i ≡ created s b → find t reg ≢ some b
  pub alone : (i j s t b : ℕ) → at i ≡ created s b → at j ≡ created t b → i ≡ j

module _ (reg : SlotRegistry) (made : ℕ) (at : ℕ → Connection) (h : IsCompanion reg made at) where
  -- A connection moves to where it has no controller.
  move-quiet :
      (i : ℕ) (c : Connection)
      → ((s b : ℕ) → c ≢ created s b)
      → ((s b : ℕ) → c ≢ driving s b)
      → IsCompanion reg made (move at i c)
  move-quiet i c p q = record {
    driven = λ j s b e. ground (arith, h.driven j s b, q s b);
    new = λ j s b e. ground (arith, h.new j s b, p s b);
    unused = λ j s b t e. ground (arith, h.unused j s b t, p s b);
    alone = λ j k s t b e f. ground (arith, h.alone j k s t b, p s b, p t b);
  }

  move-driving :
      (i slot b : ℕ) → find slot reg ≡ some b → IsCompanion reg made (move at i (driving slot b))
  move-driving i slot b seated = record {
    driven = λ j s b' e. ground (arith, h.driven j s b', seated);
    new = λ j s b' e. ground (arith, h.new j s b');
    unused = λ j s b' t e. ground (arith, h.unused j s b' t);
    alone = λ j k s t b' e f. ground (arith, h.alone j k s t b');
  }

  -- The driver's new controller is nobody's.
  move-created :
      IsRegistry reg made
      → (i slot : ℕ) → IsCompanion reg (made + 1) (move at i (created slot made))
  move-created r i slot = record {
    driven = λ j s b e. ground (arith, h.driven j s b);
    new = λ j s b e. ground (arith, h.new j s b);
    unused = λ j s b t e f. ground (arith, h.unused j s b t, r.known t b);
    alone = λ j k s t b e f. ground (arith, h.alone j k s t b, h.new j s b, h.new k t b);
  }

register-known :
    (slot b : ℕ) (reg : SlotRegistry) {old : ℕ}
    → find slot reg ≡ some old
    → register slot b reg ≡ (reg, old)
unfolding register
register-known slot b reg e = rw (e, register) refl

register-new :
    (slot b : ℕ) (reg : SlotRegistry)
    → find slot reg ≡ none
    → register slot b reg ≡ (put slot b reg, b)
unfolding register
register-new slot b reg e = rw (e, register) refl

put-IsRegistry :
    (reg : SlotRegistry) (made slot b : ℕ)
    → IsRegistry reg made
    → b < made
    → ((t : ℕ) → find t reg ≢ some b)
    → IsRegistry (put slot b reg) made
put-IsRegistry reg made slot b r lt unused = record {
  known = λ s c e. ground (arith, r.known s c, find-put slot s b reg);
  apart = λ s t c e f.
      ground
        (arith, r.apart s t c, find-put slot s b reg, find-put slot t b reg, unused s, unused t);
}

put-IsCompanion :
    (reg : SlotRegistry) (made : ℕ) (at : ℕ → Connection) (i slot b : ℕ)
    → IsCompanion reg made at
    → at i ≡ created slot b
    → find slot reg ≡ none
    → IsCompanion (put slot b reg) made (move at i (driving slot b))
put-IsCompanion reg made at i slot b h e new = record {
  driven = λ j s c f. ground (arith, h.driven j s c, find-put slot s b reg);
  new = λ j s c f. ground (arith, h.new j s c);
  unused =
      λ j s c t f. ground (arith, h.unused j s c t, find-put slot t b reg, h.alone i j slot s b);
  alone = λ j k s t c f g. ground (arith, h.alone j k s t c);
}

-- The whole state is well formed.
abbrev pub IsSystem : Companion → Type 0
IsSystem s = IsRegistry s.registry s.made × IsCompanion s.registry s.made s.at

Step-IsSystem : {s t : Companion} → Step s t → IsSystem s → IsSystem t
Step-IsSystem {s} (hello i slot e) (r, h) =
    (r, move-quiet s.registry s.made s.at h i (looking slot) (λ a b. cc) (λ a b. cc))
Step-IsSystem {s} (reuse i slot backend e f) (r, h) =
    (r, move-driving s.registry s.made s.at h i slot backend f)
Step-IsSystem {s} (miss i slot e f) (r, h) =
    (r, move-quiet s.registry s.made s.at h i (creating slot) (λ a b. cc) (λ a b. cc))
Step-IsSystem {s} (plug_in i slot e) (r, h) = (
  record { known = λ a b f. ground (arith, r.known a b); apart = r.apart },
  move-created s.registry s.made s.at h r i slot,
)
Step-IsSystem {s} (refuse i slot e) (r, h) =
    (r, move-quiet s.registry s.made s.at h i idle (λ a b. cc) (λ a b. cc))
Step-IsSystem {s} (insert i slot backend e) (r, h) = elim (Option-cases (find slot s.registry)) [
  | inl new ↦ rw (register-new slot backend s.registry new) (
    put-IsRegistry s.registry s.made slot backend r (h.new i slot backend e)
        (λ t. h.unused i slot backend t e),
    put-IsCompanion s.registry s.made s.at i slot backend h e new,
  )
  | inr (old, there) ↦
      rw (register-known slot backend s.registry there)
        (r, move-driving s.registry s.made s.at h i slot old there)
]
Step-IsSystem {s} (leave i slot backend e) (r, h) =
    (r, move-quiet s.registry s.made s.at h i idle (λ a b. cc) (λ a b. cc))

Reach-IsSystem : {s t : Companion} → IsSystem s → Reach s t → IsSystem t
Reach-IsSystem h here = h
Reach-IsSystem h (next r st) = Step-IsSystem st (Reach-IsSystem h r)

started-IsSystem :
    (reg : SlotRegistry) (made : ℕ) → IsRegistry reg made → IsSystem (started reg made)
started-IsSystem reg made r = (
  r,
  record {
    driven = λ i s b. cc;
    new = λ i s b. cc;
    unused = λ i s b t. cc;
    alone = λ i j s t b. cc;
  },
)

-- However the connections interleave, two that drive controllers drive the same one exactly when they are of
-- the same slot: nobody takes over another player's controller, and no slot is split between two.
pub driving-same :
    (reg : SlotRegistry) (made : ℕ) (t : Companion)
    → IsRegistry reg made
    → Reach (started reg made) t
    → (i j slot slot' b b' : ℕ) → t.at i ≡ driving slot b
    → t.at j ≡ driving slot' b'
    → (slot ≡ slot') ↔ (b ≡ b')
driving-same reg made t ok r i j slot slot' b b' e f =
    let (known, h) = Reach-IsSystem (started-IsSystem reg made ok) r in
    let one = h.driven i slot b e in
    let two = h.driven j slot' b' f in
    (λ p. ground (arith, one, two), λ p. ground (arith, one, two, known.apart slot slot' b))

-- A step keeps what is registered.
Step-kept :
    {s t : Companion} (slot b : ℕ)
    → Step s t
    → find slot s.registry ≡ some b
    → find slot t.registry ≡ some b
Step-kept slot b (hello i s e) there = there
Step-kept slot b (reuse i s c e f) there = there
Step-kept slot b (miss i s e f) there = there
Step-kept slot b (plug_in i s e) there = there
Step-kept slot b (refuse i s e) there = there
Step-kept {s} slot b (insert i k backend e) there = elim (Option-cases (find k s.registry)) [
  | inl new ↦
      ap (λ x. find slot x.0) (register-new k backend s.registry new)
      ∙ find-put k slot backend s.registry
      ∙ ground (arith, new, there)
  | inr (old, known) ↦ ap (λ x. find slot x.0) (register-known k backend s.registry known) ∙ there
]
Step-kept slot b (leave i s c e) there = there

-- A slot's controller, once it is registered, is its controller for good: no reconnect and no race changes it.
pub Reach-kept :
    {s t : Companion} (slot b : ℕ)
    → Reach s t
    → find slot s.registry ≡ some b
    → find slot t.registry ≡ some b
Reach-kept slot b here there = there
Reach-kept slot b (next r st) there = Step-kept slot b st (Reach-kept slot b r there)
