-- ===== src/Companion/Registry.antt =====
-- `SlotRegistry` of crates/ds-vhid/src/session.rs, and the connections that use it at the same time. A
-- controller is named by a number; creating one is the driver's work, done without the lock.
pub mod Identity
use couchlink.Base.{ℕ, zero, suc, ◌+◌, ◌≡◌, List, [], ◌∷◌, Option, none, some, ◌==◌, if◌then◌else◌}
use couchlink.Base.Slots.{find, put}

-- The controller of each slot that has one.
abbrev pub SlotRegistry : Type 0
SlotRegistry = List (ℕ × ℕ)

abbrev pub max_remote_slots : ℕ
max_remote_slots = 3

-- The second part of `get_or_create`: whichever controller is registered already is kept.
unfoldable pub register : ℕ → ℕ → SlotRegistry → SlotRegistry × ℕ
register slot backend reg = elim (find slot reg) [
  | some existing ↦ (reg, existing)
  | none ↦ (put slot backend reg, backend)
]

-- `get_or_create` with no other connection between its parts; `created` is the driver's answer.
unfoldable pub get_or_create : ℕ → Option ℕ → SlotRegistry → SlotRegistry × Option ℕ
get_or_create slot created reg = elim (find slot reg) [
  | some existing ↦ (reg, some existing)
  | none ↦ elim created [
    | none ↦ (reg, none)
    | some backend ↦ ((register slot backend reg).0, some (register slot backend reg).1)
  ]
]

-- `preallocate` for the slots from `slot` on; it stops at the first failure of the driver.
unfoldable pub preallocate : ℕ → List (Option ℕ) → SlotRegistry → SlotRegistry
preallocate slot [] reg = reg
preallocate slot (created ∷ answers) reg = elim (get_or_create slot created reg).1 [
  | none ↦ (get_or_create slot created reg).0
  | some backend ↦ preallocate (slot + 1) answers (get_or_create slot created reg).0
]

-- Where a connection stands: it looks its slot up; it waits for the driver; it has a new controller to
-- register; it drives a controller.
pub data Connection : Type 0 where
  idle : Connection
  looking : (slot : ℕ) → Connection
  creating : (slot : ℕ) → Connection
  created : (slot backend : ℕ) → Connection
  driving : (slot backend : ℕ) → Connection

-- The registry, the number of controllers that the driver has made, and every connection.
pub record Companion : Type 0 where
  pub registry : SlotRegistry
  pub made : ℕ
  pub at : ℕ → Connection

abbrev pub move : (ℕ → Connection) → ℕ → Connection → ℕ → Connection
move f i c j = if i == j then c else f j

-- What one connection does next, while the others stand still.
pub data Step (s : Companion) : Companion → Type 0 where
  -- A client says hello.
  hello : (i slot : ℕ) → s.at i ≡ idle → Step s (record s { at = move s.at i (looking slot) })
  -- Its slot has a controller.
  reuse :
      (i slot backend : ℕ)
      → s.at i ≡ looking slot
      → find slot s.registry ≡ some backend
      → Step s (record s { at = move s.at i (driving slot backend) })
  -- Its slot has none, and the lock is let go.
  miss :
      (i slot : ℕ)
      → s.at i ≡ looking slot
      → find slot s.registry ≡ none
      → Step s (record s { at = move s.at i (creating slot) })
  -- The driver makes a controller.
  plug_in :
      (i slot : ℕ)
      → s.at i ≡ creating slot
      → Step s (record s { made = s.made + 1; at = move s.at i (created slot s.made) })
  -- The driver fails, and the connection ends.
  refuse : (i slot : ℕ) → s.at i ≡ creating slot → Step s (record s { at = move s.at i idle })
  -- The controller is registered, or that of the slot taken.
  insert :
      (i slot backend : ℕ)
      → s.at i ≡ created slot backend
      → Step s (record s {
        registry = (register slot backend s.registry).0;
        at = move s.at i (driving slot (register slot backend s.registry).1);
      })
  -- The client leaves.
  leave :
      (i slot backend : ℕ)
      → s.at i ≡ driving slot backend
      → Step s (record s { at = move s.at i idle })

-- The companion as it starts, with any registry that `preallocate` may have left.
abbrev pub started : SlotRegistry → ℕ → Companion
started reg made = record { registry = reg; made = made; at = λ i. idle }

pub data Reach (s : Companion) : Companion → Type 0 where
  here : Reach s s
  next : {t u : Companion} → Reach s t → Step t u → Reach s u
