-- ===== src/Signaling/Players.antt =====
-- crates/signaling/src/players.rs: the slot table of a session's players. The array of slots is a list
-- of `max_players` entries, and a slot number is one more than its index.
pub mod Entries
pub mod Laws
pub mod Epochs
use couchlink.Base.{
  ◌^◌, ℕ, zero, suc, ◌+◌, ◌-◌, ◌<◌, ◌≤◌, ◌≡◌, arith, List, [], ◌∷◌, ◌++◌, Option, none, some, Bool,
  true, false, ◌==◌, ltb, if◌then◌else◌, get_elem?, set, length, min,
}
use mathlib.Core.Option
use couchlink.Signaling.Channels.{Channels}

abbrev pub max_players : ℕ
max_players = 3

abbrev pub u64_max : ℕ
u64_max = 2 ^ 64 - 1

-- `slot + 1` on a byte; a slot is at most `max_players`.
unfoldable pub emulator_player_for : ℕ → ℕ
emulator_player_for slot = slot + 1

-- `u64::saturating_add(1)`
abbrev pub bump : ℕ → ℕ
bump epoch = min (epoch + 1) u64_max

module _ (ch : Channels) where
  open ch use {Sender, same_channel}

  pub record PlayerTable : Type 0 where
    pub slots : List (Option Sender)
    pub epoch : ℕ

  -- `PlayerTable::default()`
  unfoldable pub default : PlayerTable
  default = record { slots = none ∷ none ∷ none ∷ []; epoch = 0 }

  -- `position(|s| s.is_none())`
  unfoldable pub free_position : List (Option Sender) → Option ℕ
  free_position [] = none
  free_position (none ∷ ss) = some 0
  free_position (some s ∷ ss) = Option.map suc (free_position ss)

  -- `position` of the entry on the same channel as `tx`
  unfoldable pub held_position : List (Option Sender) → Sender → Option ℕ
  held_position [] tx = none
  held_position (none ∷ ss) tx = Option.map suc (held_position ss tx)
  held_position (some s ∷ ss) tx =
      let rest = Option.map suc (held_position ss tx) in if same_channel s tx then some 0 else rest

  unfoldable pub assign : PlayerTable → Sender → PlayerTable × Option (ℕ × ℕ)
  assign t tx = elim (free_position t.slots) [
    | none ↦ (t, none)
    | some idx ↦ (
      record t { slots = set t.slots idx (some tx); epoch = bump t.epoch },
      some (idx + 1, bump t.epoch),
    )
  ]

  unfoldable pub slot_of : PlayerTable → Sender → Option ℕ
  slot_of t tx = Option.map (λ i. i + 1) (held_position t.slots tx)

  unfoldable pub reassert : PlayerTable → Sender → PlayerTable × Option (ℕ × ℕ)
  unfolding slot_of
  reassert t tx = elim (slot_of t tx) [
    | none ↦ (t, none)
    | some slot ↦ (record t { epoch = bump t.epoch }, some (slot, bump t.epoch))
  ]

  -- `slots.get(slot.checked_sub(1)? as usize)`
  unfoldable pub slot_entry : PlayerTable → ℕ → Option (Option Sender)
  slot_entry t zero = none
  slot_entry t (suc i) = get_elem? t.slots i

  -- The match of `vacate` on the entry.
  abbrev pub vacate_entry : PlayerTable → ℕ → Sender → Option (Option Sender) → PlayerTable × Bool
  vacate_entry t slot tx none = (t, false)
  vacate_entry t slot tx (some none) = (t, false)
  vacate_entry t slot tx (some (some existing)) =
      if same_channel existing tx
      then (record t { slots = set t.slots (slot - 1) none }, true)
      else (t, false)

  unfoldable pub vacate : PlayerTable → ℕ → Sender → PlayerTable × Bool
  unfolding slot_entry
  vacate t slot tx = vacate_entry t slot tx (slot_entry t slot)

  abbrev pub flat : Option (Option Sender) → Option Sender
  flat none = none
  flat (some s) = s

  unfoldable pub get : PlayerTable → ℕ → Option Sender
  unfolding slot_entry
  get t slot = flat (slot_entry t slot)

  -- The loop of `replay_for_host` over the slots from index `i` on: the epoch and what is pushed.
  unfoldable pub replay_loop : ℕ → List (Option Sender) → ℕ → ℕ × List (ℕ × ℕ)
  replay_loop i [] epoch = (epoch, [])
  replay_loop i (none ∷ ss) epoch = replay_loop (i + 1) ss epoch
  replay_loop i (some s ∷ ss) epoch =
      let (last, out) = replay_loop (i + 1) ss (bump epoch) in (last, (i + 1, bump epoch) ∷ out)

  unfoldable pub replay_for_host : PlayerTable → PlayerTable × List (ℕ × ℕ)
  unfolding replay_loop
  replay_for_host t =
      let (epoch, out) = replay_loop 0 t.slots t.epoch in (record t { epoch = epoch }, out)

  unfoldable pub count_occupied : List (Option Sender) → ℕ
  count_occupied [] = 0
  count_occupied (none ∷ ss) = count_occupied ss
  count_occupied (some s ∷ ss) = suc (count_occupied ss)

  unfoldable pub occupied : PlayerTable → ℕ
  unfolding count_occupied
  occupied t = count_occupied t.slots

  unfoldable pub is_empty : PlayerTable → Bool
  unfolding occupied
  is_empty t = occupied t == 0

  -- The connected players from index `i` on, as (slot, sender).
  unfoldable pub players_from : ℕ → List (Option Sender) → List (ℕ × Sender)
  players_from i [] = []
  players_from i (none ∷ ss) = players_from (i + 1) ss
  players_from i (some s ∷ ss) = (i + 1, s) ∷ players_from (i + 1) ss

  unfoldable pub iter : PlayerTable → List (ℕ × Sender)
  unfolding players_from
  iter t = players_from 0 t.slots
