-- ===== src/Host/Joins.antt =====
-- `take_queued_joins` of crates/host/src/main.rs: a burst of joins is taken from the queue at once, and each
-- slot keeps its newest epoch.
pub mod Newest
mod Examples
use couchlink.Base.{◌++◌, ℕ, List, [], ◌∷◌, Option, none, some, leb, if◌then◌else◌}
use couchlink.Base.Slots.{find, put}
use couchlink.Proto.Signal.{SignalMessage}

-- What the loop keeps: the newest epoch of each slot, and the other messages in their order.
pub record Burst : Type 0 where
  pub joins : List (ℕ × ℕ)
  pub deferred : List SignalMessage

-- One `PeerJoined` of the queue.
unfoldable pub coalesce : ℕ → ℕ → List (ℕ × ℕ) → List (ℕ × ℕ)
coalesce s e joins = elim (find s joins) [
  | none ↦ put s e joins
  | some existing ↦ if leb e existing then joins else put s e joins
]

-- The queue as `try_recv` empties it, the oldest message first.
unfoldable pub drain_queue : List SignalMessage → Burst → Burst
drain_queue [] b = b
drain_queue (SignalMessage.peer_joined role e s ∷ queue) b =
    drain_queue queue (record b { joins = coalesce s e b.joins })
drain_queue (other ∷ queue) b = drain_queue queue (record b { deferred = b.deferred ++ other ∷ [] })

-- `sort_by_key` on the slot, which is stable.
unfoldable pub insert_by_slot : ℕ × ℕ → List (ℕ × ℕ) → List (ℕ × ℕ)
insert_by_slot j [] = j ∷ []
insert_by_slot j (k ∷ rest) = if leb j.0 k.0 then j ∷ k ∷ rest else k ∷ insert_by_slot j rest

unfoldable pub sort_by_slot : List (ℕ × ℕ) → List (ℕ × ℕ)
unfolding insert_by_slot
sort_by_slot [] = []
sort_by_slot (j ∷ joins) = insert_by_slot j (sort_by_slot joins)

unfoldable pub take_queued_joins : List SignalMessage → ℕ → ℕ → List (ℕ × ℕ) × List SignalMessage
take_queued_joins inbound slot epoch =
    let b = drain_queue inbound (record { joins = (slot, epoch) ∷ []; deferred = [] }) in
    (sort_by_slot b.joins, b.deferred)
