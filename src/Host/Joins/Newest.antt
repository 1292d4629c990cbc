-- ===== src/Host/Joins/Newest.antt =====
-- What a burst of joins comes to.
use couchlink.Base.{
  sym, ap, All, Option-cases, Bool-cases, inl, inr, ℕ, ◌≡◌, refl, ◌∙◌, arith, List, [], ◌∷◌, ◌++◌,
  Option, none, some, ◌==◌, leb, max, if◌then◌else◌, ◌<◌,
}
use mathlib.Core.List.{append-nil, append_assoc}
use couchlink.Base.Slots.{find, find-put, put-Unique, Unique}
use couchlink.Proto.Signal.{SignalMessage}
use couchlink.Host.Joins.{
  Burst, coalesce, drain_queue, insert_by_slot, sort_by_slot, take_queued_joins,
}

abbrev pub newer : Option ℕ → ℕ → Option ℕ
newer none e = some e
newer (some d) e = some (max d e)

-- The newest epoch of slot `j`: that of the queue, or `o`.
abbrev pub newest : ℕ → List SignalMessage → Option ℕ → Option ℕ
newest j [] o = o
newest j (SignalMessage.peer_joined role e s ∷ queue) o =
    newest j queue (if s == j then newer o e else o)
newest j (other ∷ queue) o = newest j queue o

-- The messages of a queue that are no joins.
abbrev pub others : List SignalMessage → List SignalMessage
others [] = []
others (SignalMessage.peer_joined role e s ∷ queue) = others queue
others (other ∷ queue) = other ∷ others queue

find-coalesce :
    (s e j : ℕ) (m : List (ℕ × ℕ))
    → find j (coalesce s e m) ≡ (if s == j then newer (find j m) e else find j m)
unfolding coalesce
find-coalesce s e j m = elim (Option-cases (find s m)) [
  | inl new ↦ rw (new, coalesce) (ground (arith, find-put s j e m, new))
  | inr (d, old) ↦ rw (old, coalesce) (ground (arith, find-put s j e m, old))
]

coalesce-Unique : (s e : ℕ) (m : List (ℕ × ℕ)) → Unique m → Unique (coalesce s e m)
unfolding coalesce
coalesce-Unique s e m u = elim (Option-cases (find s m)) [
  | inl new ↦ rw (new, coalesce) (put-Unique s e m u)
  | inr (d, old) ↦ elim (Bool-cases (leb e d)) [
    | inl stale ↦ rw (old, coalesce) (rw stale u)
    | inr fresh ↦ rw (old, coalesce) (rw fresh (put-Unique s e m u))
  ]
]

-- In the order of their slots, each slot once.
abbrev pub Ascending : List (ℕ × ℕ) → Type 0
Ascending [] = Unit {0}
Ascending (j ∷ rest) = All (λ k. j.0 < k.0) rest × Ascending rest

find-insert_by_slot :
    (j : ℕ) (k : ℕ × ℕ) (m : List (ℕ × ℕ))
    → find j (insert_by_slot k m) ≡ (if k.0 == j then some k.1 else find j m)
unfolding find insert_by_slot
find-insert_by_slot j (s, e) [] = refl
find-insert_by_slot j (s, e) ((s', e') ∷ m) = ground (arith, find-insert_by_slot j (s, e) m)

find-sort_by_slot : (j : ℕ) (m : List (ℕ × ℕ)) → find j (sort_by_slot m) ≡ find j m
unfolding find sort_by_slot
find-sort_by_slot j [] = refl
find-sort_by_slot j ((s, e) ∷ m) =
    find-insert_by_slot j (s, e) (sort_by_slot m) ∙ ground (arith, find-sort_by_slot j m)

insert_by_slot-All :
    (b : ℕ) (k : ℕ × ℕ) (m : List (ℕ × ℕ))
    → b < k.0
    → All (λ x. b < x.0) m
    → All (λ x. b < x.0) (insert_by_slot k m)
unfolding insert_by_slot
insert_by_slot-All b k [] lt all = (lt, tt)
insert_by_slot-All b k (x ∷ m) lt (first, all) = elim (Bool-cases (leb k.0 x.0)) [
  | inl here ↦ rw here (lt, (first, all))
  | inr on ↦ rw on (first, insert_by_slot-All b k m lt all)
]

above : (s b : ℕ) (m : List (ℕ × ℕ)) → s < b → All (λ x. b < x.0) m → All (λ x. s < x.0) m
above s b [] lt all = tt
above s b (x ∷ m) lt (first, all) = (omega arith, above s b m lt all)

insert_by_slot-Ascending :
    (k : ℕ × ℕ) (m : List (ℕ × ℕ))
    → find k.0 m ≡ none
    → Ascending m
    → Ascending (insert_by_slot k m)
unfolding find insert_by_slot
insert_by_slot-Ascending k [] new asc = (tt, tt)
insert_by_slot-Ascending k (x ∷ m) new (low, asc) = elim (Bool-cases (leb k.0 x.0)) [
  | inl here ↦
      let lt : k.0 < x.0 = ground (arith, new) in rw here ((lt, above k.0 x.0 m lt low), (low, asc))
  | inr on ↦ rw on (
    insert_by_slot-All x.0 k m (ground arith) low,
    insert_by_slot-Ascending k m (ground (arith, new)) asc,
  )
]

sort_by_slot-Ascending : (m : List (ℕ × ℕ)) → Unique m → Ascending (sort_by_slot m)
unfolding sort_by_slot
sort_by_slot-Ascending [] u = tt
sort_by_slot-Ascending ((s, e) ∷ m) (new, u) =
    insert_by_slot-Ascending (s, e) (sort_by_slot m) (find-sort_by_slot s m ∙ new)
      (sort_by_slot-Ascending m u)

-- What the loop over the queue has come to.
pub record IsBurst (j : ℕ) (queue : List SignalMessage) (b c : Burst) : Type 0 where
  pub joined : find j c.joins ≡ newest j queue (find j b.joins)
  pub kept : c.deferred ≡ b.deferred ++ others queue
  pub unique : Unique b.joins → Unique c.joins

drain_queue-IsBurst :
    (j : ℕ) (queue : List SignalMessage) (b : Burst) → IsBurst j queue b (drain_queue queue b)
unfolding drain_queue
drain_queue-IsBurst j [] b = record {
  joined = refl;
  kept = sym (append-nil b.deferred);
  unique = λ u. u;
}
drain_queue-IsBurst j (SignalMessage.peer_joined role e s ∷ queue) b =
    let rest = drain_queue-IsBurst j queue (record b { joins = coalesce s e b.joins }) in
    record {
      joined = rest.joined ∙ ap (newest j queue) (find-coalesce s e j b.joins);
      kept = rest.kept;
      unique = λ u. rest.unique (coalesce-Unique s e b.joins u);
    }
drain_queue-IsBurst j (other ∷ queue) b =
    let rest = drain_queue-IsBurst j queue (record b { deferred = b.deferred ++ other ∷ [] }) in
    record {
      joined = rest.joined;
      kept = rest.kept ∙ append_assoc b.deferred (other ∷ []) (others queue);
      unique = rest.unique;
    }

-- From a join of `slot` with `epoch` and the queue behind it come: for every slot that joins, exactly its newest
-- epoch, the slots in ascending order and each once; and all other messages, in their order.
pub take_queued_joins_lem :
    (inbound : List SignalMessage) (slot epoch : ℕ)
    → ((j : ℕ)
        → find j (take_queued_joins inbound slot epoch).0
          ≡ newest j inbound (if slot == j then some epoch else none))
      × Ascending (take_queued_joins inbound slot epoch).0
      × ((take_queued_joins inbound slot epoch).1 ≡ others inbound)
unfolding take_queued_joins find
take_queued_joins_lem inbound slot epoch =
    let first : Burst = record { joins = (slot, epoch) ∷ []; deferred = [] } in
    let b = drain_queue inbound first in
    (
      λ j. find-sort_by_slot j b.joins ∙ (drain_queue-IsBurst j inbound first).joined,
      sort_by_slot-Ascending b.joins ((drain_queue-IsBurst slot inbound first).unique (refl, tt)),
      (drain_queue-IsBurst slot inbound first).kept,
    )
