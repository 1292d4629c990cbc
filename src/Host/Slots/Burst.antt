-- ===== src/Host/Slots/Burst.antt =====
-- What a join and the queue behind it do to the players (crates/host/src/main.rs).
use couchlink.Base.{
  ℕ, ◌<◌, ◌≡◌, subst, refl, sym, ap, ◌∙◌, arith, List, [], ◌∷◌, Option, none, some, Bool, true,
  false, ◌==◌, max, if◌then◌else◌, not, All, Option-cases, Bool-cases, inl, inr,
}
use couchlink.Base.Slots.{find, put, find-put}
use couchlink.Proto.Signal.{SignalMessage, Role}
use couchlink.Host.Joins.{take_queued_joins}
use couchlink.Host.Joins.Newest.{newer, newest, Ascending, take_queued_joins_lem}
use couchlink.Host.Slots.{
  Players, Peers, is_stale, handle_slot_join, handle_joins, route_slot_msg, route_all, join_burst,
}

-- The newer of an epoch and one that may be there.
abbrev newer_of : Option ℕ → Option ℕ → Option ℕ
newer_of o none = o
newer_of o (some e) = newer o e

newer-newer : (o : Option ℕ) (d e : ℕ) → newer (newer o d) e ≡ newer o (max d e)
newer-newer none d e = refl
newer-newer (some c) d e = ap some (omega arith)

newer_of-newer : (o x : Option ℕ) (e : ℕ) → newer_of o (newer x e) ≡ newer (newer_of o x) e
newer_of-newer o none e = refl
newer_of-newer o (some d) e = sym (newer-newer o d e)

-- The newest epoch, from one that is there on.
newest-newer_of :
    (j : ℕ) (queue : List SignalMessage) (o x : Option ℕ)
    → newest j queue (newer_of o x) ≡ newer_of o (newest j queue x)
newest-newer_of j [] o x = refl
newest-newer_of j (SignalMessage.peer_joined role e s ∷ queue) o x = elim (Bool-cases (s == j)) [
  | inl same ↦
      rw same
        (ap (newest j queue) (sym (newer_of-newer o x e)) ∙ newest-newer_of j queue o (newer x e))
  | inr other ↦ rw other (newest-newer_of j queue o x)
]
newest-newer_of j (m ∷ queue) o x = newest-newer_of j queue o x

find-above : (j : ℕ) (m : List (ℕ × ℕ)) → All (λ k. j < k.0) m → find j m ≡ none
unfolding find
find-above j [] all = refl
find-above j ((s, e) ∷ m) (lt, all) = ground (arith, find-above j m all)

slots-handle_slot_join :
    (peers : Peers) (slot epoch : ℕ) (p q : Players)
    → handle_slot_join peers slot epoch p ≡ some q
    → q.slots ≡ (if is_stale (find slot p.slots) epoch then p.slots else put slot epoch p.slots)
unfolding handle_slot_join
slots-handle_slot_join peers slot epoch p q e =
    by_cases (is_stale (find slot p.slots) epoch) (peers.builds slot epoch) _ q e
  where
    by_cases :
        (stale builds : Bool) (r q : Players)
        → (if stale then some p else if not builds then none else some r) ≡ some q
        → q.slots ≡ (if stale then p.slots else r.slots)
    by_cases true builds r q e = cc
    by_cases false true r q e = cc
    by_cases false false r q e = cc

find-handle_slot_join :
    (peers : Peers) (slot epoch j : ℕ) (p q : Players)
    → handle_slot_join peers slot epoch p ≡ some q
    → find j q.slots ≡ (if slot == j then newer (find j p.slots) epoch else find j p.slots)
find-handle_slot_join peers slot epoch j p q e =
    ap (find j) (slots-handle_slot_join peers slot epoch p q e)
    ∙ (elim (Option-cases (find slot p.slots)) [
      | inl new ↦ rw new (ground (arith, find-put slot j epoch p.slots, new))
      | inr (d, old) ↦ rw old (ground (arith, find-put slot j epoch p.slots, old))
    ])

abbrev slots_of : Option Players → List (ℕ × ℕ)
slots_of none = []
slots_of (some r) = r.slots

abbrev after_joins : Peers → List SignalMessage → Option Players → Option Players
after_joins peers deferred none = none
after_joins peers deferred (some q) = some (route_all peers deferred q)

abbrev after_join : Peers → List (ℕ × ℕ) → Option Players → Option Players
after_join peers joins none = none
after_join peers joins (some q) = handle_joins peers joins q

find-handle_joins :
    (peers : Peers) (joins : List (ℕ × ℕ)) (j : ℕ) (p q : Players)
    → Ascending joins
    → handle_joins peers joins p ≡ some q
    → find j q.slots ≡ newer_of (find j p.slots) (find j joins)
unfolding handle_joins find
find-handle_joins peers [] j p q asc e = ap (λ r. find j (slots_of r)) (sym e)
find-handle_joins peers ((slot, epoch) ∷ joins) j p q (low, asc) e =
    by_join (λ r. find-handle_joins peers joins j r q asc) (handle_slot_join peers slot epoch p)
      refl e
  where
    by_join :
        (behind : (r : Players)
          → handle_joins peers joins r ≡ some q
          → find j q.slots ≡ newer_of (find j r.slots) (find j joins))
        (o : Option Players)
        → handle_slot_join peers slot epoch p ≡ o
        → after_join peers joins o ≡ some q
        → find j q.slots ≡ newer_of (find j p.slots) (find j ((slot, epoch) ∷ joins))
    by_join behind none joined broken = cc
    by_join behind (some r) joined rest =
        let first = find-handle_slot_join peers slot epoch j p r joined in
        let later = behind r rest in
        elim (Bool-cases (slot == j)) [
          | inl same ↦
              let at_slot : slot ≡ j = ground arith in
              let new : find j joins ≡ none =
                find-above j joins (subst (λ x. All (λ k. x < k.0) joins) at_slot low) in
              rw same (later ∙ (rw new (rw same at first)))
          | inr other ↦ rw other (later ∙ ap (λ o. newer_of o (find j joins)) (rw other at first))
        ]

slots-route_slot_msg :
    (peers : Peers) (m : SignalMessage) (p : Players) → (route_slot_msg peers m p).slots ≡ p.slots
unfolding route_slot_msg
slots-route_slot_msg peers (SignalMessage.answer sdp epoch slot) p = ground arith
slots-route_slot_msg peers (SignalMessage.request_offer slot) p = ground arith
slots-route_slot_msg peers other p = refl

slots-route_all :
    (peers : Peers) (queue : List SignalMessage) (p : Players)
    → (route_all peers queue p).slots ≡ p.slots
unfolding route_all
slots-route_all peers [] p = refl
slots-route_all peers (m ∷ queue) p =
    slots-route_all peers queue (route_slot_msg peers m p) ∙ slots-route_slot_msg peers m p

-- A join and the queue behind it, when the host goes on, leave every slot with the newest of the epoch it had and
-- those that join it; a leave in that queue changes nothing.
pub join_burst-newest :
    (peers : Peers) (slot epoch : ℕ) (inbound : List SignalMessage) (p q : Players) (j : ℕ)
    → join_burst peers slot epoch inbound p ≡ some q
    → find j q.slots
      ≡ newest j (SignalMessage.peer_joined Role.player epoch slot ∷ inbound) (find j p.slots)
unfolding join_burst
join_burst-newest peers slot epoch inbound p q j e =
    by_joins (handle_joins peers joins p) refl e
    ∙ ap (newer_of (find j p.slots)) ((take_queued_joins_lem inbound slot epoch).0 j)
    ∙ sym (newest-newer_of j inbound (find j p.slots) (if slot == j then some epoch else none))
    ∙ ap (newest j inbound) (ground arith)
  where
    joins : List (ℕ × ℕ)
    joins = (take_queued_joins inbound slot epoch).0

    by_joins :
        (o : Option Players)
        → handle_joins peers joins p ≡ o
        → after_joins peers (take_queued_joins inbound slot epoch).1 o ≡ some q
        → find j q.slots ≡ newer_of (find j p.slots) (find j joins)
    by_joins none joined broken = cc
    by_joins (some r) joined routed =
        ap (λ x. find j (slots_of x)) (sym routed)
        ∙ ap (find j) (slots-route_all peers (take_queued_joins inbound slot epoch).1 r)
        ∙ find-handle_joins peers joins j p r (take_queued_joins_lem inbound slot epoch).1 joined
