-- ===== src/Host/Slots.antt =====
-- The host's players and the signaling branch of its main loop (crates/host/src/main.rs): joins, leaves and the
-- messages for one slot's peer. Of a `PlayerConn` here is its epoch; the peers themselves are the webrtc
-- crate's.
pub mod Burst
mod Examples
use couchlink.Base.{
  ℕ, zero, suc, List, [], ◌∷◌, ◌++◌, Option, none, some, Bool, true, false, not, ◌||◌, leb, ◌==◌,
  if◌then◌else◌,
}
use couchlink.Base.Slots.{find, put, remove}
use couchlink.Proto.Signal.{SignalMessage}
use couchlink.Host.Joins.{take_queued_joins}

-- The map of connections, each slot with its `attached_player_epoch`; those that were closed; and whether the
-- next frame is to be a keyframe.
pub record Players : Type 0 where
  pub slots : List (ℕ × ℕ)
  pub closed : List (ℕ × ℕ)
  pub force_idr : Bool

-- What the webrtc crate answers: whether a peer for a slot and an epoch can be built, and whether a slot's
-- peer applies an answer.
pub record Peers : Type 0 where
  pub builds : ℕ → ℕ → Bool
  pub applies : ℕ → Bool

abbrev pub is_stale : Option ℕ → ℕ → Bool
is_stale none epoch = false
is_stale (some attached) epoch = leb epoch attached

abbrev pub close_old : ℕ → Option ℕ → List (ℕ × ℕ) → List (ℕ × ℕ)
close_old slot none closed = closed
close_old slot (some epoch) closed = closed ++ (slot, epoch) ∷ []

-- `none` is the error that ends the host's loop. What is asked of the capture bridge, the messages and the offer
-- do not touch this state.
unfoldable pub handle_slot_join : Peers → ℕ → ℕ → Players → Option Players
handle_slot_join peers slot epoch p =
    if is_stale (find slot p.slots) epoch
    then some p
    else if not (peers.builds slot epoch)
    then none
    else some (record {
      slots = put slot epoch p.slots;
      closed = close_old slot (find slot p.slots) p.closed;
      force_idr = true;
    })

unfoldable pub handle_joins : Peers → List (ℕ × ℕ) → Players → Option Players
handle_joins peers [] p = some p
handle_joins peers ((slot, epoch) ∷ joins) p = elim (handle_slot_join peers slot epoch p) [
  | none ↦ none
  | some q ↦ handle_joins peers joins q
]

abbrev pub is_seated : Option ℕ → Bool
is_seated none = false
is_seated (some epoch) = true

-- `route_slot_msg`: a message for one slot's peer; any other is ignored.
unfoldable pub route_slot_msg : Peers → SignalMessage → Players → Players
route_slot_msg peers (SignalMessage.answer sdp epoch slot) p =
    if is_seated (find slot p.slots)
    then (if peers.applies slot then record p { force_idr = true } else p)
    else p
route_slot_msg peers (SignalMessage.request_offer slot) p =
    if is_seated (find slot p.slots) then record p { force_idr = true } else p
route_slot_msg peers other p = p

unfoldable pub route_all : Peers → List SignalMessage → Players → Players
route_all peers [] p = p
route_all peers (m ∷ deferred) p = route_all peers deferred (route_slot_msg peers m p)

-- A player's leave.
unfoldable pub leave : ℕ → Players → Players
leave slot p = elim (find slot p.slots) [
  | none ↦ p
  | some epoch ↦ record p { slots = remove slot p.slots; closed = p.closed ++ (slot, epoch) ∷ [] }
]

-- A leave without a slot, as older servers send it: a lone player is dropped.
unfoldable pub leave_unnamed : List (ℕ × ℕ) → Players → Players
leave_unnamed ((slot, epoch) ∷ []) p = record p {
  slots = [];
  closed = p.closed ++ (slot, epoch) ∷ [];
}
leave_unnamed slots p = p

-- A join, with the queue behind it: the newest joins first, and then what was put off.
unfoldable pub join_burst : Peers → ℕ → ℕ → List SignalMessage → Players → Option Players
join_burst peers slot epoch inbound p =
    elim (handle_joins peers (take_queued_joins inbound slot epoch).0 p) [
      | none ↦ none
      | some q ↦ some (route_all peers (take_queued_joins inbound slot epoch).1 q)
    ]

abbrev pub with_queue : List SignalMessage → Option Players → Option (Players × List SignalMessage)
with_queue inbound none = none
with_queue inbound (some p) = some (p, inbound)

-- One message of the branch, with the queue behind it and the queue that is left. The messages that touch no
-- slot's connection leave these.
unfoldable pub receive :
    Peers → SignalMessage → List SignalMessage → Players → Option (Players × List SignalMessage)
receive peers (SignalMessage.peer_joined role epoch slot) inbound p =
    with_queue [] (join_burst peers slot epoch inbound p)
receive peers (SignalMessage.peer_left slot) inbound p =
    some (if slot == 0 then leave_unnamed p.slots p else leave slot p, inbound)
receive peers m inbound p = some (route_slot_msg peers m p, inbound)
