-- ===== src/Host/Slots/Examples.antt =====
-- Slot 1 leaves while slot 2 joins twice.
use couchlink.Base.{◌≡◌, refl, List, [], ◌∷◌, some, true, false}
use couchlink.Base.Slots.{find, put, remove}
use couchlink.Proto.Signal.{SignalMessage, Role}
use couchlink.Host.Joins.{take_queued_joins, sort_by_slot, drain_queue, coalesce}
use couchlink.Host.Joins.Newest.{newest}
use couchlink.Host.Slots.{
  Players, Peers, handle_slot_join, handle_joins, route_slot_msg, route_all, leave, join_burst,
  receive,
}
use couchlink.Host.Slots.Burst.{join_burst-newest}

abbrev peers : Peers
peers = record { builds = λ slot epoch. true; applies = λ slot. true }

abbrev one_player : Players
one_player = record { slots = (1, 4) ∷ []; closed = []; force_idr = false }

abbrev two_players : Players
two_players = record { slots = (1, 4) ∷ (2, 9) ∷ []; closed = []; force_idr = true }

abbrev inbound : List SignalMessage
inbound = SignalMessage.peer_left 1 ∷ SignalMessage.peer_joined Role.player 9 2 ∷ []

-- The player in slot 1 is still seated though it left.
both_seated : join_burst peers 2 7 inbound one_player ≡ some two_players
unfolding join_burst take_queued_joins handle_joins handle_slot_join route_all route_slot_msg find
    put sort_by_slot drain_queue coalesce
both_seated = refl

-- Without the join before it the leave is carried out.
left_alone :
    receive peers (SignalMessage.peer_left 1) [] one_player
    ≡ some (record { slots = []; closed = (1, 4) ∷ []; force_idr = false }, [])
unfolding receive leave find remove
left_alone = refl

join_burst-newest_example :
    find 1 two_players.slots
    ≡ newest 1 (SignalMessage.peer_joined Role.player 7 2 ∷ inbound) (find 1 one_player.slots)
join_burst-newest_example = join_burst-newest peers 2 7 inbound one_player two_players 1 both_seated
