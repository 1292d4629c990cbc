-- ===== src/Host/Joins/Examples.antt =====
-- A reload in slot 2 while slot 1 joins.
use couchlink.Base.{ℕ, ◌≡◌, refl, List, [], ◌∷◌, none, some, ◌==◌, if◌then◌else◌}
use couchlink.Base.Slots.{find}
use couchlink.Proto.Signal.{SignalMessage, Role}
use couchlink.Host.Joins.{take_queued_joins}
use couchlink.Host.Joins.Newest.{newest, Ascending, take_queued_joins_lem}

abbrev queue : List SignalMessage
queue =
    SignalMessage.peer_joined Role.player 5 1
    ∷ SignalMessage.request_offer 3
    ∷ SignalMessage.peer_joined Role.player 9 2
    ∷ SignalMessage.peer_joined Role.player 8 2
    ∷ []

take_queued_joins_lem_example :
    ((j : ℕ)
      → find j (take_queued_joins queue 2 7).0 ≡ newest j queue (if 2 == j then some 7 else none))
    × Ascending (take_queued_joins queue 2 7).0
    × ((take_queued_joins queue 2 7).1 ≡ SignalMessage.request_offer 3 ∷ [])
take_queued_joins_lem_example = take_queued_joins_lem queue 2 7

newest_of_two : newest 2 queue (some 7) ≡ some 9
newest_of_two = refl
