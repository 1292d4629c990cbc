-- ===== src/Signaling/Ws/Examples.antt =====
-- Concrete runs of the WebSocket handlers, with senders that are numbers and a parser of four texts.
use couchlink.Base.{ℕ, Text, Option, none, some, [], ◌∷◌, ◌≡◌, refl, bytes_eq, if◌then◌else◌}
use couchlink.Proto.Signal
use couchlink.Proto.Signal.{Role, host, player, SignalMessage}
use couchlink.Signaling.Channels.{Channels, numbered_channels}
use couchlink.Signaling.Session.Store
use couchlink.Signaling.Session.Store.{ok, Sent, SessionStore}
use couchlink.Signaling.Session.Invariant.{IsStore}
use couchlink.Signaling.Session.Map.{find, put}
use couchlink.Signaling.Players
use couchlink.Signaling.Session.Reachable.{
  with_limits, Reachable, starts, steps, hosts, plays, Reachable-IsStore,
}
use couchlink.Signaling.Ws.Seats.Kept.{register_player-PlayerRegistered}
use couchlink.Signaling.Ws.{
  handle_frame, Conn, text, close, handle_message, handle_socket, close_socket, open_socket,
}
use couchlink.Signaling.Ws.Stamps.{AllSent, SpeaksOnlyFor, handle_message-stamped}
use couchlink.Signaling.Ws.Seats.{HoldsSeat}
use couchlink.Signaling.Ws.Steps.{Steps}
use couchlink.Signaling.Ws.Outcomes.{handle_socket-Steps}
use couchlink.Signaling.Ws.Server.{
  Runs, boots, accepts, turns, handles, another, ends, IsServer, Runs-IsServer,
}
use couchlink.Signaling.Ws.Leaks.{second-session_leaks}

abbrev ch : Channels
ch = numbered_channels

abbrev room : Text
room = 1 ∷ []

abbrev hall : Text
hall = 2 ∷ []

abbrev pin : Text
pin = 4 ∷ 2 ∷ []

-- The texts that the sockets of the examples send.
abbrev hosting : Text
hosting = 10 ∷ []

abbrev joining : Text
joining = 11 ∷ []

abbrev answering : Text
answering = 12 ∷ []

abbrev from_json : Text → Option SignalMessage
from_json t =
    if bytes_eq t hosting
    then some (Signal.register_host room pin none none none)
    else if bytes_eq t joining
    then some (Signal.register_player room pin none)
    else if bytes_eq t answering
    then some (Signal.answer [] 1 3)
    else none

abbrev empty_store : SessionStore ch
empty_store = with_limits ch 3 600

abbrev from_std : ℕ → Option ℕ
from_std d = some d

-- Socket 3 hosts the two sessions, and socket 7 plays in the first.
abbrev one_room : SessionStore ch
one_room = (Store.register_host ch empty_store room pin none none none 3 10).0

abbrev two_rooms : SessionStore ch
two_rooms = (Store.register_host ch one_room hall pin none none none 3 11).0

abbrev in_room : SessionStore ch
in_room = (Store.register_player ch two_rooms room pin 7 20).0

abbrev player_conn : Conn ch
player_conn = record { session_id = some room; role = some player; player_slot = some 1; tx = 7 }

handle_message-stamped_example :
    AllSent ch
      (SpeaksOnlyFor ch (some 1))
      (handle_message ch in_room player_conn answering 30 (Signal.answer [] 1 3)).2
handle_message-stamped_example =
    handle_message-stamped ch in_room player_conn answering 30 (Signal.answer [] 1 3) refl refl

handle_socket-Steps_example :
    let st' =
      (handle_socket ch from_json one_room 7
        ((text joining, 20) ∷ (text answering, 21) ∷ (close, 22) ∷ [])
        23).0 in
    Steps ch from_std (some 7) one_room st' × (IsStore ch one_room → IsStore ch st')
handle_socket-Steps_example =
    handle_socket-Steps ch from_std from_json one_room 7
      ((text joining, 20) ∷ (text answering, 21) ∷ (close, 22) ∷ []) 23

-- Two sockets are accepted, one hosts, the other plays, and the host leaves.
abbrev host_conn : Conn ch
host_conn = (open_socket ch empty_store 3).1

abbrev accepted : SessionStore ch
accepted = (open_socket ch (open_socket ch empty_store 3).0 7).0

abbrev guest_conn : Conn ch
guest_conn = (open_socket ch empty_store 7).1

abbrev hosted : SessionStore ch × Conn ch × Sent ch
hosted = (handle_frame ch from_json accepted host_conn 10 (text hosting)).1

abbrev joined : SessionStore ch × Conn ch × Sent ch
joined = (handle_frame ch from_json hosted.0 guest_conn 20 (text joining)).1

abbrev final : SessionStore ch
final = (close_socket ch joined.0 hosted.1 30).0

final-Runs : Runs ch from_std from_json 3 600 (record { store = final; conns = joined.1 ∷ [] })
unfolding open_socket
final-Runs =
    turns
      (turns
        (turns (accepts 7 (accepts 3 boots tt) (refl, tt))
          (another guest_conn (handles accepted host_conn [] 10 (text hosting))))
        (handles hosted.0 guest_conn (hosted.1 ∷ []) 20 (text joining)))
      (another joined.1 (ends joined.0 hosted.1 [] 30))

Runs-IsServer_example :
    IsServer ch from_std from_json (record { store = final; conns = joined.1 ∷ [] })
Runs-IsServer_example = Runs-IsServer ch from_std from_json 3 600 _ final-Runs

two_rooms-Reachable : Reachable ch from_std 3 600 two_rooms
two_rooms-Reachable =
    steps (steps starts (hosts empty_store room pin none none none 3 10))
      (hosts one_room hall pin none none none 3 11)

in_room-IsStore : IsStore ch in_room
in_room-IsStore =
    Reachable-IsStore ch from_std 3 600 in_room
      (steps two_rooms-Reachable (plays two_rooms room pin 7 20))

in_room-HoldsSeat : HoldsSeat ch in_room.sessions room 1 7
unfolding Store.register_player Store.register_host Store.entry_or_insert Store.register_host_entry
    Store.new_session Store.seat_player Store.take_slot find put with_limits Players.slot_of
    Players.held_position Players.assign Players.free_position Players.default
in_room-HoldsSeat =
    (register_player-PlayerRegistered ch two_rooms room pin 7 20
      (Reachable-IsStore ch from_std 3 600 two_rooms two_rooms-Reachable)).1

in_room-registers : (Store.register_player ch in_room hall pin 7 40).1 ≡ ok (1, 1)
unfolding Store.register_player Store.register_host Store.entry_or_insert Store.register_host_entry
    Store.new_session Store.seat_player Store.take_slot find put with_limits Players.slot_of
    Players.held_position Players.assign Players.free_position Players.default
in_room-registers = refl

second-session_leaks_example :
    let h = handle_message ch in_room player_conn [] 40 (Signal.register_player hall pin none) in
    HoldsSeat ch (close_socket ch h.0 h.1 50).0.sessions room 1 7
second-session_leaks_example =
    second-session_leaks ch in_room player_conn [] hall room pin none 1 40 50 (1, 1) in_room-IsStore
      in_room-HoldsSeat refl in_room-registers
