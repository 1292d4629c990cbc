-- ===== src/Signaling/Examples.antt =====
-- Concrete runs of the session store, with senders that are numbers.
use couchlink.Base.{ℕ, ◌≡◌, ◌+◌, ◌<◌, ◌⊎◌, refl, arith, [], ◌∷◌, Option, some, none}
use couchlink.Proto.Signal.{player}
use couchlink.Signaling.Channels.{Channels, numbered_channels}
use couchlink.Signaling.Players.{PlayerTable}
use couchlink.Signaling.Players.Laws.{IsTable}
use couchlink.Signaling.Session.Map.{Text, find}
use couchlink.Signaling.Session.Store.{
  Session, SessionStore, register_player, register_host, err, locked_out, lock_time,
}
use couchlink.Signaling.Session.Peers.{unregister}
use couchlink.Signaling.Session.Lockout.{Guess, guesses, guesses-locked}
use couchlink.Signaling.Session.Sockets.{PlayerStale, PlayerClosed, unregister-player}
use couchlink.Signaling.Session.Invariant.{IsStore}
use couchlink.Signaling.Session.Reachable.{
  with_limits, Reachable, starts, steps, hosts, plays, closes, Reachable-IsStore,
}

abbrev ch : Channels
ch = numbered_channels

-- Sockets 7 and 9 hold the slots 1 and 3.
abbrev seated : PlayerTable ch
seated = record { slots = some 7 ∷ none ∷ some 9 ∷ []; epoch = 5 }

seated-IsTable : IsTable ch seated
seated-IsTable = record { full_length = refl; distinct = ((refl, tt), (tt, tt)) }

abbrev room : Text
room = 1 ∷ []

abbrev pin : Text
pin = 4 ∷ 2 ∷ []

-- A session with host 3 and the two players, after one wrong PIN.
abbrev session : Session ch
session = record {
  pin = pin;
  device_name = none;
  preset = none;
  emulator = none;
  host_tx = some 3;
  players = seated;
  pin_failures = 1;
  locked_until = none;
  last_activity = 100;
  host_pad = none;
}

abbrev store : SessionStore ch
store = record {
  sessions = (room, session) ∷ [];
  connections = 3;
  audit = [];
  metrics = record {
    sessions_active = 1;
    hosts_registered = 1;
    players_registered = 2;
    pin_failures = 1;
    ws_connections = 3;
  };
  max_pin_failures = 3;
  session_ttl = 600;
}

found : find room store.sessions ≡ some session
unfolding find
found = refl

abbrev wrong : Guess ch
wrong = record { now = 200; pin = 5 ∷ []; tx = 11 }

guesses-locked_example :
    let locked = (register_player ch (guesses ch store room (wrong ∷ [])) room (5 ∷ []) 11 200).0 in
    (find room locked.sessions
      ≡ some (record session { pin_failures = 0; locked_until = some (200 + lock_time) }))
    × ((guess : Text) (tx : ℕ) (now : ℕ)
        → now < 200 + lock_time
        → (register_player ch locked room guess tx now ≡ (locked, err locked_out))
          × ((device_name preset emulator : Option Text)
              → register_host ch locked room guess device_name preset emulator tx now
                ≡ (locked, err locked_out)))
guesses-locked_example =
    guesses-locked ch store room session (wrong ∷ []) wrong found ((refl, refl), tt) refl refl refl
      (omega arith)

unregister-player_example :
    PlayerStale ch store session 9 (unregister ch store room player (some 9) 200)
    ⊎ PlayerClosed ch store room session 9 200 (unregister ch store room player (some 9) 200)
unregister-player_example = unregister-player ch store room session 9 200 found seated-IsTable

-- A host and a player register, and the player's socket closes.
abbrev hosted : SessionStore ch
hosted = (register_host ch (with_limits ch 3 600) room pin none none none 3 10).0

abbrev joined : SessionStore ch
joined = (register_player ch hosted room pin 7 20).0

abbrev left : SessionStore ch
left = (unregister ch joined room player (some 7) 30).0

left-Reachable : Reachable ch (λ d. some d) 3 600 left
left-Reachable =
    steps
      (steps (steps starts (hosts (with_limits ch 3 600) room pin none none none 3 10))
        (plays hosted room pin 7 20))
      (closes joined room player (some 7) 30)

Reachable-IsStore_example : IsStore ch left
Reachable-IsStore_example = Reachable-IsStore ch (λ d. some d) 3 600 left left-Reachable
