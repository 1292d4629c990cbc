-- ===== src/Signaling/Session/Store.antt =====
-- `SessionStore` of crates/signaling/src/session.rs: every operation that reads or changes a session.
-- `now` is the instant that `Utc::now()` gives during the call. Messages that an operation sends come
-- back as a list of receiver and message, in the order of sending.
use couchlink.Base.{
  ℕ, ◌+◌, ◌-◌, ◌%◌, ◌^◌, List, [], ◌∷◌, ◌++◌, Option, none, some, drop, length, Bool, true, ltb,
  leb, not, bytes_eq, if◌then◌else◌,
}
use couchlink.Proto.Signal.{Role, SignalMessage}
use couchlink.Signaling.Channels.{Channels}
use couchlink.Signaling.Players
use couchlink.Signaling.Players.{PlayerTable, max_players}
use couchlink.Signaling.Session.{Metrics, fetch_add}
use couchlink.Signaling.Session.Map.{Text, find, put}

pub data AuditEventKind : Type 0 where
  host_registered player_registered peer_left pin_failure session_expired : AuditEventKind

-- The texts that the store writes as details.
pub data Detail : Type 0 where
  no_detail : Detail
  attempt : ℕ → Detail
  stale_socket : Role → Detail
  left_as : Role → Detail

pub record AuditEvent : Type 0 where
  pub ts : ℕ
  pub session_id : Text
  pub kind : AuditEventKind
  pub detail : Detail

abbrev pub audit_cap : ℕ
audit_cap = 500

-- `AuditLog::record`: the newest `cap` events stay.
unfoldable pub record_event : List AuditEvent → AuditEvent → List AuditEvent
record_event events e = let all = events ++ e ∷ [] in drop (length all - audit_cap) all

-- The errors of a registration, which the source writes as texts.
pub data RegisterError : Type 0 where
  locked_out unknown_session invalid_pin session_full : RegisterError

pub data Result (A : Type 0) : Type 0 where
  ok : A → Result A
  err : RegisterError → Result A

-- What goes out to a socket: a message as JSON, a text as it came in, the error message of a refused
-- registration, the error message of a text that is no message, and a WebSocket pong with its payload.
pub data Outgoing : Type 0 where
  json : SignalMessage → Outgoing
  verbatim : Text → Outgoing
  refused : RegisterError → Outgoing
  garbled : Outgoing
  pong_frame : Text → Outgoing

-- Five minutes.
abbrev pub lock_time : ℕ
lock_time = 300_000

abbrev pub or_else {ℓ} : {A : Type ℓ} → Option A → Option A → Option A
or_else none o = o
or_else (some a) o = some a

module _ (ch : Channels) where
  open ch use {Sender, same_channel}

  pub record Session : Type 0 where
    pub pin : Text
    pub device_name : Option Text
    pub preset : Option Text
    pub emulator : Option Text
    pub host_tx : Option Sender
    pub players : PlayerTable ch
    pub pin_failures : ℕ
    pub locked_until : Option ℕ
    pub last_activity : ℕ
    pub host_pad : Option (Text × Text)

  pub record SessionStore : Type 0 where
    pub sessions : List (Text × Session)
    pub connections : ℕ
    pub audit : List AuditEvent
    pub metrics : Metrics
    pub max_pin_failures : ℕ
    pub session_ttl : ℕ

  abbrev pub Sent : Type 0
  Sent = List (Sender × Outgoing)

  -- Writes one session and keeps all else.
  abbrev pub write : SessionStore → Text → Session → SessionStore
  write st id e = record st { sessions = put id e st.sessions }

  abbrev pub log : SessionStore → ℕ → Text → AuditEventKind → Detail → SessionStore
  log st now id kind detail = record st {
    audit =
        record_event st.audit (record { ts = now; session_id = id; kind = kind; detail = detail });
  }

  -- `check_pin_lock` succeeds.
  abbrev pub is_unlocked : Session → ℕ → Bool
  is_unlocked e now = elim e.locked_until [ none ↦ true | some until ↦ not (ltb now until) ]

  -- The session after one more wrong PIN.
  unfoldable pub fail_session : ℕ → ℕ → Session → Session
  fail_session max_failures now e =
      let n = (e.pin_failures + 1) % 2 ^ 32 in
      if leb max_failures n
      then record e { pin_failures = 0; locked_until = some (now + lock_time) }
      else record e { pin_failures = n }

  unfoldable pub record_pin_failure : SessionStore → Text → ℕ → SessionStore
  record_pin_failure st id now = elim (find id st.sessions) [
    | none ↦ st
    | some e ↦
        log
          (record st {
            sessions = put id (fail_session st.max_pin_failures now e) st.sessions;
            metrics = record st.metrics { pin_failures = fetch_add st.metrics.pin_failures };
          })
          now id pin_failure (attempt ((e.pin_failures + 1) % 2 ^ 32))
  ]

  -- The session that `or_insert_with` makes.
  unfoldable pub new_session : Text → Option Text → Option Text → Option Text → ℕ → Session
  new_session pin device_name preset emulator now = record {
    pin = pin;
    device_name = device_name;
    preset = preset;
    emulator = emulator;
    host_tx = none;
    players = Players.default ch;
    pin_failures = 0;
    locked_until = none;
    last_activity = now;
    host_pad = none;
  }

  -- `entry(..).or_insert_with(..)`: the store with the entry, and the entry.
  unfoldable pub entry_or_insert : SessionStore → Text → Session → SessionStore × Session
  entry_or_insert st id fresh = elim (find id st.sessions) [
    | some e ↦ (st, e)
    | none ↦ (
      record st {
        sessions = put id fresh st.sessions;
        metrics = record st.metrics { sessions_active = fetch_add st.metrics.sessions_active };
      },
      fresh,
    )
  ]

  unfoldable pub register_host_entry :
      SessionStore
      → Text
      → Session
      → Text
      → Option Text
      → Option Text
      → Option Text
      → Sender
      → ℕ
      → SessionStore × Result (Unit {0})
  register_host_entry st id e pin device_name preset emulator tx now =
      if not (is_unlocked e now)
      then (st, err locked_out)
      else if not (bytes_eq e.pin pin)
      then (record_pin_failure st id now, err invalid_pin)
      else (
        log
            (record st {
              sessions =
                  put id
                    (record e {
                      device_name = or_else device_name e.device_name;
                      preset = or_else preset e.preset;
                      emulator = or_else emulator e.emulator;
                      host_tx = some tx;
                      last_activity = now;
                    })
                    st.sessions;
              metrics = record st.metrics {
                hosts_registered = fetch_add st.metrics.hosts_registered;
              };
            })
            now id host_registered no_detail,
        ok tt,
      )

  unfoldable pub register_host :
      SessionStore
      → Text
      → Text
      → Option Text
      → Option Text
      → Option Text
      → Sender
      → ℕ
      → SessionStore × Result (Unit {0})
  register_host st id pin device_name preset emulator tx now =
      let (st', e) = entry_or_insert st id (new_session pin device_name preset emulator now) in
      register_host_entry st' id e pin device_name preset emulator tx now

  unfoldable pub set_host_pad : SessionStore → Text → Text → Text → SessionStore
  set_host_pad st id kind pad = elim (find id st.sessions) [
    | none ↦ st
    | some e ↦ write st id (record e { host_pad = some (kind, pad) })
  ]

  unfoldable pub host_pad : SessionStore → Text → Option (Text × Text)
  host_pad st id = elim (find id st.sessions) [ none ↦ none | some e ↦ e.host_pad ]

  unfoldable pub seated_for_host_replay : SessionStore → Text → SessionStore × List (ℕ × ℕ)
  seated_for_host_replay st id = elim (find id st.sessions) [
    | none ↦ (st, [])
    | some e ↦
        let (t, out) = Players.replay_for_host ch e.players in
        (write st id (record e { players = t }), out)
  ]

  -- The seat that a player socket gets: its own, if it has one.
  unfoldable pub take_slot : PlayerTable ch → Sender → PlayerTable ch × Option (ℕ × ℕ)
  take_slot t tx = elim (Players.slot_of ch t tx) [
    | some slot ↦ Players.reassert ch t tx
    | none ↦ Players.assign ch t tx
  ]

  -- The end of `register_player`; `ok_or_else` leaves early when the table is full.
  unfoldable pub seat_player :
      SessionStore
      → Text
      → Session
      → ℕ
      → PlayerTable ch × Option (ℕ × ℕ)
      → SessionStore × Result (ℕ × ℕ)
  seat_player st id e now (t, none) = (write st id (record e { players = t }), err session_full)
  seat_player st id e now (t, some seat) = (
    log
        (record st {
          sessions = put id (record e { players = t; last_activity = now }) st.sessions;
          metrics = record st.metrics {
            players_registered = fetch_add st.metrics.players_registered;
          };
        })
        now id player_registered no_detail,
    ok seat,
  )

  unfoldable pub register_player :
      SessionStore → Text → Text → Sender → ℕ → SessionStore × Result (ℕ × ℕ)
  register_player st id pin tx now = elim (find id st.sessions) [
    | none ↦ (st, err unknown_session)
    | some e ↦
        if not (is_unlocked e now)
        then (st, err locked_out)
        else if not (bytes_eq e.pin pin)
        then (record_pin_failure st id now, err invalid_pin)
        else seat_player st id e now (take_slot e.players tx)
  ]
