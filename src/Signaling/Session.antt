-- ===== src/Signaling/Session.antt =====
-- crates/signaling/src/session.rs, with the metrics and the audit log that it writes: the session
-- store. A text is the list of its bytes, the concurrent map is an association list with at most one
-- entry for a key, and an instant is a number of milliseconds, read once in each call.
pub mod Map
pub mod Store
pub mod Peers
pub mod Lockout
pub mod Sockets
pub mod Sweep
pub mod Invariant
pub mod Reachable
use couchlink.Base.{
  ℕ, zero, suc, ◌+◌, ◌-◌, ◌%◌, ◌^◌, arith, List, [], ◌∷◌, ◌++◌, Option, none, some, drop, length,
}
use couchlink.Signaling.Channels.{Channels}
use couchlink.Signaling.Players.{PlayerTable}
use couchlink.Signaling.Session.Map.{Text}

-- metrics.rs; the gauges and counters wrap at 64 bits.
pub record Metrics : Type 0 where
  pub sessions_active : ℕ
  pub hosts_registered : ℕ
  pub players_registered : ℕ
  pub pin_failures : ℕ
  pub ws_connections : ℕ

abbrev pub fetch_add : ℕ → ℕ
fetch_add n = (n + 1) % 2 ^ 64

abbrev pub fetch_sub : ℕ → ℕ
fetch_sub n = (n + (2 ^ 64 - 1)) % 2 ^ 64
