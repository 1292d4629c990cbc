-- ===== src/Signaling.antt =====
-- crates/signaling: the server that introduces hosts and players to one another.
pub mod Channels
pub mod Players
pub mod Session
pub mod Ws
mod Examples
