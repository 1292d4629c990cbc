-- ===== src/Host.antt =====
-- crates/host: the parts of the host agent.
pub mod LinkGov
pub mod Motion
pub mod Scale
pub mod Peer
pub mod Joins
pub mod FanOut
pub mod Slots
pub mod Bridge
mod Examples
