-- ===== src/Proto.antt =====
-- crates/proto: the wire formats shared by host, client and signaling server.
pub mod Buffer
pub mod PadFrame
pub mod VideoFrame
pub mod Stun
pub mod Signal
mod Examples
