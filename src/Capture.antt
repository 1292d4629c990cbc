-- ===== src/Capture.antt =====
-- crates/capture-bridge: what stands between the host and the capture encoder.
pub mod EncodeTarget
pub mod Wire
pub mod Fit
pub mod Avcc
mod Examples
