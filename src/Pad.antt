-- ===== src/Pad.antt =====
-- crates/pad: the virtual pads of the host.
pub mod VhidProto
pub mod Buttons
pub mod Parse
pub mod MapFrame
pub mod ParseDs4
pub mod ParseXbox
pub mod ParseSwitch
pub mod ParseSteam
pub mod Recognize
pub mod Sim
mod Examples
