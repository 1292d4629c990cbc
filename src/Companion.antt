-- ===== src/Companion.antt =====
-- crates/ds-vhid: the Windows companion, which holds one virtual controller for each player slot.
pub mod Registry
pub mod Session
mod Examples
