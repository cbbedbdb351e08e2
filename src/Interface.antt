-- ===== src/Interface.antt =====
-- crates/ertw_interface/src/lib.rs: what the world and an agent exchange.
pub mod Wire
pub mod Action
pub mod Observation
mod Tests
pub mod Session
