-- ===== src/Core.antt =====
-- crates/ertw_core: the simulation. One module for each source file or part of one.
pub mod Components
pub mod Ledger
pub mod Rng
pub mod Tags
pub mod World
pub mod Actuation
pub mod Fragment
pub mod Economy
pub mod Registry
pub mod Lineage
pub mod Schedule
pub mod Spatial
pub mod Fields
pub mod Observe
pub mod Genesis
pub mod StableIds
pub mod Snapshot
pub mod Seeding
