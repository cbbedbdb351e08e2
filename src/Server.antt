-- ===== src/Server.antt =====
-- crates/ertw_server: the frames on the wire, the non-blocking controller and the lockstep session.
pub mod Frame
pub mod Stream
pub mod Remote
pub mod Connection
pub mod Lockstep
mod Tests
