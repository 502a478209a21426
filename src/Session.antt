-- ===== src/Session.antt =====
-- crates/daemon/src/session.rs: one streaming session.
pub mod Reader
pub mod Statistics
pub mod Geometry
pub mod Configuring
pub mod Threads
pub mod Scenarios
