-- ===== src/Protocol.antt =====
-- crates/protocol/src/lib.rs: the wire format between the daemon and the tablet app.
pub mod Bytes
pub mod Headers
pub mod Control
pub mod Reverse
pub mod Scenarios
