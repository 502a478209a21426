-- ===== src/Transport.antt =====
-- crates/transport/src: the framed video transport and the wrapper over `adb`.
pub mod Socket
pub mod Sender
pub mod Adb
pub mod Scenarios
