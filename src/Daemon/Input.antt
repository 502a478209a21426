-- ===== src/Daemon/Input.antt =====
-- crates/daemon/src/input.rs: the virtual input devices and the worker that drives them.
pub mod Device
pub mod Touchscreen
pub mod Pointer
pub mod Worker
pub mod Scenarios
