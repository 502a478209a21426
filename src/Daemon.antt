-- ===== src/Daemon.antt =====
-- crates/daemon/src: the reconciler, its allocators and its input devices.
pub mod Tracker
pub mod Input
pub mod Registry
pub mod Config
pub mod Output
pub mod Reconciler
pub mod Scenarios
