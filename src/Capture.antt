-- ===== src/Capture.antt =====
-- crates/capture: what the compositor offers, which buffers are made for it and how frames are taken.
pub mod Constraints
pub mod Failure
pub mod Formats
pub mod Device
pub mod Session
pub mod Plasma
pub mod Scenarios
