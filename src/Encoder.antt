-- ===== src/Encoder.antt =====
-- crates/encoder/src/lib.rs: the encoder's formats, its choice of a backend and its pipeline.
pub mod Modifiers
pub mod Pipeline
pub mod Scenarios
