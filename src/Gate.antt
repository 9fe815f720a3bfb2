-- ===== src/Gate.antt =====
-- crates/gate/src/gate.rs and crates/gate/src/main.rs: the decision gate.
pub mod Run
pub mod Collect
pub mod Validate
pub mod Compare
pub mod Report
pub mod Ab
pub mod Drift
pub mod Triad
pub mod Command
