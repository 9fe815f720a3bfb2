-- ===== src/Examples.antt =====
-- Concrete inputs of the models, over a signed fixed-point number for `f64`.
pub mod Fixed
pub mod GateRuns
pub mod StatRuns
pub mod CommandRuns
pub mod DefRuns
pub mod ContractRuns
pub mod NetRuns
pub mod OwnerRuns
pub mod DriveRuns
pub mod HostRuns
pub mod OtlpRuns
pub mod NativeRuns
pub mod TargetRuns
