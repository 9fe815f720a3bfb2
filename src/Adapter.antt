-- ===== src/Adapter.antt =====
-- crates/orchestrate/src/adapter.rs: the interfaces of targets and workloads, over the state `W` of the machine.
pub mod Command
pub mod Fanout
pub mod Memory
pub mod Drive
use assayist.Common.{ℕ, String, List, Option}
use assayist.Json.{Value}
use assayist.Effects.{Action}

-- `Shell`: runs a command line and returns its output
abbrev pub Shell : Type 0 → Type 0
Shell W = String → Action W String

pub record NetAttribution : Type 0 where
  pub tap : String
  pub ifindex : ℕ
  pub guest_mac : String
  pub netns_inum : ℕ

-- `Target`, with the shell that every call is given closed over; a method with no `Result` has no error
pub record Target (W N : Type 0) : Type 0 where
  pub version : W → String × W
  pub provision : Action W (Unit {0})
  pub start : Action W (Unit {0})
  pub reach_steady : Action W (Unit {0})
  pub spans : Action W (List (Value N))
  pub teardown : Action W (Unit {0})
  pub pinning_layout : W → Option (Value N)
  pub resident_files : W → List (String × String)
  pub net_attribution : W → List NetAttribution × W

pub record Workload (W N : Type 0) : Type 0 where
  pub version : W → String × W
  pub start : Action W (Unit {0})
  pub stop : Action W (Unit {0})
  pub report : Action W (Value N)
