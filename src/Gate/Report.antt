-- ===== src/Gate/Report.antt =====
-- The JSON document that the gate writes, as a record: `outcome` and `report` of crates/gate/src/gate.rs.
use assayist.Common.{String, List, Option, Bool}
use assayist.BTreeMap.{BTreeMap}
use assayist.Platform.{Platform}
use assayist.Gate.Compare.{Detail}

module _ ⦃p : Platform⦄ where
  open p use {F}

  -- one object of `per_metric`
  pub record Entry : Type 0 where
    pub delta : F
    pub p_value : F
    pub significant : Bool
    pub noisy : Bool

  pub record Outcome : Type 0 where
    pub verdict : String
    pub per_metric : BTreeMap Entry
    pub notes : List String

  -- one object of the drift report's `detail`
  pub record DriftDetail : Type 0 where
    pub id : String
    pub status : String
    pub base_mean : F
    pub base_std : F
    pub cand_mean : F
    pub rel_delta : F
    pub slope : F
    pub slope_stderr : F

  pub data Details : Type 0 where
    ab_detail : List Detail → Details
    drift_detail : List DriftDetail → Details

  pub record Overhead : Type 0 where
    pub verdict : String
    pub worst_steady_cpu_fraction : BTreeMap F
    pub over_budget : List String

  pub record Report : Type 0 where
    pub mode : String
    pub detail : Details
    pub overhead : Option Overhead

  pub record GateResult : Type 0 where
    pub outcome : Outcome
    pub report : Report
