-- ===== src/Contract.antt =====
-- crates/contract/src/lib.rs: the record that the orchestrator produces, and its grade.
pub mod Grading
use assayist.Common.{
  ℕ, String, List, [], ◌∷◌, ◌++◌, Option, none, some, Bool, true, false, not, ◌&&◌, ◌||◌,
  if◌then◌else◌, any, is_empty, is_some,
}
use assayist.Text.{◌==◌}
use assayist.Json.{Value}
use assayist.Json.Equality.{value_eq}
use assayist.Platform.{Platform}

pub data Grade : Type 0 where
  reproducible : Grade
  valid : Grade
  invalid : Grade

-- what `serde` writes for a grade
abbrev pub grade_name : Grade → String
grade_name reproducible = "reproducible"
grade_name valid = "valid"
grade_name invalid = "invalid"

abbrev pub schema_version : String
schema_version = "0.1.0"

pub record Identity (N : Type 0) : Type 0 where
  pub target_adapter : String
  pub target_adapter_version : String
  pub workload_driver : String
  pub workload_driver_version : String
  pub sut_git_sha : String
  pub params : Value N
  pub params_hash : String
  pub benchmark_def_sha : String
  pub source : String

pub record Fingerprint (N : Type 0) : Type 0 where
  pub hostname : String
  pub kernel_version : String
  pub os_release : String
  pub cpu_model : String
  pub cpu_count_logical : ℕ
  pub cpu_count_physical : ℕ
  pub smt_enabled : Bool
  pub cpu_governor : String
  pub thp_setting : String
  pub total_memory_bytes : ℕ
  pub kvm_present : Bool
  pub tenancy : String
  pub tuning_requested : Value N
  pub tuning_readback : Value N
  pub numa_topology : Option (Value N)
  pub pinning_layout : Option (Value N)
  pub mitigations : Option (Value N)
  pub microcode_version : Option String
  pub nested_virt : Option Bool

pub record AssayRun (N : Type 0) : Type 0 where
  pub schema : String
  pub run_id : String
  pub identity : Identity N
  pub fingerprint : Fingerprint N
  pub spans : List (Value N)
  pub series : List (Value N)
  pub self_metrics : List (Value N)
  pub gate : Value N
  pub outcome : Option (Value N)
  pub workload_report : Option (Value N)
  pub grade : Grade

-- what a capture gadget emits
pub record Fragment (N : Type 0) : Type 0 where
  pub series : List (Value N)
  pub self_metrics : List (Value N)
  pub capture_meta : Option (Value N)

module _ {N : Type 0} where
  abbrev pub has_extended : Fingerprint N → Bool
  has_extended fp =
      is_some fp.numa_topology
      && is_some fp.pinning_layout
      && is_some fp.mitigations
      && is_some fp.microcode_version
      && is_some fp.nested_virt

  -- the loop that merges the fragments
  abbrev pub merge :
      (Fragment N → List (Value N)) → List (Value N) → List (Fragment N) → List (Value N)
  merge part acc [] = acc
  merge part acc (f ∷ fs) = merge part (acc ++ part f) fs

  -- a fragment that shows that a probe ran
  abbrev pub shows_probe : Fragment N → Bool
  shows_probe f = not (is_empty f.series) || is_some f.capture_meta

  abbrev pub probes_ran_in : List (Fragment N) → Bool
  probes_ran_in fragments = any shows_probe fragments

module _ ⦃p : Platform⦄ where
  open p use {N, number_eq}

  abbrev pub tuning_consistent : Fingerprint N → Bool
  tuning_consistent fp = value_eq number_eq fp.tuning_requested fp.tuning_readback

  unfoldable pub compute_grade : AssayRun N → Bool → Grade
  compute_grade run probes_ran =
      let self_metrics_ok = not probes_ran || not (is_empty run.self_metrics) in
      if not (tuning_consistent run.fingerprint)
      then invalid
      else if run.identity.source == "imported"
      then valid
      else if has_extended run.fingerprint && self_metrics_ok
      then reproducible
      else valid

  -- the run before its grade is stamped
  unfoldable pub ungraded :
      String
      → Identity N
      → Fingerprint N
      → Value N
      → List (Fragment N)
      → List (Value N)
      → AssayRun N
  ungraded run_id identity fingerprint gate fragments spans = record {
    schema = schema_version;
    run_id = run_id;
    identity = identity;
    fingerprint = fingerprint;
    spans = spans;
    series = merge (λ f. f.series) [] fragments;
    self_metrics = merge (λ f. f.self_metrics) [] fragments;
    gate = gate;
    outcome = none;
    workload_report = none;
    grade = invalid;
  }

  unfoldable pub assemble :
      String
      → Identity N
      → Fingerprint N
      → Value N
      → List (Fragment N)
      → List (Value N)
      → AssayRun N
  assemble run_id identity fingerprint gate fragments spans =
      let run = ungraded run_id identity fingerprint gate fragments spans in
      record run { grade = compute_grade run (probes_ran_in fragments) }
