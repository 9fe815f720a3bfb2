-- ===== src/Run.antt =====
-- crates/orchestrate/src/run.rs: the identity and the gate context of a run.
use assayist.Common.{String, List, unwrap_or, map}
use assayist.Json.{Value, string, number, array, object, done, field, of_items}
use assayist.Platform.{Platform, json_f64}
use assayist.Contract.{Identity, Fingerprint, Fragment, AssayRun}
use assayist.Contract
use assayist.Def.{BenchmarkDef}

pub record AdapterVersions : Type 0 where
  pub target : String
  pub workload : String

abbrev pub default_versions : AdapterVersions
default_versions = record { target = "0.0.0"; workload = "0.0.0" }

module _ ⦃p : Platform⦄ where
  open p use {N, of_u64, decimal}

  unfoldable pub build_identity :
      BenchmarkDef → Value N → String → String → String → AdapterVersions → Identity N
  build_identity def params params_hash benchmark_def_sha sut_git_sha versions = record {
    target_adapter = def.target.adapter;
    target_adapter_version = versions.target;
    workload_driver = def.workload.driver;
    workload_driver_version = versions.workload;
    sut_git_sha = sut_git_sha;
    params = params;
    params_hash = params_hash;
    benchmark_def_sha = benchmark_def_sha;
    source = "captured";
  }

  -- the gate context: the keys of the object ascend
  unfoldable pub build_gate_context : BenchmarkDef → String → Value N
  build_gate_context def baseline_ref = object (
      field "baseline_ref" (string baseline_ref) (
        field "ignore" (array (of_items (map string def.gate.ignore))) (
          field "mode" (string def.gate.mode) (
            field "noise_threshold" (json_f64 (unwrap_or def.gate.noise_threshold (decimal 5 2))) (
              field "p_threshold" (json_f64 (unwrap_or def.gate.p_threshold (decimal 1 2))) (
                field "resamples" (number (of_u64 (unwrap_or def.gate.resamples 10000)))
                  (field "tenancy" (string def.tenancy) done)))))))

  unfoldable pub assemble :
      String
      → Identity N
      → Fingerprint N
      → Value N
      → List (Fragment N)
      → List (Value N)
      → AssayRun N
  assemble run_id identity fingerprint gate fragments spans =
      Contract.assemble run_id identity fingerprint gate fragments spans
