-- ===== src/Examples/ContractRuns.antt =====
-- The grade of a small run.
use assayist.Common.{List, [], ◌∷◌, some, true, false}
use assayist.Json.{Value, object, done, field, string}
use assayist.Contract.{Identity, Fingerprint, Fragment, assemble}
use assayist.Contract.Grading.{assemble-IsAssembled, IsAssembled}
use assayist.Examples.Fixed.{Fixed, fixed_platform}

abbrev pub identity : Identity Fixed
identity = record {
  target_adapter = "firecracker";
  target_adapter_version = "0.3.0";
  workload_driver = "fio";
  workload_driver_version = "0.1.0";
  sut_git_sha = "abc1234";
  params = object done;
  params_hash = "c1";
  benchmark_def_sha = "def5678";
  source = "captured";
}

abbrev tuning : Value Fixed
tuning = object (field "g" (string "performance") done)

abbrev pub fingerprint : Fingerprint Fixed
fingerprint = record {
  hostname = "lab";
  kernel_version = "6.11.0";
  os_release = "Ubuntu 26.04";
  cpu_model = "Ryzen";
  cpu_count_logical = 16;
  cpu_count_physical = 8;
  smt_enabled = false;
  cpu_governor = "performance";
  thp_setting = "never";
  total_memory_bytes = 137438953472;
  kvm_present = true;
  tenancy = "single_tenant";
  tuning_requested = tuning;
  tuning_readback = tuning;
  numa_topology = some (object done);
  pinning_layout = some (object done);
  mitigations = some (object done);
  microcode_version = some "x";
  nested_virt = some false;
}

-- a gadget that recorded a series and no cost
abbrev pub fragments : List (Fragment Fixed)
fragments =
    (record {
      series = object (field "name" (string "kvm.exit") done) ∷ [];
      self_metrics = [];
      capture_meta = some (object done);
    })
    ∷ []

assemble-IsAssembled_example :
    IsAssembled identity fingerprint fragments
      (assemble "01" identity fingerprint (object done) fragments [])
assemble-IsAssembled_example =
    assemble-IsAssembled "01" identity fingerprint (object done) fragments []
