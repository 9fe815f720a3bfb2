-- ===== src/Examples/HostRuns.antt =====
-- The preparation of a host whose files are an association list, read back as they were written.
use assayist.Common.{
  String, List, [], ◌∷◌, Option, none, some, true, false, ◌≡◌, refl, ok, if◌then◌else◌, is_some,
}
use assayist.Text.{◌==◌}
use assayist.Contract.{Fingerprint}
use assayist.HostPrep.{TuningKnobs, HostPrep, Facts, Host, prepare, observe, build_fingerprint}
use assayist.HostPrep.Consistency.{IsPrepared, prepare-IsPrepared}
use assayist.HostPrep.Linux.Governor.{Files, set_governor, write_all}
use assayist.HostPrep.Linux.Governor.Writes.{IsGoverned, set_governor-IsGoverned}
use assayist.Examples.Fixed.{Fixed, fixed_platform}

abbrev facts : Facts Fixed
facts = record {
  hostname = "lab";
  kernel_version = "6.11.0";
  os_release = "Ubuntu 26.04";
  cpu_model = "Ryzen";
  cpu_count_logical = 16;
  cpu_count_physical = 8;
  smt_enabled = false;
  cpu_governor = "performance";
  thp_setting = "never";
  total_memory_bytes = 137438953472;
  kvm_present = true;
  numa_topology = none;
  mitigations = none;
  microcode_version = none;
  nested_virt = none;
}

abbrev no_knobs : TuningKnobs
no_knobs = record { cpu_governor = none; smt = none; thp = none }

abbrev wanted : HostPrep
wanted = record {
  knobs = record { cpu_governor = some "performance"; smt = some false; thp = none };
  pin_threads = false;
}

-- a machine that keeps the knobs it was given last
abbrev host : Host TuningKnobs Fixed
host = record {
  facts = λ w. (ok facts, w);
  read_tuning = λ k w. (ok w, w);
  apply_tuning = λ k w. (ok tt, k);
}

abbrev prepared : Fingerprint Fixed
prepared = build_fingerprint facts wanted.knobs wanted.knobs "single_tenant" none

prepares : prepare host wanted "single_tenant" no_knobs ≡ (ok prepared, wanted.knobs)
unfolding prepare observe
prepares = refl

prepare-IsPrepared_example :
    IsPrepared ⦃p = fixed_platform⦄ host wanted "single_tenant" no_knobs prepared wanted.knobs
prepare-IsPrepared_example =
    prepare-IsPrepared ⦃p = fixed_platform⦄ host wanted "single_tenant" no_knobs wanted.knobs
      prepared prepares

abbrev Disk : Type 0
Disk = List (String × String)

abbrev content : String → Disk → Option String
content path [] = none
content path ((k, v) ∷ d) = if k == path then some v else content path d

abbrev overwrite : String → String → Disk → Disk
overwrite path v [] = []
overwrite path v ((k, u) ∷ d) = (k, if k == path then v else u) ∷ overwrite path v d

-- two CPUs, the second without a governor, among entries that are none
abbrev sysfs : Files
sysfs = record {
  D = Disk;
  read_to_string = content;
  write = λ path v d. (ok tt, overwrite path v d);
  exists = λ path d. is_some (content path d);
  read_dir = λ path d. ok ("cpufreq" ∷ "cpu0" ∷ "cpu1" ∷ "cpuidle" ∷ []);
}

abbrev governor_of_cpu0 : String
governor_of_cpu0 = "/sys/devices/system/cpu/cpu0/cpufreq/scaling_governor"

abbrev before : Disk
before = (governor_of_cpu0, "powersave") ∷ []

abbrev after : Disk
after = (governor_of_cpu0, "performance") ∷ []

governor_written : set_governor sysfs "performance" before ≡ (ok tt, after)
unfolding set_governor write_all
governor_written = refl

set_governor-IsGoverned_example : IsGoverned sysfs "performance" before after
set_governor-IsGoverned_example =
    set_governor-IsGoverned sysfs "performance" before after governor_written
