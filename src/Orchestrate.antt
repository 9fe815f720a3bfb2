-- ===== src/Orchestrate.antt =====
-- crates/orchestrate/src/main.rs: the choice of a target, and the instances of a concurrent run.
pub mod Pinning
use assayist.Common.{
  ℕ, zero, suc, ◌+◌, ◌*◌, ◌%◌, ◌^◌, String, List, [], ◌∷◌, Option, none, some, Bool, ◌||◌,
  if◌then◌else◌, and_then, unwrap_or, leb,
}
use assayist.Text.{◌==◌}
use assayist.Text.Number.{show_ℕ, parse_uint}
use assayist.Json.{Value, string}
use assayist.BTreeMap.{BTreeMap, get, insert}
use assayist.Platform.{Platform}
use assayist.Def.{BenchmarkDef}
use assayist.Otlp.{or_other}
use assayist.Adapter.Command.{CommandSet}
use assayist.Native.Firecracker.{firecracker_target}
use assayist.Native.Firecracker.Commands.{FirecrackerTarget}
use assayist.Native.Vmm.{
  QemuTarget, CloudHypervisorTarget, UnikernelTarget, qemu_target, ch_target, unikernel_target,
}

-- what `select_target` boxes
pub data Selected : Type 0 where
  firecracker : FirecrackerTarget → Selected
  qemu : QemuTarget → Selected
  cloud_hypervisor : CloudHypervisorTarget → Selected
  unikernel : UnikernelTarget → Selected
  command : CommandSet → Selected

-- one target, or those of a fanout
pub data Built : Type 0 where
  plain : Selected → Built
  fanned : List Selected → Built

-- `max(1)`
abbrev pub at_least_one : ℕ → ℕ
at_least_one zero = 1
at_least_one (suc n) = suc n

module _ ⦃p : Platform⦄ where
  open p use {N, print}

  -- `select_target`, in the process `pid`, at the time `nonce`
  unfoldable pub select_target : ℕ → ℕ → BenchmarkDef → BTreeMap String → Bool → Selected
  select_target pid nonce def vars pin_threads =
      let adapter = def.target.adapter in
      if adapter == "firecracker"
      then firecracker (firecracker_target pid nonce def.target.config vars pin_threads)
      else if adapter == "qemu"
      then qemu (qemu_target pid def.target.config vars pin_threads)
      else if adapter == "cloud-hypervisor" || adapter == "chv"
      then cloud_hypervisor (ch_target pid def.target.config vars pin_threads)
      else if adapter == "unikernel"
      then unikernel (unikernel_target pid def.target.config vars pin_threads)
      else command (record { commands = def.target.commands; vars = vars })

  abbrev pub config_text : Option (Value N) → Option String
  config_text (some (string s)) = some s
  config_text (some other) = some (print other)
  config_text none = none

  -- a count from the cell, or from the configuration as it is written
  abbrev pub count_of : String → BenchmarkDef → BTreeMap String → ℕ
  count_of key def vars = at_least_one (
      unwrap_or
        (and_then (or_other (get key vars) (config_text (get key def.target.config)))
          (parse_uint (2 ^ 32)))
        1)

  -- `instances_of`
  unfoldable pub instances_of : BenchmarkDef → BTreeMap String → ℕ
  instances_of def vars = count_of "instances" def vars

  unfoldable pub vcpu_of : BenchmarkDef → BTreeMap String → ℕ
  vcpu_of def vars = count_of "vcpu" def vars

  abbrev pub instance_vars : BTreeMap String → ℕ → Bool → ℕ → BTreeMap String
  instance_vars vars vcpu pin_threads i =
      let v = insert "instance" (show_ℕ i) vars in
      if pin_threads then insert "cpu_base" (show_ℕ (i * vcpu % 2 ^ 32)) v else v

  -- the `count` instances from `i` on, each constructed at a time of its own
  unfoldable pub inners_from :
      ℕ → (ℕ → ℕ) → BenchmarkDef → BTreeMap String → Bool → ℕ → ℕ → List Selected
  inners_from pid nonce def vars pin_threads zero i = []
  inners_from pid nonce def vars pin_threads (suc count) i =
      select_target pid (nonce i) def (instance_vars vars (vcpu_of def vars) pin_threads i)
        pin_threads
      ∷ inners_from pid nonce def vars pin_threads count (i + 1)

  -- `build_target`
  unfoldable pub build_target : ℕ → (ℕ → ℕ) → BenchmarkDef → BTreeMap String → Bool → Built
  build_target pid nonce def vars pin_threads =
      if leb (instances_of def vars) 1
      then plain (select_target pid (nonce 0) def vars pin_threads)
      else fanned (inners_from pid nonce def vars pin_threads (instances_of def vars) 0)
