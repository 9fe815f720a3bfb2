-- ===== src/Examples/NativeRuns.antt =====
-- Native targets and workloads over a shell that logs its commands and answers each with `7`.
use assayist.Common.{
  ℕ, String, [], ◌∷◌, ◌++◌, none, some, true, false, ◌≡◌, refl, Exec, ok, err, inl,
}
use assayist.Text.Number.{show_fuel, parse_uint, parse_digits}
use assayist.Text.Lines.{replace_from, chars}
use assayist.Json.{Value, number, string}
use assayist.BTreeMap.{BTreeMap, get}
use assayist.NetAttrib.{new_table}
use assayist.NetAttrib.Session.{AttributionSession}
use assayist.Effects.{◌>>◌}
use assayist.Effects.Triples.{Ensures}
use assayist.Capture.{GadgetRunner}
use assayist.Capture.Plan.{render}
use assayist.Adapter.{Shell, Workload}
use assayist.Adapter.Drive.{Stage, Machine, execute_run}
use assayist.Native.{cfg, base36, base36_loop, span}
use assayist.Native.Firecracker.{
  Cells, firecracker_target, firecracker, provision, start, configure, set_up_tap, timed,
}
use assayist.Native.Firecracker.Commands.{FirecrackerTarget}
use assayist.Native.Firecracker.Boots.{Booted, start-Booted}
use assayist.Native.Firecracker.Taps.{with_cells}
use assayist.Native.Firecracker.Attribution.{execute_run-refused}
use assayist.Native.Vmm.{
  QemuTarget, CloudHypervisorTarget, UnikernelTarget, qemu_target, ch_target, unikernel_target,
  qemu_launch_cmd, ch_launch_cmd, unikernel_launch_cmd, qemu, cloud_hypervisor, unikernel, launched,
  vmm_steady,
}
use assayist.Native.Vmm.Boots.{ComesUp, brought_up, all-ComeUp}
use assayist.Native.Fio.{FioWorkload, fio_workload, fio}
use assayist.Native.Fio.Reports.{IsReported, start-IsReported}
use assayist.Examples.Fixed.{Fixed, fixed_platform, whole}
use assayist.Examples.DriveRuns.{Log, obliging}

abbrev shell : Shell Log
shell cmd w = (ok "7", w ++ cmd ∷ [])

abbrev clock : Log → ℕ × Log
clock w = (5, w)

abbrev from_str : String → Exec (Value Fixed)
from_str s = ok (number (whole 7))

abbrev empty_cells : Cells Fixed
empty_cells = record { tap_ifindex = none; spans = []; pinning = none }

abbrev tap_config : BTreeMap (Value Fixed)
tap_config = ("network", string "tap") ∷ []

abbrev restore_config : BTreeMap (Value Fixed)
restore_config = ("from_snapshot", string "/snap") ∷ tap_config

abbrev cold : FirecrackerTarget
cold = firecracker_target ⦃p = fixed_platform⦄ 100 1 tap_config [] false

abbrev restored : FirecrackerTarget
restored = firecracker_target ⦃p = fixed_platform⦄ 100 1 restore_config [] false

tap_named : cold.tap ≡ some "asy2s-0"
unfolding firecracker_target cfg get show_fuel base36 base36_loop render replace_from chars
tap_named = refl

is_restore : restored.from_snapshot ≡ some ("/snap", "")
unfolding firecracker_target cfg get render
is_restore = refl

start-Booted_example :
    Ensures
      (λ _ s.
        Booted ⦃p = fixed_platform⦄ shell clock from_str cold cold.from_snapshot
          (empty_cells, [])
          s)
      (λ _. Unit)
      ((provision ⦃p = fixed_platform⦄ shell clock from_str cold
          >> start ⦃p = fixed_platform⦄ shell clock from_str cold)
        (empty_cells, []))
start-Booted_example = start-Booted ⦃p = fixed_platform⦄ shell clock from_str cold (empty_cells, [])

cold_starts :
    ((provision ⦃p = fixed_platform⦄ shell clock from_str cold
        >> start ⦃p = fixed_platform⦄ shell clock from_str cold)
      (empty_cells, [])).0
    ≡ ok tt
unfolding provision start configure set_up_tap timed firecracker_target cfg get show_fuel base36
    base36_loop render replace_from chars parse_uint parse_digits
cold_starts = refl

abbrev machine : Machine Log
machine = record {
  shell = shell;
  new_run_id = λ w. ("01ab", w);
  sample_residency = λ path w. (none, w);
}

abbrev CellLog : Type 0
CellLog = Cells Fixed × Log

abbrev no_gadgets : GadgetRunner CellLog Fixed
no_gadgets = record {
  Handle = String;
  spawn = λ inv s. (ok inv.probe, s);
  wait = λ inv h s. (err "no gadget", s);
  kill = λ h s. s;
}

abbrev idle : Workload CellLog Fixed
idle = record {
  version = λ s. ("1", s);
  start = λ s. (ok tt, s);
  stop = λ s. (ok tt, s);
  report = λ s. (ok (number (whole 0)), s);
}

abbrev session : AttributionSession Log
session = record { client = record { reader = []; poisoned = false }; table = new_table }

abbrev asked : Stage CellLog Log
asked = record { world = (empty_cells, []); session = some session }

execute_run-refused_example :
    Ensures
      (λ _ _. ⊥)
      (λ _. Unit)
      (execute_run ⦃p = fixed_platform⦄ obliging
        (with_cells machine)
        no_gadgets
        (firecracker ⦃p = fixed_platform⦄ shell clock from_str restored)
        idle
        []
        asked)
execute_run-refused_example =
    execute_run-refused ⦃p = fixed_platform⦄ machine clock from_str restored obliging no_gadgets
      idle [] asked session (inl (("/snap", ""), is_restore)) refl refl

abbrev qemu_vm : QemuTarget
qemu_vm = qemu_target ⦃p = fixed_platform⦄ 100 [] [] false

abbrev ch_vm : CloudHypervisorTarget
ch_vm = ch_target ⦃p = fixed_platform⦄ 100 [] [] true

abbrev unikernel_vm : UnikernelTarget
unikernel_vm = unikernel_target ⦃p = fixed_platform⦄ 100 [] [] false

qemu_comes_up :
    (brought_up (qemu ⦃p = fixed_platform⦄ shell clock qemu_vm) ([], [])).0
    ≡ ok (span ⦃p = fixed_platform⦄ "boot.vmm_ready" none 5 5 ∷ [])
unfolding qemu qemu_target launched vmm_steady get
qemu_comes_up = refl

all-ComeUp_example :
    ComesUp ⦃p = fixed_platform⦄ shell clock
      (qemu_launch_cmd qemu_vm)
      qemu_vm.pin_threads
      qemu_vm.readiness
      (qemu ⦃p = fixed_platform⦄ shell clock qemu_vm)
    × ComesUp ⦃p = fixed_platform⦄ shell clock
        (ch_launch_cmd ch_vm)
        ch_vm.pin_threads
        ch_vm.readiness
        (cloud_hypervisor ⦃p = fixed_platform⦄ shell clock ch_vm)
    × ComesUp ⦃p = fixed_platform⦄ shell clock
        (unikernel_launch_cmd ⦃p = fixed_platform⦄ unikernel_vm)
        unikernel_vm.pin_threads
        unikernel_vm.readiness
        (unikernel ⦃p = fixed_platform⦄ shell clock unikernel_vm)
all-ComeUp_example = all-ComeUp ⦃p = fixed_platform⦄ shell clock qemu_vm ch_vm unikernel_vm

abbrev fio_job : FioWorkload
fio_job = fio_workload ⦃p = fixed_platform⦄ [] []

start-IsReported_example :
    Ensures
      (λ _ s. IsReported ⦃p = fixed_platform⦄ shell from_str fio_job [] s)
      (λ s. s.0 ≡ none)
      ((fio ⦃p = fixed_platform⦄ shell from_str fio_job).start (none, []))
start-IsReported_example = start-IsReported ⦃p = fixed_platform⦄ shell from_str fio_job none []
