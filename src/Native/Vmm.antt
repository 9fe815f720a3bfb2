-- ===== src/Native/Vmm.antt =====
-- The QEMU, Cloud Hypervisor and unikernel targets of crates/orchestrate/src/native.rs, which boot at their launch.
pub mod Boots
use assayist.Common.{ℕ, String, List, [], ◌∷◌, ◌++◌, Option, none, Bool, not, if◌then◌else◌, ok}
use assayist.Text.{◌==◌, format}
use assayist.Json.{Value}
use assayist.BTreeMap.{BTreeMap}
use assayist.Platform.{Platform}
use assayist.Effects.{Action, done_with, fail, ◌>>=◌, ◌>>◌}
use assayist.Adapter.{Shell, Target}
use assayist.Native.{
  cfg, setting, param_or, default_sock, span, tool_version, run_only, run_if, on_machine, reading,
  change,
}

pub record QemuTarget : Type 0 where
  pub bin : String
  pub sock : String
  pub vcpu : String
  pub mem_mib : String
  pub kernel : String
  pub rootfs : String
  pub boot_args : String
  pub extra : String
  pub readiness : Option String
  pub pin_threads : Bool

pub record CloudHypervisorTarget : Type 0 where
  pub bin : String
  pub sock : String
  pub vcpu : String
  pub mem_mib : String
  pub kernel : String
  pub rootfs : String
  pub cmdline : String
  pub extra : String
  pub readiness : Option String
  pub pin_threads : Bool

pub record UnikernelTarget : Type 0 where
  pub bin : String
  pub sock : String
  pub mem_mib : String
  pub image : String
  pub disk_boot : Bool
  pub boot_args : String
  pub hostfwd : String
  pub extra : String
  pub readiness : Option String
  pub pin_threads : Bool

-- the scratch directory that every launch wipes
abbrev scratch : String → String
scratch sock = format (
    "rm -f '" ∷ sock ∷ "' '" ∷ sock ∷ ".pid'; wd='" ∷ sock
    ∷ ".d'; rm -rf \"$wd\"; mkdir -p \"$wd\"; ( cd \"$wd\" && exec '" ∷ [])

-- the launch goes to the background, and its socket is waited for
abbrev await : String → String → String
await sock what = format (
    ") >'" ∷ sock ∷ ".log' 2>&1 & echo $! > '" ∷ sock ∷ ".pid'; for _ in $(seq 1 250); do [ -S '"
    ∷ sock ∷ "' ] && exit 0; sleep 0.02; done; echo '" ∷ what
    ∷ " socket did not appear' >&2; exit 1" ∷ [])

abbrev pub kill_pid : String → String
kill_pid sock =
    format ("[ -f '" ∷ sock ∷ ".pid' ] && kill \"$(cat '" ∷ sock ∷ ".pid')\" 2>/dev/null; " ∷ [])

abbrev pub qemu_launch_cmd : QemuTarget → String
qemu_launch_cmd t = format (
    scratch t.sock
    ∷ t.bin
    ∷ "' -enable-kvm -m '"
    ∷ t.mem_mib
    ∷ "' -smp '"
    ∷ t.vcpu
    ∷ "' -kernel '"
    ∷ t.kernel
    ∷ "' -append '"
    ∷ t.boot_args
    ∷ "' -drive file='"
    ∷ t.rootfs
    ∷ "',format=raw,if=virtio,readonly=on -qmp unix:'"
    ∷ t.sock
    ∷ "',server,nowait -display none -serial none -no-reboot "
    ∷ t.extra
    ∷ " "
    ∷ await t.sock "qemu qmp"
    ∷ [])

abbrev pub ch_launch_cmd : CloudHypervisorTarget → String
ch_launch_cmd t = format (
    scratch t.sock
    ∷ t.bin
    ∷ "' --api-socket '"
    ∷ t.sock
    ∷ "' --kernel '"
    ∷ t.kernel
    ∷ "' --cmdline '"
    ∷ t.cmdline
    ∷ "' --disk path='"
    ∷ t.rootfs
    ∷ "',readonly=on --cpus boot='"
    ∷ t.vcpu
    ∷ "' --memory size='"
    ∷ t.mem_mib
    ∷ "'M --serial tty --console off "
    ∷ t.extra
    ∷ " "
    ∷ await t.sock "cloud-hypervisor api"
    ∷ [])

abbrev pub boot_flags : UnikernelTarget → String
boot_flags t =
    if t.disk_boot
    then format (
        "-drive file='" ∷ t.image ∷ "',format=raw,if=none,id=hd0 -device virtio-blk-pci,drive=hd0"
        ∷ [])
    else format ("-kernel '" ∷ t.image ∷ "' -append '" ∷ t.boot_args ∷ "'" ∷ [])

module _ ⦃p : Platform⦄ where
  open p use {N, trim}

  abbrev pub net_flags : UnikernelTarget → String
  net_flags t =
      if trim t.hostfwd == ""
      then ""
      else format
          ("-netdev user,id=n0,hostfwd=" ∷ t.hostfwd ∷ " -device virtio-net-pci,netdev=n0" ∷ [])

  abbrev pub unikernel_launch_cmd : UnikernelTarget → String
  unikernel_launch_cmd t = format (
      scratch t.sock
      ∷ t.bin
      ∷ "' -machine q35 -enable-kvm -cpu host -m '"
      ∷ t.mem_mib
      ∷ "' "
      ∷ boot_flags t
      ∷ " "
      ∷ net_flags t
      ∷ " -qmp unix:'"
      ∷ t.sock
      ∷ "',server,nowait -nographic -serial file:'"
      ∷ t.sock
      ∷ ".serial' -no-reboot "
      ∷ t.extra
      ∷ " "
      ∷ await t.sock "unikernel qmp"
      ∷ [])

  unfoldable pub qemu_target : ℕ → BTreeMap (Value N) → BTreeMap String → Bool → QemuTarget
  qemu_target pid config vars pin_threads = record {
    bin = cfg config vars "bin" "qemu-system-x86_64";
    sock = cfg config vars "qmp_sock" (default_sock "qemu" pid vars);
    vcpu = param_or config vars "vcpu" "1";
    mem_mib = param_or config vars "mem_mib" "128";
    kernel = cfg config vars "kernel" "";
    rootfs = cfg config vars "rootfs" "";
    boot_args = cfg config vars "boot_args" "console=ttyS0 reboot=k panic=1 root=/dev/vda ro";
    extra = cfg config vars "extra_args" "";
    readiness = setting config vars "readiness";
    pin_threads = pin_threads;
  }

  unfoldable pub ch_target : ℕ → BTreeMap (Value N) → BTreeMap String → Bool → CloudHypervisorTarget
  ch_target pid config vars pin_threads = record {
    bin = cfg config vars "bin" "cloud-hypervisor";
    sock = cfg config vars "api_sock" (default_sock "chv" pid vars);
    vcpu = param_or config vars "vcpu" "1";
    mem_mib = param_or config vars "mem_mib" "128";
    kernel = cfg config vars "kernel" "";
    rootfs = cfg config vars "rootfs" "";
    cmdline = cfg config vars "cmdline" "console=ttyS0 reboot=k panic=1 root=/dev/vda ro";
    extra = cfg config vars "extra_args" "";
    readiness = setting config vars "readiness";
    pin_threads = pin_threads;
  }

  unfoldable pub unikernel_target :
      ℕ → BTreeMap (Value N) → BTreeMap String → Bool → UnikernelTarget
  unikernel_target pid config vars pin_threads = record {
    bin = cfg config vars "bin" "qemu-system-x86_64";
    sock = cfg config vars "qmp_sock" (default_sock "uk" pid vars);
    mem_mib = param_or config vars "mem_mib" "256";
    image = cfg config vars "image" "";
    disk_boot = not (cfg config vars "boot_style" "disk" == "kernel");
    boot_args = cfg config vars "boot_args" "";
    hostfwd = cfg config vars "hostfwd" "";
    extra = cfg config vars "extra_args" "";
    readiness = setting config vars "readiness";
    pin_threads = pin_threads;
  }

  module _ {W : Type 0} (sh : Shell W) (now_nanos : W → ℕ × W) where
    -- the cells of these targets are the spans; the span is the launch, up to the control socket
    unfoldable pub launched : String → Action (List (Value N) × W) (Unit {0})
    launched cmd = do
      start ← reading now_nanos
      on_machine (sh cmd)
      end ← reading now_nanos
      change (λ spans. spans ++ span "boot.vmm_ready" none start end ∷ [])

    unfoldable pub vmm_steady :
        String → Bool → Option String → Action (List (Value N) × W) (Unit {0})
    vmm_steady what pin_threads readiness =
        if pin_threads
        then fail (format ("pin_threads is not supported for the " ∷ what ∷ " target yet" ∷ []))
        else on_machine (run_if sh readiness)

    -- the calls that the three targets have in common
    abbrev pub vmm :
        String
        → String
        → String
        → String
        → Bool
        → Option String
        → String
        → Target (List (Value N) × W) N
    vmm what bin default launch_cmd pin_threads readiness teardown_cmd = record {
      version = λ s. let (v, w) = tool_version sh bin default s.1 in (v, (s.0, w));
      provision = launched launch_cmd;
      start = done_with tt;
      reach_steady = vmm_steady what pin_threads readiness;
      spans = λ s. (ok s.0, s);
      teardown = on_machine (run_only sh teardown_cmd);
      pinning_layout = λ s. none;
      resident_files = λ s. [];
      net_attribution = λ s. ([], s);
    }

    unfoldable pub qemu : QemuTarget → Target (List (Value N) × W) N
    qemu t = vmm "qemu" t.bin "qemu" (qemu_launch_cmd t) t.pin_threads t.readiness (
        format (
          kill_pid t.sock
          ∷ "rm -rf '"
          ∷ t.sock
          ∷ "' '"
          ∷ t.sock
          ∷ ".log' '"
          ∷ t.sock
          ∷ ".pid' '"
          ∷ t.sock
          ∷ ".d'"
          ∷ []))

    unfoldable pub cloud_hypervisor : CloudHypervisorTarget → Target (List (Value N) × W) N
    cloud_hypervisor t =
        vmm "cloud-hypervisor" t.bin "cloud-hypervisor" (ch_launch_cmd t) t.pin_threads t.readiness
          (format (
            "p=\"$(cat '" ∷ t.sock
            ∷ ".pid' 2>/dev/null)\"; if [ -n \"$p\" ]; then kill \"$p\" 2>/dev/null; for _ in $(seq 1 250); do kill -0 \"$p\" 2>/dev/null || break; sleep 0.02; done; kill -9 \"$p\" 2>/dev/null; fi; rm -rf '"
            ∷ t.sock ∷ "' '" ∷ t.sock ∷ ".lock' '" ∷ t.sock ∷ ".log' '" ∷ t.sock ∷ ".pid' '"
            ∷ t.sock ∷ ".d'" ∷ []))

    unfoldable pub unikernel : UnikernelTarget → Target (List (Value N) × W) N
    unikernel t = vmm "unikernel" t.bin "qemu" (unikernel_launch_cmd t) t.pin_threads t.readiness (
        format (
          kill_pid t.sock
          ∷ "rm -rf '"
          ∷ t.sock
          ∷ "' '"
          ∷ t.sock
          ∷ ".log' '"
          ∷ t.sock
          ∷ ".serial' '"
          ∷ t.sock
          ∷ ".pid' '"
          ∷ t.sock
          ∷ ".d'"
          ∷ []))
