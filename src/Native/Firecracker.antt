-- ===== src/Native/Firecracker.antt =====
-- The firecracker target of crates/orchestrate/src/native.rs: its settings, and its calls over a shell and a clock.
pub mod Commands
pub mod Lifecycle
pub mod Timing
pub mod Restores
pub mod Boots
pub mod Taps
pub mod Attribution
use assayist.Common.{
  ℕ, ◌^◌, String, List, [], ◌∷◌, ◌++◌, Option, none, some, Bool, true, false, ◌||◌, if◌then◌else◌,
  Exec, ok, err, panic, unwrap_or, and_then, map_option, is_some, or_err,
}
use assayist.Text.{◌==◌, format}
use assayist.Text.Number.{show_ℕ, parse_uint}
use assayist.Json.{Value, Fields, null, bool, number, string, object, done, field}
use assayist.BTreeMap.{BTreeMap, get}
use assayist.Platform.{Platform}
use assayist.Gate.Command.{map_err}
use assayist.NetAttrib.{guest_mac_for}
use assayist.Effects.{Action, done_with, fail, finish, ignore, ◌>>=◌, ◌>>◌}
use assayist.Adapter.{Shell, Target, NetAttribution}
use assayist.Native.{
  base36, cfg, setting, param_or, default_sock, span, tool_version, run_only, run_if, on_machine,
  reading, change,
}
use assayist.Native.Firecracker.Commands.{
  FirecrackerTarget, api_cmd, launch_cmd, uffd_uds, launch_uffd_cmd, launch_stream_cmd,
  stream_prefetch_cmd, pin_cmd, teardown_cmd, delete_tap, add_tap,
}

-- the cells of a target
pub record Cells (N : Type 0) : Type 0 where
  pub tap_ifindex : Option ℕ
  pub spans : List (Value N)
  pub pinning : Option (Value N)

abbrev pub tap_name : ℕ → ℕ → String
tap_name pid instance_index = format ("asy" ∷ base36 pid ∷ "-" ∷ show_ℕ instance_index ∷ [])

abbrev pub pair_if : Bool → String → String → Option (String × String)
pair_if true a b = some (a, b)
pair_if false a b = none

module _ ⦃p : Platform⦄ where
  open p use {N, to_lowercase, trim, print, of_u64, int_error}

  abbrev pub not_blank : String → Option String
  not_blank s = if trim s == "" then none else some s

  -- `firecracker_target`, in the process `pid`, at the time `nonce`
  unfoldable pub firecracker_target :
      ℕ → ℕ → BTreeMap (Value N) → BTreeMap String → Bool → FirecrackerTarget
  firecracker_target pid nonce config vars pin_threads =
      let sock = cfg config vars "api_sock" (default_sock "fc" pid vars) in
      let smt = cfg config vars "smt" "false" in
      let prefetch = to_lowercase (cfg config vars "stream_prefetch" "false") in
      let index = unwrap_or (and_then (get "instance" vars) (parse_uint (2 ^ 64))) 0 in
      record {
        bin = cfg config vars "bin" "firecracker";
        sock = sock;
        vcpu = param_or config vars "vcpu" "1";
        mem_mib = param_or config vars "mem_mib" "128";
        smt = smt == "true" || smt == "on" || smt == "1";
        kernel = cfg config vars "kernel" "";
        rootfs = cfg config vars "rootfs" "";
        boot_args = cfg config vars "boot_args" "console=ttyS0 reboot=k panic=1";
        from_snapshot =
            pair_if (is_some (get "from_snapshot" config)) (cfg config vars "from_snapshot" "")
              (cfg config vars "mem_file" "");
        snapshot_out =
            pair_if (is_some (get "snapshot_out" config)) (cfg config vars "snapshot_out" "")
              (cfg config vars "snapshot_mem" "");
        readiness = setting config vars "readiness";
        pre_restore = setting config vars "pre_restore";
        mem_backend =
            if to_lowercase (cfg config vars "mem_backend" "File") == "uffd"
            then "Uffd"
            else "File";
        uffd_handler = setting config vars "uffd_handler";
        stream_source = and_then (setting config vars "stream_source") not_blank;
        stream_bin = cfg config vars "stream_bin" "bpfoliod";
        stream_wsmeta = cfg config vars "stream_wsmeta" "";
        stream_prefetch = prefetch == "stream" || prefetch == "true" || prefetch == "on";
        stream_dir = format (sock ∷ ".stream." ∷ show_ℕ nonce ∷ []);
        pin_threads = pin_threads;
        cpu_base = unwrap_or (and_then (get "cpu_base" vars) (parse_uint (2 ^ 32))) 0;
        tap =
            if to_lowercase (cfg config vars "network" "") == "tap"
            then some (tap_name pid index)
            else none;
        guest_mac = guest_mac_for index;
      }

  -- the bodies of the API calls, as compact JSON
  abbrev pub backend : String → String → Value N
  backend kind path =
      object (field "backend_path" (string path) (field "backend_type" (string kind) done))

  abbrev pub load_body : String → Value N → String
  load_body snap mem_backend = print (
      object (
        field "mem_backend" mem_backend
          (field "resume_vm" (bool true) (field "snapshot_path" (string snap) done))))

  abbrev pub machine_body : FirecrackerTarget → String
  machine_body t = print (
      object (
        field "mem_size_mib" (number (of_u64 (unwrap_or (parse_uint (2 ^ 64) t.mem_mib) 128))) (
          field "smt" (bool t.smt) (
            field "vcpu_count" (number (of_u64 (unwrap_or (parse_uint (2 ^ 64) t.vcpu) 1))) done))))

  abbrev pub boot_body : FirecrackerTarget → String
  boot_body t = print (
      object
        (field "boot_args" (string t.boot_args) (field "kernel_image_path" (string t.kernel) done)))

  abbrev pub drive_body : FirecrackerTarget → String
  drive_body t = print (
      object (
        field "drive_id" (string "rootfs") (
          field "is_read_only" (bool false)
            (field "is_root_device" (bool true) (field "path_on_host" (string t.rootfs) done)))))

  abbrev pub iface_body : FirecrackerTarget → String → String
  iface_body t tap = print (
      object (
        field "guest_mac" (string t.guest_mac)
          (field "host_dev_name" (string tap) (field "iface_id" (string "eth0") done))))

  abbrev pub snapshot_body : String → String → String
  snapshot_body snap mem = print (
      object (
        field "mem_file_path" (string mem)
          (field "snapshot_path" (string snap) (field "snapshot_type" (string "Full") done))))

  abbrev pub parse_ifindex : String → String → Exec ℕ
  parse_ifindex tap idx = or_err (parse_uint (2 ^ 32) (trim idx)) (
      format (
        "parsing tap '"
        ∷ tap
        ∷ "' ifindex '"
        ∷ trim idx
        ∷ "': "
        ∷ int_error (2 ^ 32) (trim idx)
        ∷ []))

  -- `layout` is accepted if it is an object that is not empty
  abbrev pub pinned : Value N → Exec (Value N)
  pinned (object (field k v fs)) = ok (object (field k v fs))
  pinned layout = err "pin_threads requested but no fc_vcpu threads were pinned"

  module _ {W : Type 0} (sh : Shell W) (now_nanos : W → ℕ × W) (from_str : String → Exec (Value N))
      (t : FirecrackerTarget) where
    abbrev pub Call : Type 0 → Type 0
    Call A = Action (Cells N × W) A

    abbrev pub run : String → Call (Unit {0})
    run cmd = on_machine (run_only sh cmd)

    abbrev pub api : String → String → String → Call (Unit {0})
    api method path body = run (api_cmd t method path body)

    -- `timed`, for the calls that it is made with
    unfoldable pub timed : String → String → Call (Unit {0})
    timed name cmd = do
      start ← reading now_nanos
      run cmd
      end ← reading now_nanos
      change (λ c. record c { spans = c.spans ++ span name none start end ∷ [] })

    -- the mount of a streaming restore, and the memory file that is loaded
    abbrev pub mount_stream : String → Option String → Call String
    mount_stream mem none = done_with mem
    mount_stream mem (some source) = do
      run (launch_stream_cmd t source mem)
      done_with (format (t.stream_dir ∷ "/mem" ∷ []))

    abbrev pub prewarm : Option String → Call (Unit {0})
    prewarm none = done_with tt
    prewarm (some source) =
        if t.stream_prefetch then run (stream_prefetch_cmd t source) else done_with tt

    abbrev pub start_uffd : String → Call (Value N)
    start_uffd mem = do
      handler ← finish (
          or_err (and_then t.uffd_handler not_blank)
            "mem_backend: uffd needs a uffd_handler command")
      run (launch_uffd_cmd handler (uffd_uds t) mem)
      done_with (backend "Uffd" (uffd_uds t))

    abbrev pub start_backend : String → String → Call (Value N)
    start_backend mem mem_path =
        if t.mem_backend == "Uffd" then start_uffd mem else done_with (backend "File" mem_path)

    -- `provision` of a restore
    unfoldable pub restore : String → String → Call (Unit {0})
    restore snap mem = do
      mem_path ← mount_stream mem t.stream_source
      on_machine (run_if sh t.pre_restore)
      prewarm t.stream_source
      mem_backend ← start_backend mem mem_path
      timed "restore.resume_to_steady"
          (api_cmd t "PUT" "/snapshot/load" (load_body snap mem_backend))

    -- the tap, whose number is read once it is there
    unfoldable pub set_up_tap : Option String → Call (Unit {0})
    set_up_tap none = done_with tt
    set_up_tap (some tap) = do
      run (add_tap tap)
      idx ← on_machine (sh (format ("cat '/sys/class/net/" ∷ tap ∷ "/ifindex'" ∷ [])))
      ifindex ← finish (parse_ifindex tap idx)
      change (λ c. record c { tap_ifindex = some ifindex })
      api "PUT" "/network-interfaces/eth0" (iface_body t tap)

    -- `provision` of a cold boot
    unfoldable pub configure : Call (Unit {0})
    configure = do
      api "PUT" "/machine-config" (machine_body t)
      api "PUT" "/boot-source" (boot_body t)
      api "PUT" "/drives/rootfs" (drive_body t)
      set_up_tap t.tap

    abbrev pub prepare : Option (String × String) → Call (Unit {0})
    prepare (some (snap, mem)) = restore snap mem
    prepare none = configure

    unfoldable pub provision : Call (Unit {0})
    provision = run (launch_cmd t) >> prepare t.from_snapshot

    abbrev pub boot : Option (String × String) → Call (Unit {0})
    boot (some snapshot) = done_with tt
    boot none =
        timed "boot.vmm_ready" (api_cmd t "PUT" "/actions" "{\"action_type\":\"InstanceStart\"}")

    unfoldable pub start : Call (Unit {0})
    start = boot t.from_snapshot

    abbrev pub parse_layout : String → Exec (Value N)
    parse_layout out =
        map_err (λ e. format ("parsing pinning layout '" ∷ trim out ∷ "': " ∷ e ∷ []))
          (from_str (trim out))

    -- the threads are pinned once they are there, and the layout is recorded
    abbrev pub pin_all : Call (Unit {0})
    pin_all = do
      out ← on_machine (sh (pin_cmd t))
      layout ← finish (parse_layout out)
      kept ← finish (pinned layout)
      change (λ c. record c { pinning = some kept })

    unfoldable pub pin : Call (Unit {0})
    pin = if t.pin_threads then pin_all else done_with tt

    unfoldable pub snapshot : Option (String × String) → Call (Unit {0})
    snapshot none = done_with tt
    snapshot (some (snap, mem)) = do
      api "PATCH" "/vm" "{\"state\":\"Paused\"}"
      timed "snapshot.create" (api_cmd t "PUT" "/snapshot/create" (snapshot_body snap mem))
      api "PATCH" "/vm" "{\"state\":\"Resumed\"}"

    unfoldable pub reach_steady : Call (Unit {0})
    reach_steady = do on_machine (run_if sh t.readiness); pin; snapshot t.snapshot_out

    abbrev pub remove_tap : Option String → Call (Unit {0})
    remove_tap none = done_with tt
    remove_tap (some tap) = ignore (run (delete_tap tap))

    unfoldable pub teardown : Call (Unit {0})
    teardown = run (teardown_cmd t) >> remove_tap t.tap

    abbrev pub attribution : Option String → Option ℕ → List NetAttribution
    attribution (some tap) (some ifindex) =
        record { tap = tap; ifindex = ifindex; guest_mac = t.guest_mac; netns_inum = 0 } ∷ []
    attribution _ _ = []

    abbrev pub mem_files : Option (String × String) → List (String × String)
    mem_files none = []
    mem_files (some (snap, mem)) = if mem == "" then [] else ("", mem) ∷ []

    -- the target
    unfoldable pub firecracker : Target (Cells N × W) N
    firecracker = record {
      version = λ s. let (v, w) = tool_version sh t.bin "firecracker" s.1 in (v, (s.0, w));
      provision = provision;
      start = start;
      reach_steady = reach_steady;
      spans = λ s. (ok s.0.spans, s);
      teardown = teardown;
      pinning_layout = λ s. s.0.pinning;
      resident_files = λ s. mem_files t.from_snapshot;
      net_attribution = λ s. (attribution t.tap s.0.tap_ifindex, s);
    }
