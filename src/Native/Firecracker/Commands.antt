-- ===== src/Native/Firecracker/Commands.antt =====
-- The command lines of the firecracker target of crates/orchestrate/src/native.rs.
use assayist.Common.{ℕ, String, [], ◌∷◌, Option, Bool}
use assayist.Text.{format}
use assayist.Text.Number.{show_ℕ}
use assayist.BTreeMap.{insert}
use assayist.Capture.Plan.{render}

pub record FirecrackerTarget : Type 0 where
  pub bin : String
  pub sock : String
  pub vcpu : String
  pub mem_mib : String
  pub smt : Bool
  pub kernel : String
  pub rootfs : String
  pub boot_args : String
  pub from_snapshot : Option (String × String)
  pub snapshot_out : Option (String × String)
  pub readiness : Option String
  pub pre_restore : Option String
  pub mem_backend : String
  pub uffd_handler : Option String
  pub stream_source : Option String
  pub stream_bin : String
  pub stream_wsmeta : String
  pub stream_prefetch : Bool
  pub stream_dir : String
  pub pin_threads : Bool
  pub cpu_base : ℕ
  pub tap : Option String
  pub guest_mac : String

-- the request of `api`, through curl
abbrev pub api_cmd : FirecrackerTarget → String → String → String → String
api_cmd t method path body = format (
    "curl -fsS --unix-socket '" ∷ t.sock ∷ "' -X " ∷ method ∷ " 'http://localhost" ∷ path
    ∷ "' -H 'Content-Type: application/json' -d '" ∷ body ∷ "'" ∷ [])

abbrev pub launch_cmd : FirecrackerTarget → String
launch_cmd t =
    let sock = t.sock in
    format (
      "rm -f '" ∷ sock ∷ "' '" ∷ sock ∷ ".pid'; wd='" ∷ sock
      ∷ ".d'; rm -rf \"$wd\"; mkdir -p \"$wd\"; ( cd \"$wd\" && exec '" ∷ t.bin ∷ "' --api-sock '"
      ∷ sock ∷ "' ) >'" ∷ sock ∷ ".log' 2>&1 & echo $! > '" ∷ sock
      ∷ ".pid'; for _ in $(seq 1 100); do [ -S '" ∷ sock
      ∷ "' ] && exit 0; sleep 0.05; done; echo 'firecracker api socket did not appear' >&2; exit 1"
      ∷ [])

abbrev pub uffd_uds : FirecrackerTarget → String
uffd_uds t = format (t.sock ∷ ".uffd" ∷ [])

abbrev pub launch_uffd_cmd : String → String → String → String
launch_uffd_cmd handler uds mem = format (
    "rm -f '"
    ∷ uds
    ∷ "' '"
    ∷ uds
    ∷ ".pid'; ( "
    ∷ render handler (insert "mem_file" mem (insert "uffd_uds" uds []))
    ∷ " ) >'"
    ∷ uds
    ∷ ".log' 2>&1 & echo $! > '"
    ∷ uds
    ∷ ".pid'; for _ in $(seq 1 200); do [ -S '"
    ∷ uds
    ∷ "' ] && exit 0; sleep 0.05; done; echo 'uffd handler socket did not appear' >&2; exit 1"
    ∷ [])

abbrev pub launch_stream_cmd : FirecrackerTarget → String → String → String
launch_stream_cmd t source mem =
    let dir = t.stream_dir in
    format (
      "d='" ∷ dir
      ∷ "'; if [ -f \"$d.pid\" ]; then op=\"$(cat \"$d.pid\")\"; kill \"$op\" 2>/dev/null; for _ in $(seq 1 150); do kill -0 \"$op\" 2>/dev/null || break; sleep 0.02; done; fi; fusermount3 -uz \"$d\" 2>/dev/null; rm -rf \"$d\" '"
      ∷ dir ∷ ".pid' '" ∷ dir ∷ ".log'; mkdir -p \"$d\"; sz=$(stat -c%s '" ∷ mem ∷ "'); ( exec '"
      ∷ t.stream_bin ∷ "' stream-mount '" ∷ source ∷ "' \"$d\" --size-bytes \"$sz\" --name mem ) >'"
      ∷ dir ∷ ".log' 2>&1 & mp=$!; echo \"$mp\" > '" ∷ dir
      ∷ ".pid'; for _ in $(seq 1 500); do [ -e \"$d/mem\" ] && exit 0; sleep 0.02; done; kill \"$mp\" 2>/dev/null; fusermount3 -uz \"$d\" 2>/dev/null; echo 'stream mount did not appear (see "
      ∷ dir ∷ ".log)' >&2; exit 1" ∷ [])

abbrev pub stream_prefetch_cmd : FirecrackerTarget → String → String
stream_prefetch_cmd t source = format (
    "'" ∷ t.stream_bin ∷ "' stream-prefetch '" ∷ source ∷ "' --mem '" ∷ t.stream_dir
    ∷ "/mem' --wsmeta '" ∷ t.stream_wsmeta ∷ "'" ∷ [])

abbrev pub pin_cmd : FirecrackerTarget → String
pin_cmd t = format (
    "pid=$(cat '"
    ∷ t.sock
    ∷ ".pid'); layout=''; base="
    ∷ show_ℕ t.cpu_base
    ∷ "; for t in /proc/$pid/task/*; do comm=$(cat \"$t/comm\" 2>/dev/null); case \"$comm\" in \"fc_vcpu \"*) n=${comm#fc_vcpu }; tid=${t##*/}; cpu=$((base + n)); taskset -pc \"$cpu\" \"$tid\" >/dev/null 2>&1 || { echo \"pin vcpu $n -> cpu $cpu failed\" >&2; exit 7; }; layout=\"$layout,\\\"vcpu$n\\\":$cpu\"; ;; esac; done; printf '{%s}' \"${layout#,}\""
    ∷ [])

abbrev pub teardown_cmd : FirecrackerTarget → String
teardown_cmd t =
    let sock = t.sock in
    let uds = uffd_uds t in
    let stream = t.stream_dir in
    format (
      "[ -f '" ∷ sock ∷ ".pid' ] && kill \"$(cat '" ∷ sock ∷ ".pid')\" 2>/dev/null; [ -f '" ∷ uds
      ∷ ".pid' ] && kill \"$(cat '" ∷ uds ∷ ".pid')\" 2>/dev/null; if [ -f '" ∷ sock
      ∷ ".pid' ]; then p=\"$(cat '" ∷ sock
      ∷ ".pid')\"; for _ in $(seq 1 150); do kill -0 \"$p\" 2>/dev/null || break; sleep 0.02; done; fi; fusermount3 -uz '"
      ∷ stream ∷ "' 2>/dev/null; [ -f '" ∷ stream ∷ ".pid' ] && kill \"$(cat '" ∷ stream
      ∷ ".pid')\" 2>/dev/null; rm -rf '" ∷ sock ∷ "' '" ∷ sock ∷ ".log' '" ∷ sock ∷ ".pid' '" ∷ sock
      ∷ ".d' '" ∷ uds ∷ "' '" ∷ uds ∷ ".log' '" ∷ uds ∷ ".pid' '" ∷ stream ∷ "' '" ∷ stream
      ∷ ".log' '" ∷ stream ∷ ".pid'; true" ∷ [])

abbrev pub delete_tap : String → String
delete_tap tap = format ("ip tuntap del dev '" ∷ tap ∷ "' mode tap" ∷ [])

-- a tap that a crashed run left is deleted first
abbrev pub add_tap : String → String
add_tap tap = format (
    delete_tap tap
    ∷ " 2>/dev/null; ip tuntap add dev '"
    ∷ tap
    ∷ "' mode tap && ip link set dev '"
    ∷ tap
    ∷ "' up"
    ∷ [])
