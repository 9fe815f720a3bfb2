-- ===== src/HostPrep/Linux.antt =====
-- `LinuxHost` of crates/orchestrate/src/hostprep.rs, over the files that it reads and writes.
pub mod Cpus
pub mod Governor
use assayist.Common.{
  ℕ, ◌+◌, ◌*◌, ◌%◌, ◌^◌, String, List, [], ◌∷◌, Option, none, some, Bool, true, false, ◌||◌,
  if◌then◌else◌, Exec, ok, err, panic, or_err, and_then, map_option, unwrap_or, get_elem?, ◌==◌,
}
use assayist.Common.{◌>>=◌}
use assayist.Text
use assayist.Text.{format}
use assayist.Text.Lines.{lines, split_once, strip_prefix, strip_suffix}
use assayist.Text.Number.{parse_uint}
use assayist.Text.Words.{split_whitespace}
use assayist.Json.{Value, Fields, string, object, done, field, insert_field}
use assayist.Platform.{Platform}
use assayist.Effects.{Action, done_with, fail, ◌>>◌}
use assayist.HostPrep.{TuningKnobs, Facts, Host, requested_fields}
use assayist.HostPrep.Linux.Cpus.{cpuinfo_field, cpu_counts}
use assayist.HostPrep.Linux.Governor.{Files, write_sysfs, set_governor, is_digits}

abbrev pub smt_control : String
smt_control = "/sys/devices/system/cpu/smt/control"

abbrev pub governor_file : String
governor_file = "/sys/devices/system/cpu/cpu0/cpufreq/scaling_governor"

abbrev pub thp_file : String
thp_file = "/sys/kernel/mm/transparent_hugepage/enabled"

-- the token in brackets
unfoldable pub bracketed : List String → Option String
bracketed [] = none
bracketed (t ∷ ts) =
    let later = bracketed ts in
    elim (and_then (strip_prefix t "[") (λ u. strip_suffix u "]")) [
      | some u ↦ some u
      | none ↦ later
    ]

-- the first line behind a prefix
abbrev pub line_after : String → List String → Option String
line_after prefix [] = none
line_after prefix (l ∷ ls) =
    let later = line_after prefix ls in
    elim (strip_prefix l prefix) [ some rest ↦ some rest | none ↦ later ]

-- kB as bytes, in u64
abbrev pub bytes_of : String → Option ℕ
bytes_of rest =
    and_then (get_elem? (split_whitespace rest) 0)
      (λ w. map_option (λ kb. kb * 1024 % 2 ^ 64) (parse_uint (2 ^ 64) w))

module _ ⦃p : Platform⦄ (files : Files) where
  open p use {N, trim, trim_quotes}
  open files use {D, read_to_string, write, exists, read_dir}

  abbrev pub read_trim : String → D → Option String
  read_trim path d = map_option trim (read_to_string path d)

  abbrev pub os_pretty_name : D → Option String
  os_pretty_name d =
      and_then (read_to_string "/etc/os-release" d)
        (λ text. map_option trim_quotes (line_after "PRETTY_NAME=" (lines text)))

  abbrev pub thp_active : D → Option String
  thp_active d = and_then (read_trim thp_file d) (λ text. bracketed (split_whitespace text))

  abbrev pub meminfo_total_bytes : D → Option ℕ
  meminfo_total_bytes d =
      and_then (read_to_string "/proc/meminfo" d)
        (λ text. and_then (line_after "MemTotal:" (lines text)) bytes_of)

  abbrev pub non_empty : Fields N → Option (Value N)
  non_empty done = none
  non_empty (field k v fs) = some (object (field k v fs))

  -- an entry is a node when digits, or nothing, follow its prefix
  abbrev pub add_node : String → Option String → D → Fields N → Fields N
  add_node name none d nodes = nodes
  add_node name (some id) d nodes =
      if is_digits id
      then insert_field name
          (string (
            unwrap_or (read_trim (format ("/sys/devices/system/node/" ∷ name ∷ "/cpulist" ∷ [])) d)
              ""))
          nodes
      else nodes

  abbrev pub add_nodes : List String → D → Fields N → Fields N
  add_nodes [] d nodes = nodes
  add_nodes (name ∷ names) d nodes =
      add_nodes names d (add_node name (strip_prefix name "node") d nodes)

  abbrev pub entries : Exec (List String) → Option (List String)
  entries (ok names) = some names
  entries _ = none

  unfoldable pub numa_topology : D → Option (Value N)
  numa_topology d =
      and_then (entries (read_dir "/sys/devices/system/node" d))
        (λ names. non_empty (add_nodes names d done))

  abbrev pub add_mitigation : String → Option String → Fields N → Fields N
  add_mitigation name none m = m
  add_mitigation name (some v) m = insert_field name (string v) m

  abbrev pub add_mitigations : List String → D → Fields N → Fields N
  add_mitigations [] d m = m
  add_mitigations (name ∷ names) d m = add_mitigations names d (
      add_mitigation name
        (read_trim (format ("/sys/devices/system/cpu/vulnerabilities/" ∷ name ∷ [])) d) m)

  unfoldable pub mitigations : D → Option (Value N)
  mitigations d =
      and_then (entries (read_dir "/sys/devices/system/cpu/vulnerabilities" d))
        (λ names. non_empty (add_mitigations names d done))

  abbrev pub is_nested : String → Bool
  is_nested v = Text.◌==◌ v "Y" || Text.◌==◌ v "1"

  abbrev pub or_other : {A : Type 0} → Option A → Option A → Option A
  or_other none o = o
  or_other (some a) o = some a

  abbrev pub nested_virt : D → Option Bool
  nested_virt d = map_option is_nested (
      or_other (read_trim "/sys/module/kvm_intel/parameters/nested" d)
        (read_trim "/sys/module/kvm_amd/parameters/nested" d))

  abbrev pub smt_active : D → Option Bool
  smt_active d =
      map_option (λ s. Text.◌==◌ s "1") (read_trim "/sys/devices/system/cpu/smt/active" d)

  abbrev pub facts_of : String → D → String → String → ℕ → Facts N
  facts_of cpuinfo d hostname kernel_version total =
      let (logical, physical) = cpu_counts cpuinfo in
      record {
        hostname = hostname;
        kernel_version = kernel_version;
        os_release = unwrap_or (os_pretty_name d) "unknown";
        cpu_model = unwrap_or (cpuinfo_field (lines cpuinfo) "model name") "unknown";
        cpu_count_logical = logical;
        cpu_count_physical = physical;
        smt_enabled = unwrap_or (smt_active d) false;
        cpu_governor = unwrap_or (read_trim governor_file d) "unknown";
        thp_setting = unwrap_or (thp_active d) "unknown";
        total_memory_bytes = total;
        kvm_present = exists "/dev/kvm" d;
        numa_topology = numa_topology d;
        mitigations = mitigations d;
        microcode_version = cpuinfo_field (lines cpuinfo) "microcode";
        nested_virt = nested_virt d;
      }

  unfoldable pub facts : D → Exec (Facts N)
  facts d = facts_from (unwrap_or (read_trim "/proc/cpuinfo" d) "")
    where
      facts_from : String → Exec (Facts N)
      facts_from cpuinfo = do
        hostname ← or_err (read_trim "/proc/sys/kernel/hostname" d) "cannot read hostname"
        version ← or_err (read_trim "/proc/sys/kernel/osrelease" d) "cannot read kernel version"
        total ← or_err (meminfo_total_bytes d) "cannot read MemTotal"
        ok (facts_of cpuinfo d hostname version total)

  -- only what was asked for is read
  unfoldable pub read_tuning : TuningKnobs → D → TuningKnobs
  read_tuning want d =
      let f = requested_fields want in
      record {
        cpu_governor = if f.governor then read_trim governor_file d else none;
        smt = if f.smt then smt_active d else none;
        thp = if f.thp then thp_active d else none;
      }

  abbrev pub set_smt : Bool → Action D (Unit {0})
  set_smt on d = elim (exists smt_control d) [
    | true ↦ write_sysfs files smt_control (if on then "on" else "off") d
    | false ↦ fail "SMT control not available (/sys/devices/system/cpu/smt/control missing)" d
  ]

  -- one knob, if it was asked for
  abbrev pub apply_knob : {A : Type 0} → (A → Action D (Unit {0})) → Option A → Action D (Unit {0})
  apply_knob set none = done_with tt
  apply_knob set (some a) = set a

  unfoldable pub apply_tuning : TuningKnobs → Action D (Unit {0})
  apply_tuning want =
      apply_knob (set_governor files) want.cpu_governor
      >> apply_knob set_smt want.smt
      >> apply_knob (write_sysfs files thp_file) want.thp

  -- `LinuxHost`
  abbrev pub linux_host : Host D N
  linux_host = record {
    facts = λ d. (facts d, d);
    read_tuning = λ want d. (ok (read_tuning want d), d);
    apply_tuning = apply_tuning;
  }
