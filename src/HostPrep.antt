-- ===== src/HostPrep.antt =====
-- crates/orchestrate/src/hostprep.rs: the tuning that a definition asks for, and the fingerprint of the host.
pub mod Linux
pub mod Knobs
pub mod Consistency
use Prim.Native.Char.{code}
use Prim.Native.String.{[] as empty, ◌∷◌ as cons_char}
use assayist.Common.{
  ℕ, ◌+◌, String, Option, none, some, Bool, true, false, ◌&&◌, ◌||◌, if◌then◌else◌, and_then,
  unwrap_or, is_some, leb, ◌==◌,
}
use assayist.Json.{Value, Fields, bool, string, object, done, field, get, as_str}
use assayist.Contract.{Fingerprint}
use assayist.Effects.{Action, done_with, ◌>>=◌, ◌>>◌}

pub record TuningKnobs : Type 0 where
  pub cpu_governor : Option String
  pub smt : Option Bool
  pub thp : Option String

-- what the definition set
pub record RequestedFields : Type 0 where
  pub governor : Bool
  pub smt : Bool
  pub thp : Bool

abbrev pub requested_fields : TuningKnobs → RequestedFields
requested_fields k = record {
  governor = is_some k.cpu_governor;
  smt = is_some k.smt;
  thp = is_some k.thp;
}

-- the code of a character in ASCII lower case
abbrev pub lower : ℕ → ℕ
lower n = if leb 65 n && leb n 90 then n + 32 else n

-- `name.to_ascii_lowercase() == text`
abbrev pub eq_lower : String → String → Bool
eq_lower empty empty = true
eq_lower (cons_char c s) (cons_char d t) = lower (code c) == code d && eq_lower s t
eq_lower _ _ = false

unfoldable pub switch_of : String → Option Bool
switch_of s =
    if eq_lower s "on" || eq_lower s "yes" || eq_lower s "true" || eq_lower s "1"
    then some true
    else if eq_lower s "off" || eq_lower s "no" || eq_lower s "false" || eq_lower s "0"
    then some false
    else none

module _ {N : Type 0} where
  -- a field that `serde` skips when there is no value
  abbrev pub optional : {A : Type 0} → String → (A → Value N) → Option A → Fields N → Fields N
  optional k encode none fs = fs
  optional k encode (some a) fs = field k (encode a) fs

  -- `to_value`
  unfoldable pub to_value : TuningKnobs → Value N
  to_value k = object (
      optional "cpu_governor" string k.cpu_governor
        (optional "smt" bool k.smt (optional "thp" string k.thp done)))

  abbrev pub as_bool : Value N → Option Bool
  as_bool (bool b) = some b
  as_bool (string s) = switch_of s
  as_bool _ = none

pub record HostPrep : Type 0 where
  pub knobs : TuningKnobs
  pub pin_threads : Bool

pub record Facts (N : Type 0) : Type 0 where
  pub hostname : String
  pub kernel_version : String
  pub os_release : String
  pub cpu_model : String
  pub cpu_count_logical : ℕ
  pub cpu_count_physical : ℕ
  pub smt_enabled : Bool
  pub cpu_governor : String
  pub thp_setting : String
  pub total_memory_bytes : ℕ
  pub kvm_present : Bool
  pub numa_topology : Option (Value N)
  pub mitigations : Option (Value N)
  pub microcode_version : Option String
  pub nested_virt : Option Bool

-- `Host`, over the state `W` of the machine
pub record Host (W N : Type 0) : Type 0 where
  pub facts : Action W (Facts N)
  pub read_tuning : TuningKnobs → Action W TuningKnobs
  pub apply_tuning : TuningKnobs → Action W (Unit {0})

module _ {N : Type 0} where
  -- `HostPrep::from_value`
  unfoldable pub from_value : Value N → HostPrep
  from_value v = record {
    knobs = record {
      cpu_governor = and_then (get "cpu_governor" v) as_str;
      smt = and_then (get "smt" v) as_bool;
      thp = and_then (get "thp" v) as_str;
    };
    pin_threads = unwrap_or (and_then (get "pin_threads" v) as_bool) false;
  }

  unfoldable pub build_fingerprint :
      Facts N → TuningKnobs → TuningKnobs → String → Option (Value N) → Fingerprint N
  build_fingerprint facts requested readback tenancy pinning_layout = record {
    hostname = facts.hostname;
    kernel_version = facts.kernel_version;
    os_release = facts.os_release;
    cpu_model = facts.cpu_model;
    cpu_count_logical = facts.cpu_count_logical;
    cpu_count_physical = facts.cpu_count_physical;
    smt_enabled = facts.smt_enabled;
    cpu_governor = facts.cpu_governor;
    thp_setting = facts.thp_setting;
    total_memory_bytes = facts.total_memory_bytes;
    kvm_present = facts.kvm_present;
    tenancy = tenancy;
    tuning_requested = to_value requested;
    tuning_readback = to_value readback;
    numa_topology = facts.numa_topology;
    pinning_layout = pinning_layout;
    mitigations = facts.mitigations;
    microcode_version = facts.microcode_version;
    nested_virt = facts.nested_virt;
  }

  module _ {W : Type 0} (host : Host W N) where
    -- `observe`: no mutation
    unfoldable pub observe : HostPrep → String → Action W (Fingerprint N)
    observe prep tenancy = do
      facts ← host.facts
      readback ← host.read_tuning prep.knobs
      done_with (build_fingerprint facts prep.knobs readback tenancy none)

    -- `prepare`
    unfoldable pub prepare : HostPrep → String → Action W (Fingerprint N)
    prepare prep tenancy = host.apply_tuning prep.knobs >> observe prep tenancy
