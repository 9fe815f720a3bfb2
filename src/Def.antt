-- ===== src/Def.antt =====
-- crates/orchestrate/src/def.rs: the benchmark definition, its load-time rules, and its hash.
pub mod Cells
pub mod Rules
pub mod Product
use assayist.Common.{
  ℕ, String, List, [], ◌∷◌, ◌++◌, Option, none, some, Bool, true, false, not, ◌&&◌, if◌then◌else◌,
  Exec, ok, err, panic, ◌>>=◌, length, is_empty, is_some, map, ◌==◌,
}
use assayist.Text
use assayist.Text.{format, mem}
use assayist.Text.Number.{show_ℕ, show_byte}
use assayist.Json.{Value}
use assayist.BTreeMap.{BTreeMap, get}
use assayist.Platform.{Platform}

pub record Cardinality : Type 0 where
  pub class : String
  pub key_source : Option String
  pub max_keys : Option ℕ

pub record CaptureEntry : Type 0 where
  pub probe : String
  pub gadget : Option String
  pub cardinality : Cardinality
  pub attach : Option String
  pub hot_path : Bool
  pub args : List String

pub record Target (N : Type 0) : Type 0 where
  pub adapter : String
  pub version : String
  pub commands : BTreeMap String
  pub config : BTreeMap (Value N)

pub record Workload (N : Type 0) : Type 0 where
  pub driver : String
  pub version : String
  pub commands : BTreeMap String
  pub config : BTreeMap (Value N)

pub record GateSpec (F : Type 0) : Type 0 where
  pub mode : String
  pub p_threshold : Option F
  pub noise_threshold : Option F
  pub resamples : Option ℕ
  pub ignore : List String

abbrev pub gate_modes : List String
gate_modes = "ab_permutation" ∷ "longitudinal_drift" ∷ "subsystem_triad" ∷ []

abbrev pub tenancies : List String
tenancies = "single_tenant" ∷ "density" ∷ []

abbrev pub card_classes : List String
card_classes = "singleton" ∷ "bounded" ∷ []

abbrev pub attach_kinds : List String
attach_kinds =
    "tp_btf" ∷ "tracepoint" ∷ "fentry" ∷ "fexit" ∷ "kprobe" ∷ "kretprobe" ∷ "uprobe" ∷ "xdp" ∷ "tc"
    ∷ []

-- `.join(sep)`
abbrev pub join : String → List String → String
join sep [] = ""
join sep (x ∷ []) = x
join sep (x ∷ xs) = format (x ∷ sep ∷ join sep xs ∷ [])

-- one message, if a test fails
unfoldable pub problem : Bool → List String → List String
problem bad text = if bad then format text ∷ [] else []

abbrev pub where_of : CaptureEntry → String
where_of c = format ("capture '" ∷ c.probe ∷ "'" ∷ [])

abbrev pub class_problems : CaptureEntry → List String
class_problems c = problem (not (mem c.cardinality.class card_classes)) (
    where_of c
    ∷ ": cardinality.class '"
    ∷ c.cardinality.class
    ∷ "' unknown (want singleton or bounded; unbounded is rejected by design)"
    ∷ [])

abbrev pub max_keys_problems : String → Option ℕ → List String
max_keys_problems at none = format (at ∷ ": bounded cardinality needs max_keys" ∷ []) ∷ []
max_keys_problems at (some n) =
    problem (n == 0) (at ∷ ": bounded cardinality max_keys must be > 0" ∷ [])

abbrev pub bounded_problems : CaptureEntry → List String
bounded_problems c =
    if Text.◌==◌ c.cardinality.class "bounded"
    then problem (not (is_some c.cardinality.key_source))
        (where_of c ∷ ": bounded cardinality needs a key_source" ∷ [])
      ++ max_keys_problems (where_of c) c.cardinality.max_keys
    else []

abbrev pub attach_problems : String → Option String → Bool → List String
attach_problems at none hot_path = []
attach_problems at (some a) hot_path =
    problem (not (mem a attach_kinds))
      (at ∷ ": attach '" ∷ a ∷ "' unknown (want one of " ∷ join ", " attach_kinds ∷ ")" ∷ [])
    ++ problem (Text.◌==◌ a "uprobe" && hot_path) (
        at
        ∷ ": uprobe on a hot path is banned (dual context switch); sample off the hot path instead"
        ∷ [])

-- the body of the loop over `capture`
unfoldable pub capture_problems : CaptureEntry → List String
capture_problems c =
    class_problems c ++ bounded_problems c ++ attach_problems (where_of c) c.attach c.hot_path

unfoldable pub all_capture_problems : List CaptureEntry → List String
all_capture_problems [] = []
all_capture_problems (c ∷ cs) = capture_problems c ++ all_capture_problems cs

-- `Result<(), Vec<String>>`
pub data Validation : Type 0 where
  accepted : Validation
  rejected : List String → Validation

-- the end of `validate`
abbrev pub validation : List String → Validation
validation [] = accepted
validation (e ∷ errs) = rejected (e ∷ errs)

module _ ⦃p : Platform⦄ where
  open p use {F, N, sha256}

  pub record BenchmarkDef : Type 0 where
    pub api_version : String
    pub name : String
    pub target : Target N
    pub workload : Workload N
    pub gate : GateSpec F
    pub parameterise : BTreeMap (List (Value N))
    pub compare : Option String
    pub capture : List CaptureEntry
    pub host_prep : Value N
    pub tenancy : String

  abbrev pub sha256_hex : String → String
  sha256_hex text = format (map show_byte (sha256 text))

  -- `parse`, for the reader `from_yaml` of `serde_yaml`, whose error is the text of the error's `Display`
  unfoldable pub parse : (String → Exec BenchmarkDef) → String → Exec (BenchmarkDef × String)
  parse from_yaml text = elim (from_yaml text) [
    | panic ↦ panic
    | err e ↦ err (format ("parsing benchmark def: " ∷ e ∷ []))
    | ok def ↦ ok (def, sha256_hex text)
  ]

  abbrev pub mode_problems : BenchmarkDef → List String
  mode_problems def =
      problem (not (mem def.gate.mode gate_modes)) (
        "gate.mode '" ∷ def.gate.mode ∷ "' unknown (want one of " ∷ join ", " gate_modes ∷ ")" ∷ [])

  abbrev pub tenancy_problems : BenchmarkDef → List String
  tenancy_problems def =
      problem (not (mem def.tenancy tenancies))
        ("tenancy '" ∷ def.tenancy ∷ "' unknown (want one of " ∷ join ", " tenancies ∷ ")" ∷ [])

  abbrev pub values_problems : String → Option (List (Value N)) → List String
  values_problems dim none =
      format (
        "compare '" ∷ dim
        ∷ "' names no parameterise dimension (declare it under parameterise with two values)" ∷ [])
      ∷ []
  values_problems dim (some values) = problem (not (length values == 2)) (
      "compare '"
      ∷ dim
      ∷ "' needs exactly two values for an A/B comparison, found "
      ∷ show_ℕ (length values)
      ∷ [])

  abbrev pub compare_problems : BTreeMap (List (Value N)) → Option String → List String
  compare_problems parameterise none = []
  compare_problems parameterise (some dim) = values_problems dim (get dim parameterise)

  -- the messages that `validate` collects, in order
  unfoldable pub problems : BenchmarkDef → List String
  problems def =
      mode_problems def
      ++ tenancy_problems def
      ++ compare_problems def.parameterise def.compare
      ++ all_capture_problems def.capture

  unfoldable pub validate : BenchmarkDef → Validation
  validate def = validation (problems def)
