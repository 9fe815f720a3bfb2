-- ===== src/Examples/DefRuns.antt =====
-- A small benchmark definition, and the call of the gate.
use assayist.Common.{
  map_option, ◌^◌, arith, [], ◌∷◌, ◌≡◌, ◌↔◌, ok, err, map, length, none, some, true, false, refl,
}
use assayist.Json.{number, null}
use assayist.Def.{BenchmarkDef, accepted, validate}
use assayist.Def.Rules.{validate-accepted_iff, IsValidDef}
use assayist.Def.Cells.{expand_cells, cell_of, axis_values}
use assayist.Def.Product.{expand_cells-product, product}
use assayist.Handoff.{Output, GateThresholds, run_gate, final_code}
use assayist.Handoff.Codes.{run_gate-code}
use assayist.Handoff.{gate_argv}
use assayist.Handoff.Arguments.{parse_args-gate_argv, passed, run-longitudinal}
use assayist.Gate.Command.{parse_args, run}
use assayist.Text.Number.{parse_uint, parse_digits, show_ℕ, show_fuel}
use assayist.Examples.CommandRuns.{files}
use assayist.Examples.Fixed.{pos, whole, fixed_platform}

abbrev pub definition : BenchmarkDef
definition = record {
  api_version = "v0";
  name = "boot";
  target = record { adapter = "firecracker"; version = ""; commands = []; config = [] };
  workload = record { driver = "fio"; version = ""; commands = []; config = [] };
  gate = record {
    mode = "ab_permutation";
    p_threshold = none;
    noise_threshold = none;
    resamples = none;
    ignore = [];
  };
  parameterise =
      ("mem_mib", number (whole 256) ∷ number (whole 512) ∷ [])
      ∷ ("vcpu", number (whole 1) ∷ number (whole 2) ∷ number (whole 4) ∷ [])
      ∷ [];
  compare = some "mem_mib";
  capture =
      (record {
        probe = "kvm_exit";
        gadget = none;
        cardinality = record { class = "bounded"; key_source = some "vm_id"; max_keys = some 64 };
        attach = some "tracepoint";
        hot_path = true;
        args = [];
      })
      ∷ [];
  host_prep = null;
  tenancy = "single_tenant";
}

validate-accepted_iff_example : (validate definition ≡ accepted) ↔ IsValidDef definition
validate-accepted_iff_example = validate-accepted_iff definition

expand_cells-product_example :
    (expand_cells definition
      ≡ map (cell_of ("mem_mib" ∷ "vcpu" ∷ [])) (product (axis_values definition.parameterise)))
    × (length (expand_cells definition) ≡ 6)
expand_cells-product_example = expand_cells-product definition

abbrev thresholds : GateThresholds
thresholds = record {
  p_threshold = pos 10000;
  noise_threshold = pos 50000;
  resamples = 10000;
  ignore = [];
  allow_ungraded = false;
}

-- a gate that a signal ends
abbrev killed : Output
killed = record { code = none; stdout = ""; stderr = "" }

run_gate-code_example :
    final_code (
      run_gate
        (λ text. err "not JSON")
        (λ bin argv. ok killed)
        "assayist-gate"
        "ab_permutation"
        ("a1" ∷ [])
        ("b1" ∷ [])
        thresholds)
    ≡ 0
run_gate-code_example =
    run_gate-code (λ text. err "not JSON") (λ bin argv. ok killed) "assayist-gate" "ab_permutation"
      ("a1" ∷ []) ("b1" ∷ []) thresholds {out = killed} refl

-- thresholds whose texts are whole
abbrev whole_thresholds : GateThresholds
whole_thresholds = record {
  p_threshold = whole 1;
  noise_threshold = whole 2;
  resamples = 3;
  ignore = "pool" ∷ [];
  allow_ungraded = true;
}

reads_one : map_option whole (parse_uint (2 ^ 64) (show_ℕ 1)) ≡ some (whole 1)
unfolding parse_uint parse_digits show_fuel
reads_one = refl

reads_two : map_option whole (parse_uint (2 ^ 64) (show_ℕ 2)) ≡ some (whole 2)
unfolding parse_uint parse_digits show_fuel
reads_two = refl

parse_args-gate_argv_example :
    parse_args (gate_argv "subsystem_triad" ("a1" ∷ []) ("b1" ∷ []) whole_thresholds)
    ≡ ok (passed "subsystem_triad" ("a1" ∷ []) ("b1" ∷ []) whole_thresholds)
parse_args-gate_argv_example =
    parse_args-gate_argv "subsystem_triad" ("a1" ∷ []) ("b1" ∷ []) whole_thresholds (refl, tt)
      (refl, tt) reads_one reads_two (omega arith)

run-longitudinal_example :
    run files (gate_argv "longitudinal_drift" ("a1" ∷ []) ("b1" ∷ []) whole_thresholds)
    ≡ err "longitudinal_drift needs --baseline and --candidate"
run-longitudinal_example =
    run-longitudinal files ("a1" ∷ []) ("b1" ∷ []) whole_thresholds (refl, tt) (refl, tt) reads_one
      reads_two (omega arith)
