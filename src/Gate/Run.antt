-- ===== src/Gate/Run.antt =====
-- `Config`, and what the gate reads of a run (`grade_of`, `tenancy_of`, `params_hash`) of crates/gate/src/gate.rs.
use assayist.Common.{
  ℕ, String, List, [], ◌∷◌, Option, none, some, Bool, true, false, not, ◌&&◌, if◌then◌else◌,
  and_then, unwrap_or,
}
use assayist.Json.{Value, get, get_in, as_str, is_null}
use assayist.Platform.{Platform}

module _ ⦃p : Platform⦄ where
  open p use {F, N, decimal}

  pub record Config : Type 0 where
    pub p_threshold : F
    pub noise_threshold : F
    pub min_effect : F
    pub resamples : ℕ
    pub drift_k : F
    pub seed : ℕ
    pub ignore : List String
    pub allow_ungraded : Bool
    pub strict_single_cell : Bool

  -- `Config::default()`
  abbrev pub default_config : Config
  default_config = record {
    p_threshold = decimal 1 2;
    noise_threshold = decimal 5 2;
    min_effect = decimal 5 2;
    resamples = 10000;
    drift_k = decimal 30 1;
    seed = 0xA55A_1571_D000_0001;
    ignore = [];
    allow_ungraded = false;
    strict_single_cell = false;
  }

  abbrev has_field : Value N → String → Bool
  has_field fp k = elim (get k fp) [ none ↦ false | some v ↦ not (is_null v) ]

  abbrev all_fields : Value N → List String → Bool
  all_fields fp [] = true
  all_fields fp (k ∷ ks) = has_field fp k && all_fields fp ks

  abbrev pub core_fields : List String
  core_fields = "kernel_version" ∷ "cpu_model" ∷ "tenancy" ∷ "cpu_governor" ∷ []

  unfoldable pub grade_of : Value N → String
  grade_of run = elim (and_then (get "grade" run) as_str) [
    | some g ↦ g
    | none ↦ elim (get "fingerprint" run) [
      | none ↦ "invalid"
      | some fp ↦ if all_fields fp core_fields then "valid" else "invalid"
    ]
  ]

  unfoldable pub tenancy_of : Value N → Option String
  tenancy_of run = and_then (get_in "tenancy" (get "fingerprint" run)) as_str

  unfoldable pub params_hash : Value N → String
  params_hash run = unwrap_or (and_then (get_in "params_hash" (get "identity" run)) as_str) "_"
