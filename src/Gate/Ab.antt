-- ===== src/Gate/Ab.antt =====
-- `ab` of crates/gate/src/gate.rs. The JSON document that it returns is the record `GateResult`.
pub mod Judgement
use assayist.Common.{
  ℕ, String, List, [], ◌∷◌, ◌++◌, Option, none, some, Bool, true, false, not, ◌&&◌, ◌||◌,
  if◌then◌else◌, Exec, ok, err, ◌>>=◌, or_panic, and_then, map_option, length, is_empty, ltb,
}
use assayist.Text
use assayist.Text.{format}
use assayist.Text.Number.{show_ℕ}
use assayist.Json.{Value}
use assayist.BTreeMap.{BTreeMap, get, insert}
use assayist.Platform.{Platform}
use assayist.Gate.Run.{Config}
use assayist.Gate.Collect.{Group, collect}
use assayist.Gate.Validate.{validate}
use assayist.Gate.Compare.{Detail, judge, is_significant, is_noisy}
use assayist.Gate.Report.{Entry, GateResult, ab_detail}

module _ ⦃p : Platform⦄ where
  open p use {F, N, debug_texts}

  -- the variables that the loop mutates
  pub record AbState : Type 0 where
    pub per_metric : BTreeMap Entry
    pub detail : List Detail
    pub any_regressed : Bool
    pub any_contaminated : Bool
    pub single_cell_regressions : List String

  abbrev pub ab_start : AbState
  ab_start = record {
    per_metric = [];
    detail = [];
    any_regressed = false;
    any_contaminated = false;
    single_cell_regressions = [];
  }

  abbrev pub has_status : String → Detail → Bool
  has_status s d = Text.◌==◌ d.status s

  -- the writes of one round, after the metric is judged
  unfoldable pub record_detail : Config → Detail → AbState → AbState
  record_detail cfg d s =
      let regressed = has_status "regressed" d in
      record {
        per_metric =
            insert d.id
              (record {
                delta = d.rel_delta;
                p_value = d.p_value;
                significant = is_significant cfg d.p_value;
                noisy = is_noisy cfg d.cov;
              })
              s.per_metric;
        detail = s.detail ++ d ∷ [];
        any_regressed = s.any_regressed || regressed;
        any_contaminated = s.any_contaminated || has_status "contaminated" d;
        single_cell_regressions =
            if regressed && ltb (length d.cells) 2
            then s.single_cell_regressions ++ d.id ∷ []
            else s.single_cell_regressions;
      }

  -- the loop over the samples of group A, with its two `continue`s
  unfoldable pub ab_loop : Config → Group F → Group F → BTreeMap (List F) → AbState → Option AbState
  ab_loop cfg ga gb [] s = some s
  ab_loop cfg ga gb ((id, avals) ∷ rest) s =
      let skip = ab_loop cfg ga gb rest s in
      elim (get id gb.samples) [
        | none ↦ skip
        | some bvals ↦
            if ltb (length avals) 2 || ltb (length bvals) 2
            then skip
            else and_then (judge cfg ga gb id avals bvals)
                λ d. ab_loop cfg ga gb rest (record_detail cfg d s)
      ]

  abbrev pub verdict_of : AbState → String
  verdict_of s =
      if s.any_contaminated then "contaminated" else if s.any_regressed then "fail" else "pass"

  -- the note on regressions in a single cell
  abbrev pub verdict_notes : Config → AbState → List String → List String
  verdict_notes cfg s notes =
      if not s.any_contaminated
        && s.any_regressed
        && not (is_empty s.single_cell_regressions)
        && not cfg.strict_single_cell
      then notes
        ++ format (
            "regressions in a single parameterisation cell (possible noise): "
            ∷ debug_texts s.single_cell_regressions
            ∷ "; verdict is fail but confirm across cells or pass --strict-single-cell to treat as definitive"
            ∷ [])
          ∷ []
      else notes

  -- a comparison that tested nothing
  abbrev pub nothing_comparable : ℕ → ℕ → String
  nothing_comparable n m = format (
      "no metric was comparable: no series appears in both groups with at least two samples per group (A has "
      ∷ show_ℕ n
      ∷ " series, B has "
      ∷ show_ℕ m
      ∷ " series). A comparison this small cannot be gated; add more repeats per group."
      ∷ [])

  -- what follows the loop
  unfoldable pub ab_result : Config → List String → Group F → Group F → AbState → Exec GateResult
  ab_result cfg notes ga gb s =
      if is_empty s.per_metric
      then err (nothing_comparable (length ga.samples) (length gb.samples))
      else ok (record {
        outcome = record {
          verdict = verdict_of s;
          per_metric = s.per_metric;
          notes = verdict_notes cfg s notes;
        };
        report = record { mode = "ab_permutation"; detail = ab_detail s.detail; overhead = none };
      })

  unfoldable pub ab : List (Value N) → List (Value N) → Config → Exec GateResult
  ab a b cfg = do
    notes ← validate a b cfg
    ga ← or_panic (collect a)
    gb ← or_panic (collect b)
    s ← or_panic (ab_loop cfg ga gb ga.samples ab_start)
    ab_result cfg notes ga gb s
