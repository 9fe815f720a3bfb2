-- ===== src/Gate/Drift.antt =====
-- `drift` of crates/gate/src/gate.rs: the longitudinal mode.
pub mod Band
use assayist.Common.{
  ℕ, String, List, [], ◌∷◌, ◌++◌, Option, none, some, Bool, true, false, not, ◌&&◌, ◌||◌,
  if◌then◌else◌, Exec, ok, err, ◌>>=◌, or_panic, length, is_empty, ltb, unwrap_or,
}
use assayist.Text.{format}
use assayist.Text.Number.{show_ℕ}
use assayist.Json.{Value}
use assayist.BTreeMap.{BTreeMap, get, insert}
use assayist.Platform.{Platform}
use assayist.Stats.Moments.{mean, stddev, zero_f}
use assayist.Stats.Trend.{linreg_slope_stderr}
use assayist.Reduce.Polarity.{Polarity}
use assayist.Gate.Run.{Config}
use assayist.Gate.Collect.{Group, collect}
use assayist.Gate.Compare.{bad_direction, is_ignored, polarity_in}
use assayist.Gate.Report.{Entry, DriftDetail, GateResult, drift_detail}

module _ ⦃p : Platform⦄ where
  open p use {F, N, sub, mul, div, abs, lt, le, eq, decimal}

  -- the relative change, which is 0 for a baseline of 0
  abbrev pub drift_delta : F → F → F
  drift_delta base_mean cand_mean =
      if not (eq base_mean zero_f) then div (sub cand_mean base_mean) base_mean else zero_f

  abbrev pub is_level_shift : Config → F → F → F → Bool
  is_level_shift cfg base_mean base_std cand_mean =
      if lt zero_f base_std
      then lt (mul cfg.drift_k base_std) (abs (sub cand_mean base_mean))
      else le cfg.min_effect (abs (drift_delta base_mean cand_mean))

  abbrev pub is_drifted : Config → F → F → F → Bool
  is_drifted cfg base_mean base_std cand_mean =
      is_level_shift cfg base_mean base_std cand_mean
      && le cfg.min_effect (abs (drift_delta base_mean cand_mean))

  abbrev pub is_trending : F → F → Bool
  is_trending slope stderr = lt zero_f stderr && lt (decimal 20 1) (abs (div slope stderr))

  abbrev pub drift_status : Bool → Bool → Bool → String
  drift_status drifted bad trending =
      if drifted && bad
      then "drift_bad"
      else if drifted
      then "drift"
      else if trending
      then "trending"
      else "stable"

  -- what the loop computes for one metric
  unfoldable pub assess : Config → Group F → String → List F → List F → DriftDetail
  assess cfg gb id base_vals cand_vals =
      let base_mean = mean base_vals in
      let base_std = stddev base_vals in
      let cand_mean = mean cand_vals in
      let rel = drift_delta base_mean cand_mean in
      let fit = linreg_slope_stderr cand_vals in
      let bad = unwrap_or (bad_direction (polarity_in id gb) rel) false in
      record {
        id = id;
        status =
            drift_status (is_drifted cfg base_mean base_std cand_mean) bad
              (is_trending fit.0 fit.1);
        base_mean = base_mean;
        base_std = base_std;
        cand_mean = cand_mean;
        rel_delta = rel;
        slope = fit.0;
        slope_stderr = fit.1;
      }

  -- the variables that the loop mutates
  pub record DriftState : Type 0 where
    pub per_metric : BTreeMap Entry
    pub detail : List DriftDetail
    pub any_drift : Bool

  abbrev pub drift_start : DriftState
  drift_start = record { per_metric = []; detail = []; any_drift = false }

  abbrev pub has_drift_status : String → DriftDetail → Bool
  has_drift_status s d = assayist.Text.◌==◌ d.status s

  unfoldable pub record_drift : Config → DriftDetail → DriftState → DriftState
  record_drift cfg d s = record {
    per_metric =
        insert d.id
          (record {
            delta = d.rel_delta;
            p_value = decimal 0 1;
            significant = is_drifted cfg d.base_mean d.base_std d.cand_mean;
            noisy = false;
          })
          s.per_metric;
    detail = s.detail ++ d ∷ [];
    any_drift = s.any_drift || has_drift_status "drift_bad" d;
  }

  -- the tests that `continue`
  abbrev pub is_assessed : Config → String → List F → List F → Bool
  is_assessed cfg id base_vals cand_vals =
      not (ltb (length base_vals) 2 || ltb (length cand_vals) 2) && not (is_ignored cfg id)

  -- the loop over the samples of the baseline
  unfoldable pub drift_loop :
      Config → Group F → Group F → BTreeMap (List F) → DriftState → DriftState
  drift_loop cfg gb gc [] s = s
  drift_loop cfg gb gc ((id, base_vals) ∷ rest) s = elim (get id gc.samples) [
    | none ↦ drift_loop cfg gb gc rest s
    | some cand_vals ↦ drift_loop cfg gb gc rest (
        if is_assessed cfg id base_vals cand_vals
        then record_drift cfg (assess cfg gb id base_vals cand_vals) s
        else s)
  ]

  abbrev pub nothing_assessed : ℕ → ℕ → String
  nothing_assessed n m = format (
      "no metric was comparable: no series appears in both baseline and candidate with at least two samples each (baseline has "
      ∷ show_ℕ n
      ∷ " series, candidate has "
      ∷ show_ℕ m
      ∷ " series). Add more samples per side."
      ∷ [])

  unfoldable pub drift_result : Group F → Group F → DriftState → Exec GateResult
  drift_result gb gc s =
      if is_empty s.per_metric
      then err (nothing_assessed (length gb.samples) (length gc.samples))
      else ok (record {
        outcome = record {
          verdict = if s.any_drift then "fail" else "pass";
          per_metric = s.per_metric;
          notes = if s.any_drift then [] else "no bad-direction drift beyond band" ∷ [];
        };
        report = record {
          mode = "longitudinal_drift";
          detail = drift_detail s.detail;
          overhead = none;
        };
      })

  unfoldable pub drift : List (Value N) → List (Value N) → Config → Exec GateResult
  drift baseline candidate cfg = do
    gb ← or_panic (collect baseline)
    gc ← or_panic (collect candidate)
    drift_result gb gc (drift_loop cfg gb gc gb.samples drift_start)
