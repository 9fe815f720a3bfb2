-- ===== src/Gate/Triad.antt =====
-- `triad` of crates/gate/src/gate.rs: `ab`, and the cost of the probes themselves.
pub mod Budget
use assayist.Common.{
  String, List, [], ◌∷◌, ◌++◌, Option, none, some, Bool, true, false, not, ◌&&◌, if◌then◌else◌,
  Exec, ok, err, ◌>>=◌, and_then, is_empty, unwrap_or, foldl,
}
use assayist.Text.{mem}
use assayist.Text
use assayist.Json.{Value, get, as_array, as_str, as_bool, number, null, bool, string, array, object}
use assayist.BTreeMap.{BTreeMap, update}
use assayist.Platform.{Platform}
use assayist.Stats.Moments.{zero_f}
use assayist.Gate.Run.{Config}
use assayist.Gate.Report.{GateResult, Outcome, Overhead}
use assayist.Gate.Ab.{ab}

module _ ⦃p : Platform⦄ where
  open p use {F, N, lt, as_f64}

  abbrev pub number_of : Value N → Option F
  number_of (number n) = as_f64 n
  number_of _ = none

  -- what `triad` reads of one entry of `self_metrics`
  abbrev pub probe_id : Value N → String
  probe_id pc = unwrap_or (and_then (get "probe_id" pc) as_str) ""

  abbrev pub steady_cpu_fraction : Value N → F
  steady_cpu_fraction pc = unwrap_or (and_then (get "steady_cpu_fraction" pc) number_of) zero_f

  abbrev pub is_over_budget : Value N → Bool
  is_over_budget pc = unwrap_or (and_then (get "over_budget" pc) as_bool) false

  pub record Costs : Type 0 where
    pub worst : BTreeMap F
    pub over_budget : List String

  abbrev pub raise : F → F → F
  raise frac e = if lt e frac then frac else e

  -- the body of the inner loop
  unfoldable pub add_cost : Costs → Value N → Costs
  add_cost s pc = record {
    worst = update (probe_id pc) zero_f (raise (steady_cpu_fraction pc)) s.worst;
    over_budget =
        if is_over_budget pc && not (mem (probe_id pc) s.over_budget)
        then s.over_budget ++ probe_id pc ∷ []
        else s.over_budget;
  }

  abbrev pub self_metrics : Value N → List (Value N)
  self_metrics run = unwrap_or (and_then (get "self_metrics" run) as_array) []

  unfoldable pub add_costs : Costs → List (Value N) → Costs
  add_costs s [] = s
  add_costs s (run ∷ runs) = add_costs (foldl add_cost s (self_metrics run)) runs

  abbrev pub probe_costs : List (Value N) → Costs
  probe_costs b = add_costs (record { worst = []; over_budget = [] }) b

  abbrev pub overhead_verdict : Costs → String
  overhead_verdict costs = if is_empty costs.over_budget then "pass" else "fail"

  -- what the overhead makes of the top-line verdict
  abbrev pub fold_outcome : Costs → Outcome → Outcome
  fold_outcome costs o = if is_empty costs.over_budget then o else record {
    verdict = if Text.◌==◌ o.verdict "contaminated" then o.verdict else "fail";
    per_metric = o.per_metric;
    notes = o.notes ++ "subsystem overhead over budget; see report.overhead" ∷ [];
  }

  abbrev pub fold_overhead : Costs → GateResult → GateResult
  fold_overhead costs base = record {
    outcome = fold_outcome costs base.outcome;
    report = record {
      mode = "subsystem_triad";
      detail = base.report.detail;
      overhead = some (record {
        verdict = overhead_verdict costs;
        worst_steady_cpu_fraction = costs.worst;
        over_budget = costs.over_budget;
      });
    };
  }

  unfoldable pub triad : List (Value N) → List (Value N) → Config → Exec GateResult
  triad a b cfg = do base ← ab a b cfg; ok (fold_overhead (probe_costs b) base)
