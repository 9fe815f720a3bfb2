-- ===== src/Gate/Triad/Budget.antt =====
-- What the overhead of the probes does to the verdict of `triad`.
use text.Mathlib.TextEquality.{eq_iff}
use assayist.Common.{
  String, List, [], ◌∷◌, ◌++◌, Bool, true, false, not, ◌&&◌, ◌||◌, ◌≡◌, refl, ap, sym, ◌∙◌, arith,
  if◌then◌else◌, ok, >>=-ok, ok-injective, any, not-empty-snoc, is_empty, foldl, some,
}
use assayist.Text.{mem}
use assayist.Text
use assayist.Json.{Value}
use assayist.Platform.{Platform}
use assayist.Gate.Run.{Config}
use assayist.Gate.Report.{GateResult, Outcome, Overhead}
use assayist.Gate.Ab.{ab}
use assayist.Gate.Triad.{
  Costs, add_cost, add_costs, probe_costs, self_metrics, is_over_budget, probe_id, fold_outcome,
  fold_overhead, overhead_verdict, triad,
}

mem-snoc : (l : List String) (x y : String) → mem y (l ++ x ∷ []) ≡ (mem y l || Text.◌==◌ x y)
unfolding mem
mem-snoc [] x y = ground arith
mem-snoc (z ∷ l) x y = ground (arith, mem-snoc l x y)

module _ ⦃p : Platform⦄ where
  open p use {N}

  -- some entry of a run finds the probe `id` over its budget
  abbrev pub exceeds : String → Value N → Bool
  exceeds id pc = is_over_budget pc && Text.◌==◌ (probe_id pc) id

  abbrev pub run_exceeds : String → Value N → Bool
  run_exceeds id run = any (exceeds id) (self_metrics run)

  mem-add_cost :
      (s : Costs) (pc : Value N) (id : String)
      → mem id (add_cost s pc).over_budget ≡ (mem id s.over_budget || exceeds id pc)
  unfolding add_cost
  mem-add_cost s pc id =
      ground (arith, mem-snoc s.over_budget (probe_id pc) id, eq_iff (probe_id pc) id)

  mem-add_run :
      (s : Costs) (pcs : List (Value N)) (id : String)
      → mem id (foldl add_cost s pcs).over_budget ≡ (mem id s.over_budget || any (exceeds id) pcs)
  mem-add_run s [] id = ground arith
  mem-add_run s (pc ∷ pcs) id =
      ground (arith, mem-add_run (add_cost s pc) pcs id, mem-add_cost s pc id)

  mem-add_costs :
      (s : Costs) (runs : List (Value N)) (id : String)
      → mem id (add_costs s runs).over_budget ≡ (mem id s.over_budget || any (run_exceeds id) runs)
  unfolding add_costs
  mem-add_costs s [] id = ground arith
  mem-add_costs s (run ∷ runs) id = ground (
    arith,
    mem-add_costs (foldl add_cost s (self_metrics run)) runs id,
    mem-add_run s (self_metrics run) id,
  )

  -- some entry of a run is over its budget
  abbrev pub run_over : Value N → Bool
  run_over run = any is_over_budget (self_metrics run)

  mem-not-empty : (l : List String) (x : String) → mem x l ≡ true → is_empty l ≡ false
  unfolding mem
  mem-not-empty [] x h = sym h
  mem-not-empty (y ∷ l) x h = refl

  empty-add_cost :
      (s : Costs) (pc : Value N)
      → is_empty (add_cost s pc).over_budget ≡ (is_empty s.over_budget && not (is_over_budget pc))
  unfolding add_cost
  empty-add_cost s pc =
      ground (
        arith,
        mem-not-empty s.over_budget (probe_id pc),
        not-empty-snoc s.over_budget (probe_id pc),
      )

  empty-add_run :
      (s : Costs) (pcs : List (Value N))
      → is_empty (foldl add_cost s pcs).over_budget
        ≡ (is_empty s.over_budget && not (any is_over_budget pcs))
  empty-add_run s [] = ground arith
  empty-add_run s (pc ∷ pcs) =
      ground (arith, empty-add_run (add_cost s pc) pcs, empty-add_cost s pc)

  empty-add_costs :
      (s : Costs) (runs : List (Value N))
      → is_empty (add_costs s runs).over_budget
        ≡ (is_empty s.over_budget && not (any run_over runs))
  unfolding add_costs
  empty-add_costs s [] = ground arith
  empty-add_costs s (run ∷ runs) = ground (
    arith,
    empty-add_costs (foldl add_cost s (self_metrics run)) runs,
    empty-add_run s (self_metrics run),
  )

  fold_outcome_lem :
      (costs : Costs) (o : Outcome) (over : Bool)
      → is_empty costs.over_budget ≡ not over
      → (fold_outcome costs o).verdict
        ≡ (if over && not (Text.◌==◌ o.verdict "contaminated") then "fail" else o.verdict)
  fold_outcome_lem costs o over h = ground arith

  -- A result of `triad` comes from a result of `ab` on the same runs, with the same details. Its
  -- verdict is fail if an entry of the self metrics of a run of group B is over budget and the verdict
  -- of `ab` is not contaminated; otherwise it is the verdict of `ab`.
  pub triad-verdict :
      (a b : List (Value N)) {out : GateResult} (cfg : Config)
      → triad a b cfg ≡ ok out
      → (base : GateResult) × (ab a b cfg ≡ ok base)
        × (out.report.detail ≡ base.report.detail)
        × (out.outcome.verdict ≡ (
            if any run_over b && not (Text.◌==◌ base.outcome.verdict "contaminated")
            then "fail"
            else base.outcome.verdict))
  unfolding triad
  triad-verdict a b {out = out} cfg e =
      let (base, eb, eo) = >>=-ok (ab a b cfg) _ e in
      let empty : is_empty (probe_costs b).over_budget ≡ not (any run_over b) =
        empty-add_costs (record { worst = []; over_budget = [] }) b in
      let same : out ≡ fold_overhead (probe_costs b) base = ok-injective (sym eo) in
      (
        base,
        eb,
        ap (λ (r : GateResult). r.report.detail) same,
        ap (λ (r : GateResult). r.outcome.verdict) same
            ∙ fold_outcome_lem (probe_costs b) base.outcome (any run_over b) empty,
      )

  overhead_verdict_lem :
      (costs : Costs) (over : Bool)
      → is_empty costs.over_budget ≡ not over
      → overhead_verdict costs ≡ (if over then "fail" else "pass")
  overhead_verdict_lem costs over h = ground arith

  -- A result of `triad` has an overhead report, which lists a probe id as over budget exactly when an
  -- entry of the self metrics of some run of group B is over budget under that id; the verdict of the
  -- report is fail if such a run has an entry that is over its budget, under any id, else pass.
  pub mem-over_budget :
      (a b : List (Value N)) {out : GateResult} (cfg : Config)
      → triad a b cfg ≡ ok out
      → (o : Overhead) × (out.report.overhead ≡ some o)
        × ((id : String) → mem id o.over_budget ≡ any (run_exceeds id) b)
        × (o.verdict ≡ (if any run_over b then "fail" else "pass"))
  unfolding triad mem
  mem-over_budget a b {out = out} cfg e =
      let none_yet : Costs = record { worst = []; over_budget = [] } in
      let (base, eb, eo) = >>=-ok (ab a b cfg) _ e in
      let same : out ≡ fold_overhead (probe_costs b) base = ok-injective (sym eo) in
      (
        _,
        ap (λ (r : GateResult). r.report.overhead) same,
        λ id. mem-add_costs none_yet b id,
        overhead_verdict_lem (probe_costs b) (any run_over b) (empty-add_costs none_yet b),
      )
