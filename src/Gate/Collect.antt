-- ===== src/Gate/Collect.antt =====
-- `Group` and `collect` of crates/gate/src/gate.rs.
pub mod Samples
use assayist.Common.{
  ℕ, String, List, [], ◌∷◌, ◌++◌, Option, none, some, Bool, true, false, ◌||◌, if◌then◌else◌,
  and_then, foldl,
}
use assayist.Text.{mem}
use assayist.Json.{Value}
use assayist.BTreeMap.{BTreeMap, update}
use assayist.Platform.{Platform}
use assayist.Reduce.{reduce}
use assayist.Reduce.Polarity.{Metric, Polarity}
use assayist.Gate.Run.{params_hash}

pub record Group (F : Type 0) : Type 0 where
  pub samples : BTreeMap (List F)
  pub contaminated : BTreeMap Bool
  pub polarity : BTreeMap Polarity
  pub cells : BTreeMap (List String)

abbrev pub add_cell : String → List String → List String
add_cell cell cells = if mem cell cells then cells else cells ++ cell ∷ []

module _ {F : Type 0} where
  abbrev pub empty_group : Group F
  empty_group = record { samples = []; contaminated = []; polarity = []; cells = [] }

  -- the body of the inner loop
  unfoldable pub add_metric : String → Group F → Metric F → Group F
  add_metric cell g m = record {
    samples = update m.id [] (λ vs. vs ++ m.value ∷ []) g.samples;
    contaminated = update m.id false (λ c. c || m.contaminated) g.contaminated;
    polarity = update m.id m.polarity (λ pol. pol) g.polarity;
    cells = update m.id [] (add_cell cell) g.cells;
  }

module _ ⦃p : Platform⦄ where
  open p use {F, N}

  unfoldable pub collect_from : Group F → List (Value N) → Option (Group F)
  collect_from g [] = some g
  collect_from g (run ∷ runs) =
      and_then (reduce run) λ ms. collect_from (foldl (add_metric (params_hash run)) g ms) runs

  -- `none` is a panic of `reduce`.
  unfoldable pub collect : List (Value N) → Option (Group F)
  collect runs = collect_from empty_group runs
