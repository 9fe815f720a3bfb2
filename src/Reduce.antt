-- ===== src/Reduce.antt =====
-- `reduce` of crates/gate/src/reduce.rs: a run as a flat list of metrics. `none` is a panic.
pub mod Polarity
pub mod Labels
pub mod Workload
pub mod Series
pub mod Explicit
pub mod LabelOrder
use assayist.Common.{
  String, List, [], ◌∷◌, ◌++◌, Option, none, some, Bool, false, and_then, map_option, unwrap_or,
}
use assayist.Text.{format}
use assayist.Json.{Value, get, get_in, as_str, as_bool, as_array}
use assayist.Platform.{Platform}
use Polarity.{Metric, lower_better}
use Workload.{workload_metrics}
use Series.{number_as, reduce_series, overbudget_sources, text_of}

module _ ⦃p : Platform⦄ where
  open p use {F, N, sub, as_f64}

  unfoldable pub window_ns : Value N → Option F
  window_ns run = and_then (get_in "window_ns" (get "capture_meta" run)) (number_as as_f64)

  abbrev pub array_of : String → Value N → List (Value N)
  array_of k v = unwrap_or (and_then (get k v) as_array) []

  unfoldable pub reduce_all :
      List String → Bool → Option F → List (Value N) → Option (List (Metric F))
  reduce_all over global_overflow win [] = some []
  reduce_all over global_overflow win (s ∷ rest) =
      and_then (reduce_series over global_overflow win s)
        λ ms. map_option (λ others. ms ++ others) (reduce_all over global_overflow win rest)

  -- `end - start`, where both are there
  abbrev span_metric : Value N → Option F → Option F → List (Metric F)
  span_metric sp (some s) (some e) =
      record {
        id = format ("span:" ∷ text_of "name" sp ∷ "|dur" ∷ []);
        value = sub e s;
        contaminated = false;
        polarity = lower_better;
      }
      ∷ []
  span_metric sp _ _ = []

  unfoldable pub span_metrics : List (Value N) → List (Metric F)
  span_metrics [] = []
  span_metrics (sp ∷ rest) =
      span_metric sp (and_then (get "start_unix_nano" sp) (number_as as_f64))
        (and_then (get "end_unix_nano" sp) (number_as as_f64))
      ++ span_metrics rest

  unfoldable pub reduce : Value N → Option (List (Metric F))
  reduce run =
      let over = overbudget_sources (array_of "self_metrics" run) in
      let global_overflow =
        unwrap_or (and_then (get_in "cardinality_overflow" (get "capture_meta" run)) as_bool)
          false in
      map_option (λ series. series ++ workload_metrics run ++ span_metrics (array_of "spans" run))
        (reduce_all over global_overflow (window_ns run) (array_of "series" run))
