-- ===== src/Reduce/Series.antt =====
-- The loop over the series of `reduce` of crates/gate/src/reduce.rs, and the fields of a run that it reads.
use assayist.Common.{
  ℕ, ◌+◌, String, List, [], ◌∷◌, Option, none, some, Bool, false, ◌||◌, if◌then◌else◌, ◌==◌,
  and_then, map_option, unwrap_or,
}
use assayist.Text
use assayist.Text.{format, mem}
use assayist.Json.{Value, null, number, get, as_str, as_bool, as_array}
use assayist.Platform.{Platform}
use assayist.Stats.Moments.{zero_f}
use assayist.Stats.Histogram.{
  total, lower_edge, upper_edge, log2_percentile, log2_mean, explicit_percentile,
}
use assayist.Reduce.Polarity.{Metric, polarity_of}
use assayist.Reduce.Labels.{labels_suffix}

infixl 5 ◌>>=◌
abbrev ◌>>=◌ : {A B : Type 0} → Option A → (A → Option B) → Option B
o >>= k = and_then o k

module _ ⦃p : Platform⦄ where
  open p use {F, N, add, mul, div, lt, of_ℕ, decimal, as_f64, as_u64}

  abbrev pub number_as : {A : Type 0} → (N → Option A) → Value N → Option A
  number_as f (number n) = f n
  number_as f _ = none

  -- `f`
  unfoldable pub f : Value N → String → Option F
  f v k = and_then (get k v) (number_as as_f64)

  abbrev filter_map : {A : Type 0} → (Value N → Option A) → List (Value N) → List A
  filter_map g [] = []
  filter_map g (v ∷ vs) = elim (g v) [ none ↦ filter_map g vs | some a ↦ a ∷ filter_map g vs ]

  unfoldable pub u64s : Value N → List ℕ
  u64s v = filter_map (number_as as_u64) (unwrap_or (as_array v) [])

  unfoldable pub f64s : Value N → List F
  f64s v = filter_map (number_as as_f64) (unwrap_or (as_array v) [])

  -- the sum over the buckets of an explicit histogram: `none` is the panic of `bounds[i - 1]`
  unfoldable pub explicit_acc : List F → List ℕ → ℕ → F → Option F
  explicit_acc bounds [] i acc = some acc
  explicit_acc bounds (b ∷ bs) i acc = and_then (lower_edge bounds i) λ lo.
      explicit_acc bounds bs (i + 1)
        (add acc (div (mul (of_ℕ b) (add lo (upper_edge bounds i lo))) (decimal 2 0)))

  unfoldable pub explicit_mean : List ℕ → List F → Option F
  explicit_mean buckets bounds =
      let n = total buckets in
      if n == 0
      then some zero_f
      else map_option (λ acc. div acc (of_ℕ n)) (explicit_acc bounds buckets 0 zero_f)

  -- `match (f(data, "sum"), f(data, "count"))`
  abbrev pub exact_mean : Option F → Option F → F → F
  exact_mean (some sum) (some c) estimate = if lt zero_f c then div sum c else estimate
  exact_mean _ _ estimate = estimate

  pub record Estimates : Type 0 where
    pub mean : F
    pub p50 : F
    pub p99 : F

  unfoldable pub explicit_estimates : List ℕ → List F → Option Estimates
  explicit_estimates buckets bounds = do
    mean ← explicit_mean buckets bounds
    p50 ← explicit_percentile buckets bounds (decimal 50 2)
    p99 ← explicit_percentile buckets bounds (decimal 99 2)
    some (record { mean = mean; p50 = p50; p99 = p99 })

  unfoldable pub log2_estimates : Value N → List ℕ → Estimates
  log2_estimates d buckets = record {
    mean = exact_mean (f d "sum") (f d "count") (log2_mean buckets);
    p50 = log2_percentile buckets (decimal 50 2);
    p99 = log2_percentile buckets (decimal 99 2);
  }

  -- the `histogram` arm, up to the pushes
  unfoldable pub histogram : Value N → Option Estimates
  histogram d =
      let layout = unwrap_or (and_then (get "layout" d) as_str) "log2" in
      let buckets = u64s (unwrap_or (get "buckets" d) null) in
      if Text.◌==◌ layout "explicit"
      then explicit_estimates buckets (f64s (unwrap_or (get "explicit_bounds" d) null))
      else some (log2_estimates d buckets)

  -- the closure `push`
  abbrev pub metric : String → Bool → String → F → Metric F
  metric unit contaminated id value = record {
    id = id;
    value = value;
    contaminated = contaminated;
    polarity = polarity_of id unit;
  }

  -- `match kind`: what is pushed for one series
  unfoldable pub series_metrics :
      String → String → Bool → String → Option F → Value N → Option (List (Metric F))
  series_metrics kind unit contaminated base win d =
      let push = metric unit contaminated in
      let value = unwrap_or (f d "value") zero_f in
      let plain = push (format (base ∷ "|value" ∷ [])) value in
      if Text.◌==◌ kind "histogram"
      then map_option
          (λ e.
            push (format (base ∷ "|mean" ∷ [])) e.mean
            ∷ push (format (base ∷ "|p50" ∷ [])) e.p50
            ∷ push (format (base ∷ "|p99" ∷ [])) e.p99
            ∷ [])
          (histogram d)
      else if Text.◌==◌ kind "counter"
      then some (
          plain ∷ elim win [
            | none ↦ []
            | some w ↦
                if lt zero_f w
                then push (format (base ∷ "|rate" ∷ [])) (mul (div value w) (decimal 1000000000 0))
                  ∷ []
                else []
          ])
      else if Text.◌==◌ kind "gauge"
      then some (plain ∷ [])
      else some []

  abbrev pub text_of : String → Value N → String
  text_of k s = unwrap_or (and_then (get k s) as_str) ""

  abbrev pub flag_of : String → Value N → Bool
  flag_of k v = unwrap_or (and_then (get k v) as_bool) false

  -- `overbudget_sources`, with the set as a list
  unfoldable pub overbudget_sources : List (Value N) → List String
  overbudget_sources [] = []
  overbudget_sources (pc ∷ rest) =
      let sources = overbudget_sources rest in
      if flag_of "over_budget" pc
      then elim (and_then (get "probe_id" pc) as_str) [ none ↦ sources | some id ↦ id ∷ sources ]
      else sources

  unfoldable pub is_contaminated : List String → Bool → Value N → Bool
  is_contaminated over global_overflow s =
      mem (text_of "source" s) over || flag_of "cardinality_overflow" s || global_overflow

  unfoldable pub base_id : Value N → String
  base_id s =
      let name = text_of "name" s in
      let base : String = elim (and_then (get "key" s) as_str) [
        | some k ↦ format (name ∷ "|" ∷ k ∷ [])
        | none ↦ name
      ] in
      format (base ∷ labels_suffix (get "labels" s) ∷ [])

  -- one round of the loop over the series
  unfoldable pub reduce_series : List String → Bool → Option F → Value N → Option (List (Metric F))
  reduce_series over global_overflow win s = elim (get "data" s) [
    | none ↦ some []
    | some d ↦
        series_metrics (text_of "kind" s) (text_of "unit" s)
          (is_contaminated over global_overflow s) (base_id s) win d
  ]
