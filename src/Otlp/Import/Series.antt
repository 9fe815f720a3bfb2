-- ===== src/Otlp/Import/Series.antt =====
-- The metrics of an OTLP document as series.
use assayist.Common.{
  ℕ, String, List, [], ◌∷◌, ◌++◌, Option, none, some, if◌then◌else◌, and_then, map_option,
  unwrap_or, map,
}
use assayist.Text.{starts_with}
use assayist.Json
use assayist.Json.{
  Value, Fields, number, string, array, object, done, field, of_items, insert_field, get, get_in,
  as_str, as_array,
}
use assayist.Platform.{Platform}
use assayist.Otlp.Export.{push_some}
use assayist.Otlp.{get_first, attr_str, str_u64, str_array_u64, value_f64}

module _ {N : Type 0} where
  abbrev pub str_in : String → Value N → Option String
  str_in k v = and_then (get k v) as_str

  abbrev pub entries : String → Value N → List (Value N)
  entries k v = unwrap_or (and_then (get k v) as_array) []

  -- the first data point
  abbrev pub first_point : Value N → Option (Value N)
  first_point m = and_then (get "dataPoints" m) get_first

  abbrev pub dp_attr : Value N → String → Option String
  dp_attr dp key = and_then (get "attributes" dp) (λ attrs. attr_str attrs key)

  abbrev pub carry : String → Option String → Fields N → Fields N
  carry k none s = s
  carry k (some v) s = insert_field k (string v) s

  -- `carry_source_key`
  abbrev pub carry_source_key : Value N → Fields N → Fields N
  carry_source_key dp s =
      carry "key" (dp_attr dp "assayist.key") (carry "source" (dp_attr dp "assayist.source") s)

  -- the kind, the source and the key, and then the data
  abbrev pub filled : String → Value N → Fields N → Value N → Value N
  filled kind dp s payload =
      object
        (insert_field "data" payload (carry_source_key dp (insert_field "kind" (string kind) s)))

module _ ⦃p : Platform⦄ where
  open p use {F, N, of_u64, of_f64, decimal}

  abbrev pub set_sum : Option F → Fields N → Value N
  set_sum none payload = object payload
  set_sum (some x) payload = object (insert_field "sum" (number (of_f64 x)) payload)

  abbrev pub u64s : List ℕ → Value N
  u64s ns = array (of_items (map (λ n. number (of_u64 n)) ns))

  abbrev pub log2_data : Value N → Value N
  log2_data dp = set_sum (and_then (get "sum" dp) value_f64) (
      field "buckets" (u64s (str_array_u64 (get_in "bucketCounts" (get "positive" dp)))) (
        field "count" (number (of_u64 (str_u64 (get "count" dp))))
          (field "layout" (string "log2") done)))

  abbrev pub explicit_data : Value N → Value N
  explicit_data dp = set_sum (and_then (get "sum" dp) value_f64) (
      field "buckets" (u64s (str_array_u64 (get "bucketCounts" dp))) (
        field "count" (number (of_u64 (str_u64 (get "count" dp)))) (
          field "explicit_bounds" (unwrap_or (get "explicitBounds" dp) (array Json.end))
            (field "layout" (string "explicit") done))))

  abbrev pub counter_data : Value N → Value N
  counter_data dp = object (
      field "start_unix_nano" (number (of_u64 (str_u64 (get "timeUnixNano" dp))))
        (field "value" (number (of_u64 (str_u64 (get "asInt" dp)))) done))

  abbrev pub gauge_data : Value N → Value N
  gauge_data dp = object (
      field "time_unix_nano" (number (of_u64 (str_u64 (get "timeUnixNano" dp)))) (
        field "value"
          (number (of_f64 (unwrap_or (and_then (get "asDouble" dp) value_f64) (decimal 0 0))))
          done))

  -- a series of one kind of metric
  abbrev pub as_kind : String → (Value N → Value N) → Fields N → Value N → Option (Value N)
  as_kind kind payload s m = map_option (λ dp. filled kind dp s (payload dp)) (first_point m)

  -- the kinds are tried in this order
  abbrev pub kind_of : Value N → Fields N → Option (Value N)
  kind_of m s = elim (get "exponentialHistogram" m) [
    | some eh ↦ as_kind "histogram" log2_data s eh
    | none ↦ elim (get "histogram" m) [
      | some h ↦ as_kind "histogram" explicit_data s h
      | none ↦ elim (get "sum" m) [
        | some sum ↦ as_kind "counter" counter_data s sum
        | none ↦ and_then (get "gauge" m) (as_kind "gauge" gauge_data s)
      ]
    ]
  ]

  unfoldable pub metric_to_series : Value N → Option (Value N)
  metric_to_series m = and_then (str_in "name" m) λ name. kind_of m (
      insert_field "unit" (string (unwrap_or (str_in "unit" m) ""))
        (insert_field "name" (string name) done))

  -- the cost of a probe is no series
  abbrev pub series_of : Value N → Option (Value N)
  series_of m =
      if starts_with (unwrap_or (str_in "name" m) "") "assayist.probe."
      then none
      else metric_to_series m

  -- the metrics of one scope
  abbrev pub scope_series : List (Value N) → List (Value N)
  scope_series [] = []
  scope_series (m ∷ ms) = push_some (series_of m) (scope_series ms)

  abbrev pub scopes_series : List (Value N) → List (Value N)
  scopes_series [] = []
  scopes_series (sm ∷ sms) = scope_series (entries "metrics" sm) ++ scopes_series sms

  abbrev pub resources_series : List (Value N) → List (Value N)
  resources_series [] = []
  resources_series (r ∷ rs) = scopes_series (entries "scopeMetrics" r) ++ resources_series rs

  unfoldable pub import_series : Value N → List (Value N)
  import_series doc = resources_series (entries "resourceMetrics" doc)
