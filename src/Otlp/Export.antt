-- ===== src/Otlp/Export.antt =====
-- The metrics, the resource and the documents of the OTLP export.
use assayist.Common.{
  ℕ, String, List, [], ◌∷◌, ◌++◌, Option, none, some, Bool, true, if◌then◌else◌, and_then,
  map_option, unwrap_or, map,
}
use assayist.Text
use assayist.Text.Number.{show_ℕ}
use assayist.Text.Number.Signed.{show_i64}
use assayist.Json.{
  Value, Fields, bool, number, string, array, object, done, field, end, item, of_items,
  insert_field, get, get_in, as_str, as_bool, as_array,
}
use assayist.Platform.{Platform}
use assayist.Contract.{AssayRun, grade_name}
use assayist.Otlp.{index, kv_str, kv_int, kv_bool, u64_str, value_i64, value_f64}
use assayist.Otlp.Spans.{spans}

abbrev pub push_some : {A : Type 0} → Option A → List A → List A
push_some none xs = xs
push_some (some x) xs = x ∷ xs

-- `filter_map`
abbrev pub filter_map : {A B : Type 0} → (A → Option B) → List A → List B
filter_map f [] = []
filter_map f (x ∷ xs) = push_some (f x) (filter_map f xs)

module _ ⦃p : Platform⦄ where
  open p use {F, N, of_u64, of_f64, decimal}

  abbrev pub str_of : String → Value N → Option String
  str_of k v = and_then (get k v) as_str

  abbrev pub push_str : String → Option String → List (Value N) → List (Value N)
  push_str key none attrs = attrs
  push_str key (some v) attrs = attrs ++ kv_str key v ∷ []

  abbrev pub push_bool : String → Option Bool → List (Value N) → List (Value N)
  push_bool key none attrs = attrs
  push_bool key (some v) attrs = attrs ++ kv_bool key v ∷ []

  -- the attributes of a data point
  abbrev pub series_attrs : Value N → List (Value N)
  series_attrs s =
      push_str "assayist.key" (str_of "key" s) (push_str "assayist.source" (str_of "source" s) [])

  abbrev pub temporality : Value N
  temporality = number (of_u64 2)

  -- `{ kind: { "aggregationTemporality": 2, "dataPoints": [dp] } }`
  abbrev pub cumulative : String → Value N → Fields N
  cumulative kind dp =
      field kind
        (object (
          field "aggregationTemporality" temporality
            (field "dataPoints" (array (item dp end)) done)))
        done

  abbrev pub buckets_of : Value N → List ℕ
  buckets_of datum =
      unwrap_or (map_option (filter_map value_i64) (and_then (get "buckets" datum) as_array)) []

  abbrev pub bounds_of : Value N → List F
  bounds_of datum =
      unwrap_or
        (map_option (filter_map value_f64) (and_then (get "explicit_bounds" datum) as_array)) []

  abbrev pub bucket_texts : Value N → Value N
  bucket_texts datum = array (of_items (map (λ b. string (show_i64 b)) (buckets_of datum)))

  abbrev pub insert_sum : Option F → Fields N → Fields N
  insert_sum none dp = dp
  insert_sum (some x) dp = insert_field "sum" (number (of_f64 x)) dp

  -- what both layouts of a data point begin with
  abbrev pub point_start : Value N → List (Value N) → ℕ → Fields N
  point_start datum attrs ts = insert_sum (and_then (get "sum" datum) value_f64) (
      insert_field "count" (u64_str (get "count" datum)) (
        insert_field "timeUnixNano" (string (show_ℕ ts))
          (insert_field "attributes" (array (of_items attrs)) done)))

  abbrev pub log2_point : Value N → List (Value N) → ℕ → Fields N
  log2_point datum attrs ts =
      insert_field "positive"
        (object
          (field "bucketCounts" (bucket_texts datum) (field "offset" (number (of_u64 0)) done)))
        (insert_field "zeroCount" (string "0")
          (insert_field "scale" (number (of_u64 0)) (point_start datum attrs ts)))

  abbrev pub explicit_point : Value N → List (Value N) → ℕ → Fields N
  explicit_point datum attrs ts = insert_field "bucketCounts" (bucket_texts datum) (
      insert_field "explicitBounds"
        (array (of_items (map (λ x. number (of_f64 x)) (bounds_of datum))))
        (point_start datum attrs ts))

  abbrev pub layout_of : Value N → String
  layout_of datum = unwrap_or (str_of "layout" datum) "log2"

  unfoldable pub histogram_body : Value N → List (Value N) → ℕ → Option (Fields N)
  histogram_body datum attrs ts =
      if Text.◌==◌ (layout_of datum) "log2"
      then some (cumulative "exponentialHistogram" (object (log2_point datum attrs ts)))
      else if Text.◌==◌ (layout_of datum) "explicit"
      then some (cumulative "histogram" (object (explicit_point datum attrs ts)))
      else none

  unfoldable pub counter_body : Value N → List (Value N) → Fields N
  counter_body datum attrs =
      field "sum"
        (object (
          field "aggregationTemporality" temporality (
            field "dataPoints"
              (array (
                item
                  (object (
                    field "asInt" (u64_str (get "value" datum)) (
                      field "attributes" (array (of_items attrs)) (
                        field "startTimeUnixNano" (u64_str (get "start_unix_nano" datum))
                          (field "timeUnixNano" (u64_str (get "start_unix_nano" datum)) done)))))
                  end))
              (field "isMonotonic" (bool true) done))))
        done

  unfoldable pub gauge_body : Value N → List (Value N) → Fields N
  gauge_body datum attrs =
      field "gauge"
        (object (
          field "dataPoints"
            (array (
              item
                (object (
                  field "asDouble"
                    (number
                      (of_f64 (unwrap_or (and_then (get "value" datum) value_f64) (decimal 0 0))))
                    (field "attributes" (array (of_items attrs))
                      (field "timeUnixNano" (u64_str (get "time_unix_nano" datum)) done))))
                end))
            done))
        done

  -- the `match` on the kind
  abbrev pub metric_body : String → Value N → List (Value N) → ℕ → Option (Fields N)
  metric_body kind datum attrs ts =
      if Text.◌==◌ kind "histogram"
      then histogram_body datum attrs ts
      else if Text.◌==◌ kind "counter"
      then some (counter_body datum attrs)
      else if Text.◌==◌ kind "gauge"
      then some (gauge_body datum attrs)
      else none

  abbrev pub insert_fields : Fields N → Fields N → Fields N
  insert_fields done metric = metric
  insert_fields (field k v fs) metric = insert_fields fs (insert_field k v metric)

  abbrev pub metric_of : String → String → Fields N → Value N
  metric_of name unit body = object (
      insert_fields body
        (insert_field "unit" (string unit) (insert_field "name" (string name) done)))

  unfoldable pub series_to_metric : Value N → ℕ → Option (Value N)
  series_to_metric s ts = and_then (str_of "name" s) λ name. and_then (str_of "kind" s) λ kind.
      and_then (get "data" s) λ datum.
        map_option (metric_of name (unwrap_or (str_of "unit" s) ""))
          (metric_body kind datum (series_attrs s) ts)

  abbrev pub series_metrics : AssayRun N → ℕ → List (Value N)
  series_metrics run ts = filter_map (λ s. series_to_metric s ts) run.series

  abbrev pub probe_attrs : Value N → List (Value N)
  probe_attrs pm =
      push_bool "assayist.probe.over_budget" (and_then (get "over_budget" pm) as_bool) (
        push_str "assayist.probe.attach_kind" (str_of "attach_kind" pm)
          (push_str "assayist.probe.id" (str_of "probe_id" pm) []))

  abbrev pub fraction_metric : Value N → List (Value N) → ℕ → Value N
  fraction_metric pm attrs ts = object (
      field "gauge"
        (object (
          field "dataPoints"
            (array (
              item
                (object (
                  field "asDouble"
                    (number (
                      of_f64 (
                        unwrap_or (and_then (get "steady_cpu_fraction" pm) value_f64)
                          (decimal 0 0))))
                    (field "attributes" (array (of_items attrs))
                      (field "timeUnixNano" (string (show_ℕ ts)) done))))
                end))
            done))
        (field "name" (string "assayist.probe.steady_cpu_fraction")
          (field "unit" (string "1") done)))

  abbrev pub run_time_metric : Value N → List (Value N) → ℕ → Value N
  run_time_metric pm attrs ts = object (
      field "name" (string "assayist.probe.run_time_ns") (
        field "sum"
          (object (
            field "aggregationTemporality" temporality (
              field "dataPoints"
                (array (
                  item
                    (object (
                      field "asInt" (u64_str (get "run_time_ns" pm)) (
                        field "attributes" (array (of_items attrs))
                          (field "timeUnixNano" (string (show_ℕ ts)) done))))
                    end))
                (field "isMonotonic" (bool true) done))))
          (field "unit" (string "ns") done)))

  abbrev pub probe_metrics : List (Value N) → ℕ → List (Value N)
  probe_metrics [] ts = []
  probe_metrics (pm ∷ pms) ts =
      fraction_metric pm (probe_attrs pm) ts
      ∷ run_time_metric pm (probe_attrs pm) ts
      ∷ probe_metrics pms ts

  unfoldable pub resource_attributes : AssayRun N → List (Value N)
  resource_attributes run =
      let f = run.fingerprint in
      let id = run.identity in
      push_str "assayist.gate.verdict" (and_then (get_in "verdict" run.outcome) as_str) (
        kv_str "host.name" f.hostname
        ∷ kv_str "os.version" f.kernel_version
        ∷ kv_str "os.description" f.os_release
        ∷ kv_str "host.cpu.model.name" f.cpu_model
        ∷ kv_int "assayist.host.cpu_count_logical" f.cpu_count_logical
        ∷ kv_int "assayist.host.cpu_count_physical" f.cpu_count_physical
        ∷ kv_bool "assayist.host.smt_enabled" f.smt_enabled
        ∷ kv_str "assayist.host.cpu_governor" f.cpu_governor
        ∷ kv_str "assayist.host.thp" f.thp_setting
        ∷ kv_int "assayist.host.memory_bytes" f.total_memory_bytes
        ∷ kv_bool "assayist.host.kvm" f.kvm_present
        ∷ kv_str "assayist.run.tenancy" f.tenancy
        ∷ kv_str "assayist.target_adapter" id.target_adapter
        ∷ kv_str "assayist.target_adapter_version" id.target_adapter_version
        ∷ kv_str "assayist.workload_driver" id.workload_driver
        ∷ kv_str "assayist.workload_driver_version" id.workload_driver_version
        ∷ kv_str "assayist.sut_git_sha" id.sut_git_sha
        ∷ kv_str "assayist.params_hash" id.params_hash
        ∷ kv_str "assayist.benchmark_def_sha" id.benchmark_def_sha
        ∷ kv_str "assayist.grade" (grade_name run.grade)
        ∷ [])

  -- a request with one resource and one scope
  abbrev pub request : String → String → String → AssayRun N → List (Value N) → Value N
  request resources scopes entries run body = object (
      field resources
        (array (
          item
            (object (
              field "resource"
                (object (field "attributes" (array (of_items (resource_attributes run))) done))
                (field scopes
                  (array (
                    item
                      (object (
                        insert_field entries (array (of_items body))
                          (field "scope" (object (field "name" (string "assayist") done)) done)))
                      end))
                  done)))
            end))
        done)

  unfoldable pub export_traces : AssayRun N → Value N
  export_traces run = request "resourceSpans" "scopeSpans" "spans" run (spans run)

  unfoldable pub export_metrics_at : AssayRun N → ℕ → Value N
  export_metrics_at run ts =
      request "resourceMetrics" "scopeMetrics" "metrics" run
        (series_metrics run ts ++ probe_metrics run.self_metrics ts)

  abbrev pub export_metrics : AssayRun N → Value N
  export_metrics run = export_metrics_at run 0

  unfoldable pub export_at : AssayRun N → ℕ → Value N
  export_at run ts = object (
      field "resourceMetrics" (index "resourceMetrics" (export_metrics_at run ts))
        (field "resourceSpans" (index "resourceSpans" (export_traces run)) done))

  abbrev pub export : AssayRun N → Value N
  export run = export_at run 0
