-- ===== src/Otlp/Import.antt =====
-- The import of an OTLP document as a run.
pub mod Series
use assayist.Common.{
  ℕ, ◌%◌, ◌^◌, String, List, [], ◌∷◌, ◌++◌, Option, none, some, Bool, true, false, if◌then◌else◌,
  and_then, map_option, unwrap_or, map, Exec, ok,
}
use assayist.Text
use assayist.Text.Number.Signed.{parse_i64}
use assayist.Json
use assayist.Json.{
  Value, Fields, null, bool, number, string, array, object, done, field, insert_field, get, get_in,
  as_str, as_bool, as_array,
}
use assayist.BTreeMap.{BTreeMap}
use assayist.BTreeMap
use assayist.Platform.{Platform}
use assayist.Contract.{
  Fingerprint, Identity, AssayRun, Grade, invalid, schema_version, compute_grade,
}
use assayist.Otlp.{or_other, index, get_first, attr_str, attr_bool, attr_int, str_u64, value_f64}
use assayist.Otlp.Import.Series.{import_series}

abbrev pub note_name : Option String → Option String → BTreeMap String → BTreeMap String
note_name (some id) (some name) m = BTreeMap.insert id name m
note_name _ _ m = m

module _ {N : Type 0} where
  -- a list behind a key, or nothing
  abbrev pub list_of : String → Value N → List (Value N)
  list_of k v = unwrap_or (and_then (get k v) as_array) []

  abbrev pub scope_spans : List (Value N) → List (Value N)
  scope_spans [] = []
  scope_spans (s ∷ ss) = list_of "spans" s ++ scope_spans ss

  abbrev pub raw_spans : List (Value N) → List (Value N)
  raw_spans [] = []
  raw_spans (r ∷ rs) = scope_spans (list_of "scopeSpans" r) ++ raw_spans rs

  abbrev pub str_of : String → Value N → Option String
  str_of k v = and_then (get k v) as_str

  -- the names of the spans, by their ids
  abbrev pub names_by_id : List (Value N) → BTreeMap String → BTreeMap String
  names_by_id [] m = m
  names_by_id (s ∷ ss) m = names_by_id ss (note_name (str_of "spanId" s) (str_of "name" s) m)

  abbrev pub insert_str : String → Option String → Fields N → Fields N
  insert_str k none fs = fs
  insert_str k (some v) fs = insert_field k (string v) fs

  abbrev pub insert_attrs : Fields N → Fields N → Fields N
  insert_attrs done fs = fs
  insert_attrs (field k v attrs) fs = insert_field "attributes" (object (field k v attrs)) fs

  -- `o.remove(k)`
  unfoldable pub remove_field : String → Fields N → Fields N
  remove_field k done = done
  remove_field k (field j v fs) =
      let rest = field j v (remove_field k fs) in if Text.◌==◌ j k then fs else rest

  abbrev pub strip_carrier : Value N → Value N
  strip_carrier (object fs) = object (remove_field "_trace_id" fs)
  strip_carrier v = v

  abbrev pub first_trace : List (Value N) → Option String
  first_trace [] = none
  first_trace (s ∷ ss) = str_of "_trace_id" s

module _ ⦃p : Platform⦄ where
  open p use {N, of_u64, of_f64, of_i64}

  abbrev pub int_value : Option String → Value N
  int_value text = unwrap_or (map_option (λ n. number (of_i64 n)) (and_then text parse_i64)) null

  -- the value of an attribute, of the first kind that fits
  abbrev pub plain_of : Option (Value N) → Value N
  plain_of val =
      unwrap_or
        (or_other (map_option string (and_then (get_in "stringValue" val) as_str)) (
          or_other (map_option bool (and_then (get_in "boolValue" val) as_bool)) (
            or_other
              (map_option (λ x. number (of_f64 x)) (and_then (get_in "doubleValue" val) value_f64))
              (map_option (λ i. int_value (as_str i)) (get_in "intValue" val)))))
        null

  abbrev pub insert_plain : Option String → Option (Value N) → Fields N → Fields N
  insert_plain none val m = m
  insert_plain (some k) val m = insert_field k (plain_of val) m

  abbrev pub collect_plain : List (Value N) → Fields N → Fields N
  collect_plain [] m = m
  collect_plain (kv ∷ kvs) m = collect_plain kvs (insert_plain (str_of "key" kv) (get "value" kv) m)

  -- `kv_list_to_object`
  unfoldable pub kv_list_to_object : Option (Value N) → Fields N
  kv_list_to_object v = collect_plain (unwrap_or (and_then v as_array) []) done

  unfoldable pub import_span : BTreeMap String → Value N → Value N
  import_span names s = object (
      insert_str "_trace_id" (str_of "traceId" s) (
        insert_attrs (kv_list_to_object (get "attributes" s)) (
          insert_str "parent" (and_then (str_of "parentSpanId" s) (λ q. BTreeMap.get q names)) (
            insert_field "end_unix_nano" (number (of_u64 (str_u64 (get "endTimeUnixNano" s)))) (
              insert_field "start_unix_nano" (number (of_u64 (str_u64 (get "startTimeUnixNano" s))))
                (insert_field "name" (unwrap_or (get "name" s) null) done))))))

  unfoldable pub import_spans : Value N → List (Value N)
  import_spans doc =
      let raw = raw_spans (list_of "resourceSpans" doc) in
      map (import_span (names_by_id raw [])) raw

  abbrev pub resource_of : Value N → Value N
  resource_of doc =
      unwrap_or
        (map_option (λ r. index "attributes" (index "resource" r))
          (or_other (and_then (get "resourceSpans" doc) get_first)
            (and_then (get "resourceMetrics" doc) get_first)))
        (array Json.end)

  abbrev pub int_or_zero : Value N → String → ℕ → ℕ
  int_or_zero attrs key modulus = unwrap_or (attr_int attrs key) 0 % modulus

  unfoldable pub imported_fingerprint : Value N → Fingerprint N
  imported_fingerprint attrs = record {
    hostname = unwrap_or (attr_str attrs "host.name") "";
    kernel_version = unwrap_or (attr_str attrs "os.version") "";
    os_release = unwrap_or (attr_str attrs "os.description") "";
    cpu_model = unwrap_or (attr_str attrs "host.cpu.model.name") "";
    cpu_count_logical = int_or_zero attrs "assayist.host.cpu_count_logical" (2 ^ 32);
    cpu_count_physical = int_or_zero attrs "assayist.host.cpu_count_physical" (2 ^ 32);
    smt_enabled = unwrap_or (attr_bool attrs "assayist.host.smt_enabled") false;
    cpu_governor = unwrap_or (attr_str attrs "assayist.host.cpu_governor") "unknown";
    thp_setting = unwrap_or (attr_str attrs "assayist.host.thp") "unknown";
    total_memory_bytes = int_or_zero attrs "assayist.host.memory_bytes" (2 ^ 64);
    kvm_present = unwrap_or (attr_bool attrs "assayist.host.kvm") false;
    tenancy = unwrap_or (attr_str attrs "assayist.run.tenancy") "single_tenant";
    tuning_requested = object done;
    tuning_readback = object done;
    numa_topology = none;
    pinning_layout = none;
    mitigations = none;
    microcode_version = none;
    nested_virt = none;
  }

  unfoldable pub imported_identity : Value N → Identity N
  imported_identity attrs = record {
    target_adapter = unwrap_or (attr_str attrs "assayist.target_adapter") "unknown";
    target_adapter_version = unwrap_or (attr_str attrs "assayist.target_adapter_version") "unknown";
    workload_driver = unwrap_or (attr_str attrs "assayist.workload_driver") "unknown";
    workload_driver_version =
        unwrap_or (attr_str attrs "assayist.workload_driver_version") "unknown";
    sut_git_sha = unwrap_or (attr_str attrs "assayist.sut_git_sha") "unknown";
    params = object done;
    params_hash = unwrap_or (attr_str attrs "assayist.params_hash") "";
    benchmark_def_sha = unwrap_or (attr_str attrs "assayist.benchmark_def_sha") "";
    source = "imported";
  }

  -- the run before its grade is computed
  abbrev pub imported_run : Value N → AssayRun N
  imported_run doc =
      let attrs = resource_of doc in
      let carried = import_spans doc in
      record {
        schema = schema_version;
        run_id = unwrap_or (first_trace carried) "";
        identity = imported_identity attrs;
        fingerprint = imported_fingerprint attrs;
        spans = map strip_carrier carried;
        series = import_series doc;
        self_metrics = [];
        gate = object done;
        outcome = none;
        workload_report = none;
        grade = invalid;
      }

  -- `import`
  unfoldable pub import : Value N → Exec (AssayRun N)
  import doc = let run = imported_run doc in ok (record run { grade = compute_grade run false })
