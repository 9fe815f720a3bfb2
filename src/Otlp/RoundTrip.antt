-- ===== src/Otlp/RoundTrip.antt =====
-- The way of a series through the export and the import of crates/otlp/src/lib.rs: what the kinds share.
pub mod Kinds
pub mod Whole
use assayist.Common.{
  ℕ, ◌^◌, ◌<◌, String, List, [], ◌∷◌, ◌++◌, Option, none, some, Bool, true, false, and_then,
  unwrap_or, map, map_option, ◌≡◌, refl, ap, ◌∙◌, All, arith,
}
use assayist.Text.Number.{show_ℕ, parse_uint}
use assayist.Text.Number.Decimal.{parse_uint-show_ℕ}
use assayist.Json.{
  Value, Fields, number, string, array, object, done, field, end, item, of_items, items, get,
  get_field, insert_field, bool,
}
use assayist.Platform.{Platform}
use assayist.Otlp.{
  value_i64, value_f64, str_u64, u64_str, str_array_u64, attr_val, attr_str, kv_str,
}
use assayist.Text.Number.Signed.{show_i64}
use assayist.Otlp.Export.{
  filter_map, push_some, series_to_metric, metric_body, metric_of, histogram_body, counter_body,
  gauge_body,
}
use assayist.Otlp.Import.Series.{metric_to_series, carry}

module _ ⦃p : Platform⦄ where
  open p use {F, N, as_u64, as_i64, as_f64, of_u64, of_f64, of_i64}

  -- what `serde_json` documents of its numbers
  pub record NumberLaws : Type 0 where
    pub as_u64-of_u64 : (n : ℕ) → n < 2 ^ 64 → as_u64 (of_u64 n) ≡ some n
    pub as_i64-of_u64 : (n : ℕ) → n < 2 ^ 63 → as_i64 (of_u64 n) ≡ some n

  -- the fields that each kind of series has
  pub record Head : Type 0 where
    pub name : String
    pub unit : String
    pub source : Option String
    pub key : Option String

  abbrev pub optional : String → Option String → Fields N → Fields N
  optional k none fs = fs
  optional k (some v) fs = field k (string v) fs

  abbrev pub series : Head → String → Value N → Value N
  series h kind payload = object (
      field "data" payload (
        optional "key" h.key (
          field "kind" (string kind) (
            field "name" (string h.name)
              (optional "source" h.source (field "unit" (string h.unit) done))))))

  pub str_u64-show : (n : ℕ) → n < 2 ^ 64 → str_u64 (some (string (show_ℕ n))) ≡ n
  unfolding str_u64
  str_u64-show n h = rw (parse_uint-show_ℕ (2 ^ 64) n h) refl

  -- the series that the import builds of a point with these attributes
  abbrev pub rebuilt : Head → String → Value N → List (Value N) → Value N
  rebuilt h kind payload attrs = object (
      insert_field "data" payload (
        carry "key" (attr_str (array (of_items attrs)) "assayist.key") (
          carry "source" (attr_str (array (of_items attrs)) "assayist.source") (
            insert_field "kind" (string kind)
              (insert_field "unit" (string h.unit) (insert_field "name" (string h.name) done))))))

  -- the parts of a trip that depend on the kind: the body that is written, and the series that is read of it
  pub record Kind (h : Head) (kind : String) (payload : Value N) (ts : ℕ) : Type 0 where
    pub body : List (Value N) → Fields N
    pub written : (attrs : List (Value N)) → metric_body kind payload attrs ts ≡ some (body attrs)
    pub read :
        (attrs : List (Value N))
        → metric_to_series (metric_of h.name h.unit (body attrs))
          ≡ some (rebuilt h kind payload attrs)
    pub named :
        (attrs : List (Value N))
        → get "name" (metric_of h.name h.unit (body attrs)) ≡ some (string h.name)

  -- a series is written as a metric of its name, which is read as that series
  pub record Trips (name : String) (s : Value N) (ts : ℕ) : Type 0 where
    pub metric : Value N
    pub written : series_to_metric s ts ≡ some metric
    pub read : metric_to_series metric ≡ some s
    pub named : get "name" metric ≡ some (string name)

  pub head_trip :
      (name unit : String) (source key : Option String) (kind : String) (payload : Value N) (ts : ℕ)
      → let h : Head = record { name = name; unit = unit; source = source; key = key } in
        Kind h kind payload ts → Trips name (series h kind payload) ts
  unfolding series_to_metric get get_field insert_field attr_val
  head_trip name unit none none kind payload ts k = record {
    metric = metric_of name unit (k.body ([]));
    written = rw (k.written ([])) refl;
    read = k.read ([]);
    named = k.named ([]);
  }
  head_trip name unit (some s) none kind payload ts k = record {
    metric = metric_of name unit (k.body (kv_str "assayist.source" s ∷ []));
    written = rw (k.written (kv_str "assayist.source" s ∷ [])) refl;
    read = k.read (kv_str "assayist.source" s ∷ []);
    named = k.named (kv_str "assayist.source" s ∷ []);
  }
  head_trip name unit none (some j) kind payload ts k = record {
    metric = metric_of name unit (k.body (kv_str "assayist.key" j ∷ []));
    written = rw (k.written (kv_str "assayist.key" j ∷ [])) refl;
    read = k.read (kv_str "assayist.key" j ∷ []);
    named = k.named (kv_str "assayist.key" j ∷ []);
  }
  head_trip name unit (some s) (some j) kind payload ts k = record {
    metric =
        metric_of name unit (k.body (kv_str "assayist.source" s ∷ kv_str "assayist.key" j ∷ []));
    written = rw (k.written (kv_str "assayist.source" s ∷ kv_str "assayist.key" j ∷ [])) refl;
    read = k.read (kv_str "assayist.source" s ∷ kv_str "assayist.key" j ∷ []);
    named = k.named (kv_str "assayist.source" s ∷ kv_str "assayist.key" j ∷ []);
  }
