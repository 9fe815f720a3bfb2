-- ===== src/Otlp/RoundTrip/Whole.antt =====
-- What comes back of the series of a run that is exported and imported: name, unit, kind, source, key and data.
use assayist.Common.{
  ℕ, ◌^◌, ◌<◌, String, List, [], ◌∷◌, ◌++◌, Option, none, some, false, map, ◌≡◌, refl, ap, sym,
  append-nil, ◌∙◌, All,
}
use assayist.Json.{Value, get, get_field, insert_field}
use assayist.Platform.{Platform}
use assayist.Text.{starts_with}
use assayist.Contract.{AssayRun}
use assayist.Otlp.Export.{
  probe_metrics, series_metrics, export_metrics_at, filter_map, push_some, series_to_metric, str_of,
}
use assayist.Otlp.Import.Series.{scope_series, series_of, import_series}
use assayist.Otlp.RoundTrip.{NumberLaws, Head, series, Trips, head_trip}
use assayist.Otlp.RoundTrip.Kinds.{
  items-of_items, counter_payload, counter-Kind, IsFinite, gauge_payload, gauge-Kind, log2_payload,
  SumIsFinite, log2-Kind, explicit_payload, explicit-Kind,
}

module _ ⦃p : Platform⦄ where
  open p use {F, N, as_u64, as_i64, as_f64, of_u64, of_f64, of_i64}

  -- what the export carries of a series of the contract, which also has its `cardinality` and may have
  -- `labels`
  pub data Series : Type 0 where
    counter : Head → ℕ → ℕ → Series
    gauge : Head → F → ℕ → Series
    log2 : Head → List ℕ → ℕ → Option F → Series
    explicit : Head → List ℕ → List F → ℕ → Option F → Series

  abbrev pub head_of : Series → Head
  head_of (counter h value start) = h
  head_of (gauge h value time) = h
  head_of (log2 h buckets count sum) = h
  head_of (explicit h buckets bounds count sum) = h

  abbrev pub to_json : Series → Value N
  to_json (counter h value start) = series h "counter" (counter_payload value start)
  to_json (gauge h value time) = series h "gauge" (gauge_payload value time)
  to_json (log2 h buckets count sum) = series h "histogram" (log2_payload buckets count sum)
  to_json (explicit h buckets bounds count sum) =
      series h "histogram" (explicit_payload buckets bounds count sum)

  -- its numbers fit, and its name is not one that the export keeps for the costs of probes
  abbrev pub Fits : Series → Type 0
  Fits (counter h value start) = (value < 2 ^ 64) × (start < 2 ^ 64)
  Fits (gauge h value time) = IsFinite value × (time < 2 ^ 64)
  Fits (log2 h buckets count sum) =
      All (λ n. n < 2 ^ 63) buckets × (count < 2 ^ 64) × SumIsFinite sum
  Fits (explicit h buckets bounds count sum) =
      All (λ n. n < 2 ^ 63) buckets × All IsFinite bounds × (count < 2 ^ 64) × SumIsFinite sum

  pub series_trip :
      (laws : NumberLaws) (s : Series) (ts : ℕ) → Fits s → Trips ((head_of s).name) (to_json s) ts
  series_trip laws (counter h value start) ts f =
      head_trip h.name h.unit h.source h.key "counter" _ ts
        (counter-Kind laws h ts value start f.0 f.1)
  series_trip laws (gauge h value time) ts f =
      head_trip h.name h.unit h.source h.key "gauge" _ ts (gauge-Kind laws h ts value time f.0 f.1)
  series_trip laws (log2 h buckets count sum) ts f =
      head_trip h.name h.unit h.source h.key "histogram" _ ts
        (log2-Kind laws h ts buckets count sum f.0 f.1 f.2)
  series_trip laws (explicit h buckets bounds count sum) ts f =
      head_trip h.name h.unit h.source h.key "histogram" _ ts
        (explicit-Kind laws h ts buckets bounds count sum f.0 f.1 f.2 f.3)

  -- the name of no series is kept for the costs of probes
  abbrev pub IsNamed : Series → Type 0
  IsNamed s = starts_with ((head_of s).name) "assayist.probe." ≡ false

  push_some-append :
      (o : Option (Value N)) (xs ys : List (Value N))
      → push_some o xs ++ ys ≡ push_some o (xs ++ ys)
  push_some-append none xs ys = refl
  push_some-append (some x) xs ys = refl

  scope_series-append :
      (xs ys : List (Value N)) → scope_series (xs ++ ys) ≡ scope_series xs ++ scope_series ys
  scope_series-append [] ys = refl
  scope_series-append (m ∷ xs) ys =
      ap (push_some (series_of m)) (scope_series-append xs ys)
      ∙ sym (push_some-append (series_of m) (scope_series xs) (scope_series ys))

  scope_series-probes : (pms : List (Value N)) (ts : ℕ) → scope_series (probe_metrics pms ts) ≡ []
  unfolding get get_field
  scope_series-probes [] ts = refl
  scope_series-probes (pm ∷ pms) ts = scope_series-probes pms ts

  series_of-trip :
      {name : String} {s : Value N} {ts : ℕ} (t : Trips name s ts)
      → starts_with name "assayist.probe." ≡ false
      → series_of t.metric ≡ some s
  series_of-trip t h = rw (t.named, h, t.read) refl

  -- two values hold the same string, if any, under these keys, and the same data
  abbrev pub Agrees : Value N → Value N → Type 0
  Agrees v v' =
      All (λ k. str_of k v ≡ str_of k v') ("name" ∷ "unit" ∷ "kind" ∷ "source" ∷ "key" ∷ [])
      × (get "data" v ≡ get "data" v')

  -- the values are series of a run, one for each of the list, with any fields beside those that agree
  abbrev pub Describe : List (Value N) → List Series → Type 0
  Describe [] [] = Unit
  Describe (v ∷ vs) (s ∷ l) = Agrees v (to_json s) × Describe vs l
  Describe _ _ = ⊥

  series_to_metric-Agrees :
      (v v' : Value N) (ts : ℕ) → Agrees v v' → series_to_metric v ts ≡ series_to_metric v' ts
  unfolding series_to_metric
  series_to_metric-Agrees v v' ts ((name, (unit, (kind, (source, (key, _))))), datum) =
      rw (name, unit, kind, source, key, datum) refl

  exported :
      (laws : NumberLaws) (vs : List (Value N)) (l : List Series) (ts : ℕ)
      → Describe vs l
      → All Fits l
      → All IsNamed l
      → scope_series (filter_map (λ v. series_to_metric v ts) vs) ≡ map to_json l
  exported laws [] [] ts d f n = refl
  exported laws [] (s ∷ l) ts d f n = elim d [ ]
  exported laws (v ∷ vs) [] ts d f n = elim d [ ]
  exported laws (v ∷ vs) (s ∷ l) ts d f n =
      let t = series_trip laws s ts f.0 in
      rw
        (
          series_to_metric-Agrees v (to_json s) ts d.0,
          t.written,
          push_some,
          series_of-trip t n.0,
          push_some,
        )
        (ap (λ r. to_json s ∷ r) (exported laws vs l ts d.1 f.1 n.1))

  -- If the JSON numbers keep a u64 and an i64, and each series of a run, whatever else it holds, agrees
  -- in name, unit, kind, source, key and data with a counter, gauge, log2 or explicit histogram of the
  -- contract, whose bucket counts are below 2 ^ 63, whose other integers are below 2 ^ 64, whose floats
  -- are finite and whose name does not start with `assayist.probe.`, then the import of the exported
  -- metrics gives back those counters, gauges and histograms, in order, with these six fields and no
  -- other, whatever the rest of the run and the time of the export are. So `cardinality` and `labels`
  -- do not come back.
  pub import_series-export :
      (laws : NumberLaws) (run : AssayRun N) (l : List Series) (ts : ℕ)
      → Describe run.series l
      → All Fits l
      → All IsNamed l
      → import_series (export_metrics_at run ts) ≡ map to_json l
  unfolding import_series export_metrics_at get get_field insert_field
  import_series-export laws run l ts d f n =
      append-nil _
      ∙ append-nil _
      ∙ ap scope_series
          (items-of_items (series_metrics run ts ++ probe_metrics run.self_metrics ts))
      ∙ scope_series-append (series_metrics run ts) (probe_metrics run.self_metrics ts)
      ∙ ap (λ r. scope_series (series_metrics run ts) ++ r)
          (scope_series-probes run.self_metrics ts)
      ∙ append-nil _
      ∙ exported laws run.series l ts d f n
