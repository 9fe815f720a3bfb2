-- ===== src/Otlp/RoundTrip/Kinds.antt =====
-- Each kind of series as the metric that the export writes, read back.
use assayist.Common.{
  ℕ, ◌^◌, ◌<◌, List, [], ◌∷◌, Option, none, some, true, map, ◌≡◌, refl, ap, All, arith,
}
use assayist.Text.Number.{show_ℕ}
use assayist.Json.{
  Value, Fields, number, string, array, object, done, field, end, item, of_items, items, get,
  get_field, insert_field, bool,
}
use assayist.Platform.{Platform}
use assayist.Otlp.{value_i64, value_f64, str_u64, u64_str}
use assayist.Text.Number.Signed.{show_i64}
use assayist.Otlp.Export.{filter_map, push_some, histogram_body, counter_body, gauge_body}
use assayist.Otlp.Import.Series.{metric_to_series}
use assayist.Otlp.RoundTrip.{NumberLaws, Head, str_u64-show, Kind}

module _ ⦃p : Platform⦄ where
  open p use {F, N, as_u64, as_i64, as_f64, of_u64, of_f64, of_i64}

  abbrev pub counter_payload : ℕ → ℕ → Value N
  counter_payload value start =
      object (
        field "start_unix_nano" (number (of_u64 start))
          (field "value" (number (of_u64 value)) done))

  -- the export of a number of a payload
  pub u64_str-of_u64 :
      (laws : NumberLaws) (n : ℕ)
      → n < 2 ^ 64
      → u64_str (some (number (of_u64 n))) ≡ string (show_ℕ n)
  u64_str-of_u64 laws n h = rw (laws.as_u64-of_u64 n h) refl

  abbrev pub counter_fields : ℕ → ℕ → List (Value N) → Fields N
  counter_fields value start attrs =
      field "sum"
        (object (
          field "aggregationTemporality" (number (of_u64 2)) (
            field "dataPoints"
              (array (
                item
                  (object (
                    field "asInt" (string (show_ℕ value)) (
                      field "attributes" (array (of_items attrs)) (
                        field "startTimeUnixNano" (string (show_ℕ start))
                          (field "timeUnixNano" (string (show_ℕ start)) done)))))
                  end))
              (field "isMonotonic" (bool true) done))))
        done

  pub counter-Kind :
      (laws : NumberLaws) (h : Head) (ts value start : ℕ)
      → value < 2 ^ 64
      → start < 2 ^ 64
      → Kind h "counter" (counter_payload value start) ts
  unfolding counter_body metric_to_series get get_field insert_field
  counter-Kind laws h ts value start hv hs = record {
    body = counter_fields value start;
    written = λ attrs. rw (laws.as_u64-of_u64 value hv, laws.as_u64-of_u64 start hs) refl;
    read = λ attrs. rw (str_u64-show value hv, str_u64-show start hs) refl;
    named = λ attrs. refl;
  }

  -- an `f64` that a JSON number can be
  abbrev pub IsFinite : F → Type 0
  IsFinite x = as_f64 (of_f64 x) ≡ some x

  abbrev pub gauge_payload : F → ℕ → Value N
  gauge_payload value time =
      object
        (field "time_unix_nano" (number (of_u64 time)) (field "value" (number (of_f64 value)) done))

  abbrev pub gauge_fields : F → ℕ → List (Value N) → Fields N
  gauge_fields value time attrs =
      field "gauge"
        (object (
          field "dataPoints"
            (array (
              item
                (object (
                  field "asDouble" (number (of_f64 value)) (
                    field "attributes" (array (of_items attrs))
                      (field "timeUnixNano" (string (show_ℕ time)) done))))
                end))
            done))
        done

  pub gauge-Kind :
      (laws : NumberLaws) (h : Head) (ts : ℕ) (value : F) (time : ℕ)
      → IsFinite value
      → time < 2 ^ 64
      → Kind h "gauge" (gauge_payload value time) ts
  unfolding gauge_body metric_to_series get get_field insert_field
  gauge-Kind laws h ts value time hv ht = record {
    body = gauge_fields value time;
    written = λ attrs. rw (hv, laws.as_u64-of_u64 time ht) refl;
    read = λ attrs. rw (hv, str_u64-show time ht) refl;
    named = λ attrs. refl;
  }

  abbrev pub IsBucket : ℕ → Type 0
  IsBucket n = n < 2 ^ 63

  abbrev pub u64_items : List ℕ → List (Value N)
  u64_items ns = map (λ n. number (of_u64 n)) ns

  abbrev pub text_items : List ℕ → List (Value N)
  text_items ns = map (λ n. string (show_ℕ n)) ns

  pub items-of_items : (l : List (Value N)) → items (of_items l) ≡ l
  items-of_items [] = refl
  items-of_items (v ∷ vs) = ap (λ r. v ∷ r) (items-of_items vs)

  pub bucket_read :
      (laws : NumberLaws) (bs : List ℕ) → All IsBucket bs → filter_map value_i64 (u64_items bs) ≡ bs
  bucket_read laws [] h = refl
  bucket_read laws (b ∷ bs) h =
      rw (laws.as_i64-of_u64 b h.0, push_some) (ap (λ r. b ∷ r) (bucket_read laws bs h.1))

  pub show_i64-small : (n : ℕ) → n < 2 ^ 63 → show_i64 n ≡ show_ℕ n
  show_i64-small n h = ground arith

  pub bucket_shown :
      (bs : List ℕ) → All IsBucket bs → map (λ b. string (show_i64 b)) bs ≡ text_items bs
  bucket_shown [] h = refl
  bucket_shown (b ∷ bs) h =
      rw (show_i64-small b h.0) (ap (λ r. string (show_ℕ b) ∷ r) (bucket_shown bs h.1))

  pub text_read : (bs : List ℕ) → All IsBucket bs → map (λ x. str_u64 (some x)) (text_items bs) ≡ bs
  text_read [] h = refl
  text_read (b ∷ bs) h =
      rw (str_u64-show b (omega (arith, h.0))) (ap (λ r. b ∷ r) (text_read bs h.1))

  abbrev pub with_sum : Option F → Fields N → Fields N
  with_sum none fs = fs
  with_sum (some x) fs = field "sum" (number (of_f64 x)) fs

  abbrev pub log2_payload : List ℕ → ℕ → Option F → Value N
  log2_payload buckets count sum = object (
      field "buckets" (array (of_items (u64_items buckets))) (
        field "count" (number (of_u64 count)) (field "layout" (string "log2") (with_sum sum done))))

  abbrev pub log2_fields : List ℕ → ℕ → Option F → ℕ → List (Value N) → Fields N
  log2_fields buckets count sum ts attrs =
      field "exponentialHistogram"
        (object (
          field "aggregationTemporality" (number (of_u64 2)) (
            field "dataPoints"
              (array (
                item
                  (object (
                    field "attributes" (array (of_items attrs)) (
                      field "count" (string (show_ℕ count)) (
                        field "positive"
                          (object (
                            field "bucketCounts" (array (of_items (text_items buckets)))
                              (field "offset" (number (of_u64 0)) done)))
                          (field "scale" (number (of_u64 0)) (
                            with_sum sum (
                              field "timeUnixNano" (string (show_ℕ ts))
                                (field "zeroCount" (string "0") done))))))))
                  end))
              done)))
        done

  abbrev pub SumIsFinite : Option F → Type 0
  SumIsFinite none = Unit
  SumIsFinite (some x) = IsFinite x

  pub log2-Kind :
      (laws : NumberLaws) (h : Head) (ts : ℕ) (buckets : List ℕ) (count : ℕ) (sum : Option F)
      → All IsBucket buckets
      → count < 2 ^ 64
      → SumIsFinite sum
      → Kind h "histogram" (log2_payload buckets count sum) ts
  unfolding histogram_body metric_to_series get get_field insert_field
  log2-Kind laws h ts buckets count none hb hc hs = record {
    body = log2_fields buckets count none ts;
    written = λ attrs.
        rw
          (
            items-of_items (u64_items buckets),
            bucket_read laws buckets hb,
            bucket_shown buckets hb,
            laws.as_u64-of_u64 count hc,
          )
          refl;
    read = λ attrs.
        rw (items-of_items (text_items buckets), text_read buckets hb, str_u64-show count hc) refl;
    named = λ attrs. refl;
  }
  log2-Kind laws h ts buckets count (some x) hb hc hs = record {
    body = log2_fields buckets count (some x) ts;
    written = λ attrs.
        rw
          (
            hs,
            items-of_items (u64_items buckets),
            bucket_read laws buckets hb,
            bucket_shown buckets hb,
            laws.as_u64-of_u64 count hc,
          )
          refl;
    read = λ attrs.
        rw (hs, items-of_items (text_items buckets), text_read buckets hb, str_u64-show count hc)
          refl;
    named = λ attrs. refl;
  }

  pub bounds_read :
      (xs : List F) → All IsFinite xs → filter_map value_f64 (map (λ x. number (of_f64 x)) xs) ≡ xs
  bounds_read [] h = refl
  bounds_read (x ∷ xs) h = rw (h.0, push_some) (ap (λ r. x ∷ r) (bounds_read xs h.1))

  abbrev pub float_items : List F → List (Value N)
  float_items xs = map (λ x. number (of_f64 x)) xs

  abbrev pub explicit_payload : List ℕ → List F → ℕ → Option F → Value N
  explicit_payload buckets bounds count sum = object (
      field "buckets" (array (of_items (u64_items buckets))) (
        field "count" (number (of_u64 count)) (
          field "explicit_bounds" (array (of_items (float_items bounds)))
            (field "layout" (string "explicit") (with_sum sum done)))))

  abbrev pub explicit_fields : List ℕ → List F → ℕ → Option F → ℕ → List (Value N) → Fields N
  explicit_fields buckets bounds count sum ts attrs =
      field "histogram"
        (object (
          field "aggregationTemporality" (number (of_u64 2)) (
            field "dataPoints"
              (array (
                item
                  (object (
                    field "attributes" (array (of_items attrs)) (
                      field "bucketCounts" (array (of_items (text_items buckets))) (
                        field "count" (string (show_ℕ count)) (
                          field "explicitBounds" (array (of_items (float_items bounds)))
                            (with_sum sum (field "timeUnixNano" (string (show_ℕ ts)) done)))))))
                  end))
              done)))
        done

  pub explicit-Kind :
      (laws : NumberLaws) (h : Head) (ts : ℕ) (buckets : List ℕ) (bounds : List F) (count : ℕ)
      (sum : Option F)
      → All IsBucket buckets
      → All IsFinite bounds
      → count < 2 ^ 64
      → SumIsFinite sum
      → Kind h "histogram" (explicit_payload buckets bounds count sum) ts
  unfolding histogram_body metric_to_series get get_field insert_field
  explicit-Kind laws h ts buckets bounds count none hb hx hc hs = record {
    body = explicit_fields buckets bounds count none ts;
    written = λ attrs.
        rw
          (
            items-of_items (u64_items buckets),
            bucket_read laws buckets hb,
            bucket_shown buckets hb,
            items-of_items (float_items bounds),
            bounds_read bounds hx,
            laws.as_u64-of_u64 count hc,
          )
          refl;
    read = λ attrs.
        rw (items-of_items (text_items buckets), text_read buckets hb, str_u64-show count hc) refl;
    named = λ attrs. refl;
  }
  explicit-Kind laws h ts buckets bounds count (some x) hb hx hc hs = record {
    body = explicit_fields buckets bounds count (some x) ts;
    written = λ attrs.
        rw
          (
            hs,
            items-of_items (u64_items buckets),
            bucket_read laws buckets hb,
            bucket_shown buckets hb,
            items-of_items (float_items bounds),
            bounds_read bounds hx,
            laws.as_u64-of_u64 count hc,
          )
          refl;
    read = λ attrs.
        rw (hs, items-of_items (text_items buckets), text_read buckets hb, str_u64-show count hc)
          refl;
    named = λ attrs. refl;
  }
