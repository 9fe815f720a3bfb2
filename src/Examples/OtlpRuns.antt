-- ===== src/Examples/OtlpRuns.antt =====
-- A run with one series of each kind and two spans, over numbers that keep every integer.
use assayist.Common.{
  ℕ, ◌*◌, ◌/◌, ◌%◌, String, List, [], ◌∷◌, none, some, ◌≡◌, refl, arith, map, Option,
}
use assayist.Json.{Value, object, done, field, string, get, get_field, insert_field}
use assayist.Contract.{AssayRun, assemble}
use assayist.Otlp.Export.{export_metrics_at}
use assayist.Otlp.Spans.Parents.{IsLinked, spans-IsLinked}
use assayist.Otlp.Import.Series.{import_series}
use assayist.Otlp.RoundTrip.{NumberLaws, Head, series}
use assayist.Otlp.RoundTrip.Whole.{
  Series, counter, gauge, log2, explicit, to_json, Agrees, import_series-export,
}
use assayist.Examples.Fixed.{Fixed, whole, fixed_platform}
use assayist.Examples.ContractRuns.{identity, fingerprint}

no_remainder : (n : ℕ) → n * 1000000 % 1000000 ≡ 0
no_remainder n = omega arith

quotient : (n : ℕ) → n * 1000000 / 1000000 ≡ n
quotient n = omega arith

whole_part_whole : (n : ℕ) → fixed_platform.as_u64 (whole n) ≡ some n
whole_part_whole n = rw (no_remainder n, quotient n) refl

laws : NumberLaws ⦃p = fixed_platform⦄
laws = record {
  as_u64-of_u64 = λ n h. whole_part_whole n;
  as_i64-of_u64 = λ n h. whole_part_whole n;
}

abbrev head : String → Head
head name = record { name = name; unit = "1"; source = some "kvm"; key = none }

abbrev all_kinds : List (Series ⦃p = fixed_platform⦄)
all_kinds =
    counter (head "kvm.exit") 3 10
    ∷ gauge (head "hostmem.free") (whole 5) 20
    ∷ log2 (head "block.latency") (1 ∷ 0 ∷ 2 ∷ []) 3 none
    ∷ explicit (head "net.latency") (1 ∷ 1 ∷ []) (whole 10 ∷ []) 2 (some (whole 12))
    ∷ []

-- a series as the contract wants it, with its cardinality and its labels
abbrev declared : Value Fixed → Value Fixed
declared (object fs) = object (
    field "cardinality" (object (field "class" (string "singleton") done))
      (insert_field "labels" (object (field "vm_id" (string "01JA") done)) fs))
declared v = v

abbrev span : String → Option String → Value Fixed
span name none = object (field "name" (string name) done)
span name (some parent) = object (field "name" (string name) (field "parent" (string parent) done))

abbrev run : AssayRun Fixed
run = record {
  schema = "assayist/v1";
  run_id = "01";
  identity = identity;
  fingerprint = fingerprint;
  spans = span "boot" none ∷ span "kernel" (some "boot") ∷ [];
  series = map (λ s. declared (to_json s)) all_kinds;
  self_metrics = [];
  gate = object done;
  outcome = none;
  workload_report = none;
  grade = assayist.Contract.valid;
}

agree :
    (name kind : String) (payload : Value Fixed)
    → Agrees ⦃p = fixed_platform⦄
        (declared (series (head name) kind payload))
        (series (head name) kind payload)
unfolding get get_field insert_field
agree name kind payload = ((refl, (refl, (refl, (refl, (refl, tt))))), refl)

import_series-export_example :
    import_series ⦃p = fixed_platform⦄ (export_metrics_at ⦃p = fixed_platform⦄ run 99)
    ≡ map to_json all_kinds
import_series-export_example =
    import_series-export ⦃p = fixed_platform⦄ laws run all_kinds 99
      (agree _ _ _, (agree _ _ _, (agree _ _ _, (agree _ _ _, tt))))
      (
        (omega arith, omega arith),
        (
          (refl, omega arith),
          (
            ((omega arith, (omega arith, (omega arith, tt))), omega arith, tt),
            (((omega arith, (omega arith, tt)), (refl, tt), omega arith, refl), tt),
          ),
        ),
      )
      (refl, (refl, (refl, (refl, tt))))

spans-IsLinked_example : IsLinked ⦃p = fixed_platform⦄ run 1 (span "kernel" (some "boot"))
spans-IsLinked_example =
    spans-IsLinked ⦃p = fixed_platform⦄ run 1 (span "kernel" (some "boot")) refl
