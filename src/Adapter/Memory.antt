-- ===== src/Adapter/Memory.antt =====
-- crates/orchestrate/src/adapter.rs: the synthetic fragments of host memory and of snapshot residency.
use assayist.Common.{
  ℕ, String, List, [], ◌∷◌, Option, none, some, Bool, ◌&&◌, not, if◌then◌else◌, Exec, ok, panic,
  unwrap_or, and_then, length, ltb, get_elem?,
}
use assayist.Text.{◌==◌, starts_with}
use assayist.Text.Lines.{lines}
use assayist.Text.Words.{split_whitespace}
use assayist.Text.Number.Signed.{parse_i64, sub_i64}
use assayist.Json.{Value, Fields, number, string, object, done, field}
use assayist.Platform.{Platform}
use assayist.Contract.{Fragment}
use assayist.Effects.{Action}
use assayist.Adapter.{Shell}

abbrev pub find_line : String → List String → Option String
find_line name [] = none
find_line name (l ∷ ls) =
    let later = find_line name ls in if starts_with l name then some l else later

-- one field of /proc/meminfo, in KiB, as an i64
abbrev pub meminfo_field : String → String → ℕ
meminfo_field text name =
    unwrap_or
      (and_then (and_then (find_line name (lines text)) (λ l. get_elem? (split_whitespace l) 1))
        parse_i64)
      0

-- `MemAvailable` and `Cached`
unfoldable pub parse_meminfo : String → ℕ × ℕ
parse_meminfo text = (meminfo_field text "MemAvailable:", meminfo_field text "Cached:")

abbrev pub output_or_empty : Exec String → String
output_or_empty (ok out) = out
output_or_empty _ = ""

module _ {W : Type 0} where
  abbrev pub sampled : Exec String × W → Exec (ℕ × ℕ) × W
  sampled (panic, w) = (panic, w)
  sampled (r, w) = (ok (parse_meminfo (output_or_empty r)), w)

  unfoldable pub sample_meminfo : Shell W → Action W (ℕ × ℕ)
  sample_meminfo sh w = sampled (sh "cat /proc/meminfo" w)

module _ ⦃p : Platform⦄ where
  open p use {F, N, of_i64, of_u64, of_f64, of_ℕ, div, decimal}

  abbrev pub singleton : Value N
  singleton = object (field "class" (string "singleton") done)

  -- `json!({"value": value, "time_unix_nano": 0})`
  abbrev pub point : N → Value N
  point value =
      object (field "time_unix_nano" (number (of_u64 0)) (field "value" (number value) done))

  abbrev pub hostmem_gauge : String → ℕ → Value N
  hostmem_gauge name value = object (
      field "cardinality" singleton (
        field "data" (point (of_i64 value)) (
          field "kind" (string "gauge") (
            field "name" (string name)
              (field "source" (string "hostmem") (field "unit" (string "KiBy") done))))))

  unfoldable pub hostmem_fragment : ℕ × ℕ → ℕ × ℕ → Fragment N
  hostmem_fragment before after = record {
    series =
        hostmem_gauge "hostmem.mem_consumed_kib" (sub_i64 before.0 after.0)
        ∷ hostmem_gauge "hostmem.cached_delta_kib" (sub_i64 after.1 before.1)
        ∷ [];
    self_metrics = [];
    capture_meta =
        some (
          object
            (field "gadget" (string "hostmem") (field "source" (string "/proc/meminfo") done)));
  }

  -- a label, and the resident and the total pages of its file
  pub record Sample : Type 0 where
    pub label : String
    pub resident : ℕ
    pub total : ℕ

  abbrev pub card : ℕ → Bool → Value N
  card count key_present =
      if ltb 1 count && key_present
      then object (
          field "class" (string "bounded") (
            field "key_source" (string "guest_index")
              (field "max_keys" (number (of_u64 count)) done)))
      else singleton

  abbrev pub keyed : String → Fields N → Fields N
  keyed label rest = if label == "" then rest else field "key" (string label) rest

  abbrev pub resident_gauge : ℕ → String → String → N → Value N
  resident_gauge count label name value = object (
      field "cardinality" (card count (not (label == ""))) (
        field "data" (point value) (
          keyed label (
            field "kind" (string "gauge") (
              field "name" (string name)
                (field "source" (string "resident") (field "unit" (string "1") done)))))))

  abbrev pub fraction : ℕ → ℕ → F
  fraction resident total = if ltb 0 total then div (of_ℕ resident) (of_ℕ total) else decimal 0 0

  abbrev pub resident_series : ℕ → List Sample → List (Value N)
  resident_series count [] = []
  resident_series count (s ∷ ss) =
      resident_gauge count s.label "resident.snapshot_resident_pages" (of_u64 s.resident)
      ∷ resident_gauge count s.label "resident.snapshot_total_pages" (of_u64 s.total)
      ∷ resident_gauge count s.label "resident.snapshot_fraction"
          (of_f64 (fraction s.resident s.total))
      ∷ resident_series count ss

  -- `None` when nothing was measured
  unfoldable pub resident_fragment : List Sample → Option (Fragment N)
  resident_fragment [] = none
  resident_fragment (s ∷ samples) = some (record {
    series = resident_series (length (s ∷ samples)) (s ∷ samples);
    self_metrics = [];
    capture_meta =
        some (object (field "gadget" (string "resident") (field "source" (string "mincore") done)));
  })
