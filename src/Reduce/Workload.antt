-- ===== src/Reduce/Workload.antt =====
-- `flatten_numbers`, and the part of `reduce` of crates/gate/src/reduce.rs that reads the workload report.
use assayist.Common.{String, List, [], ◌∷◌, ◌++◌, none, some, false, if◌then◌else◌, map}
use assayist.Text.{format, ends_with, ◌==◌}
use assayist.Json.{Value, Fields, null, bool, number, string, array, object, done, field, get}
use assayist.Platform.{Platform}
use assayist.Reduce.Polarity.{Metric, polarity_of}

module _ ⦃p : Platform⦄ where
  open p use {F, N, as_f64}

  abbrev join_key : String → String → String
  join_key prefix k = if prefix == "" then k else format (prefix ∷ "." ∷ k ∷ [])

  -- `out` is the vector that the source pushes onto.
  unfoldable mutual
    pub flatten_numbers : String → Value N → List (String × F) → List (String × F)
    flatten_numbers prefix (object m) out = flatten_fields prefix m out
    flatten_numbers prefix (number n) out = elim (as_f64 n) [
      | none ↦ out
      | some x ↦ out ++ (prefix, x) ∷ []
    ]
    flatten_numbers prefix null out = out
    flatten_numbers prefix (bool b) out = out
    flatten_numbers prefix (string s) out = out
    flatten_numbers prefix (array vs) out = out

    pub flatten_fields : String → Fields N → List (String × F) → List (String × F)
    flatten_fields prefix done out = out
    flatten_fields prefix (field k v m) out =
        flatten_fields prefix m (flatten_numbers (join_key prefix k) v out)

  abbrev pub unit_of_key : String → String
  unit_of_key k =
      if ends_with k "_ns"
      then "ns"
      else if ends_with k "_us"
      then "us"
      else if ends_with k "_ms"
      then "ms"
      else ""

  abbrev pub workload_metric : String × F → Metric F
  workload_metric (k, n) =
      let id = format ("workload:" ∷ k ∷ []) in
      record { id = id; value = n; contaminated = false; polarity = polarity_of id (unit_of_key k) }

  unfoldable pub workload_metrics : Value N → List (Metric F)
  workload_metrics run = elim (get "workload_report" run) [
    | none ↦ []
    | some rep ↦ map workload_metric (flatten_numbers "" rep [])
  ]
