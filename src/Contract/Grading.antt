-- ===== src/Contract/Grading.antt =====
-- What each grade says of a run that `assemble` of crates/contract/src/lib.rs made.
use text.Mathlib.TextEquality.{eq_iff}
use assayist.Common.{
  String, List, [], ◌∷◌, ◌++◌, Bool, true, false, not, ◌&&◌, ◌≡◌, ◌≢◌, ◌↔◌, ◌⊎◌, refl, ap, sym, ◌∙◌,
  arith, any, is_empty, append_assoc, append-nil,
}
use assayist.Json.{Value}
use assayist.Platform.{Platform}
use assayist.Contract.{
  reproducible, invalid, Identity, Fingerprint, AssayRun, Fragment, has_extended, merge,
  shows_probe, probes_ran_in, tuning_consistent, compute_grade, ungraded, assemble,
}

module _ {N : Type 0} where
  -- the parts of all the fragments, in order
  abbrev pub parts : (Fragment N → List (Value N)) → List (Fragment N) → List (Value N)
  parts part [] = []
  parts part (f ∷ fs) = part f ++ parts part fs

  merge_lem :
      (part : Fragment N → List (Value N)) (acc : List (Value N)) (fs : List (Fragment N))
      → merge part acc fs ≡ acc ++ parts part fs
  merge_lem part acc [] = sym (append-nil acc)
  merge_lem part acc (f ∷ fs) =
      merge_lem part (acc ++ part f) fs ∙ append_assoc acc (part f) (parts part fs)

  -- some fragment carries a cost record
  abbrev pub has_costs : Fragment N → Bool
  has_costs f = not (is_empty f.self_metrics)

  is_empty-append : (xs ys : List (Value N)) → is_empty (xs ++ ys) ≡ (is_empty xs && is_empty ys)
  is_empty-append [] ys = refl
  is_empty-append (x ∷ xs) ys = refl

  empty-costs :
      (fs : List (Fragment N)) → is_empty (parts (λ f. f.self_metrics) fs) ≡ not (any has_costs fs)
  empty-costs [] = refl
  empty-costs (f ∷ fs) =
      ground
        (arith, is_empty-append f.self_metrics (parts (λ f. f.self_metrics) fs), empty-costs fs)

module _ ⦃p : Platform⦄ where
  open p use {N}

  -- the record that `assemble` returns: what it merges, and what its grade asks
  pub record IsAssembled (identity : Identity N) (fingerprint : Fingerprint N)
      (fragments : List (Fragment N)) (run : AssayRun N) : Type 0 where
    pub series_are : run.series ≡ parts (λ f. f.series) fragments
    pub costs_are : run.self_metrics ≡ parts (λ f. f.self_metrics) fragments
    pub invalid_iff : (run.grade ≡ invalid) ↔ (tuning_consistent fingerprint ≡ false)
    pub reproducible_iff : (run.grade ≡ reproducible) ↔ (
        (tuning_consistent fingerprint ≡ true)
        × (identity.source ≢ "imported")
        × (has_extended fingerprint ≡ true)
        × ((any shows_probe fragments ≡ false) ⊎ (any has_costs fragments ≡ true)))

  compute_grade_invalid_iff :
      (run : AssayRun N) (probes_ran : Bool)
      → (compute_grade run probes_ran ≡ invalid) ↔ (tuning_consistent run.fingerprint ≡ false)
  unfolding compute_grade
  compute_grade_invalid_iff run probes_ran = ground arith

  compute_grade_reproducible_iff :
      (run : AssayRun N) (probes_ran : Bool)
      → (compute_grade run probes_ran ≡ reproducible) ↔ (
          (tuning_consistent run.fingerprint ≡ true)
          × (run.identity.source ≢ "imported")
          × (has_extended run.fingerprint ≡ true)
          × ((probes_ran ≡ false) ⊎ (is_empty run.self_metrics ≡ false)))
  unfolding compute_grade
  compute_grade_reproducible_iff run probes_ran =
      ground (arith, eq_iff run.identity.source "imported")

  reproducible_when :
      (run : AssayRun N) (probes_ran costs : Bool)
      → is_empty run.self_metrics ≡ not costs
      → (compute_grade run probes_ran ≡ reproducible) ↔ (
          (tuning_consistent run.fingerprint ≡ true)
          × (run.identity.source ≢ "imported")
          × (has_extended run.fingerprint ≡ true)
          × ((probes_ran ≡ false) ⊎ (costs ≡ true)))
  reproducible_when run probes_ran costs h =
      ground (arith, compute_grade_reproducible_iff run probes_ran)

  -- The run that `assemble` returns carries the series and the self metrics of all fragments, in order.
  -- It is graded invalid exactly when the requested tuning differs from the one read back; it is graded
  -- reproducible exactly when the tuning is consistent, the source is not `imported`, every extended
  -- field is there, and either no fragment shows that a probe ran or some fragment carries self
  -- metrics.
  pub assemble-IsAssembled :
      (run_id : String) (identity : Identity N) (fingerprint : Fingerprint N) (gate : Value N)
      (fragments : List (Fragment N)) (spans : List (Value N))
      → IsAssembled identity fingerprint fragments
          (assemble run_id identity fingerprint gate fragments spans)
  unfolding assemble ungraded
  assemble-IsAssembled run_id identity fingerprint gate fragments spans =
      let run = ungraded run_id identity fingerprint gate fragments spans in
      let merged = merge_lem (λ f. f.self_metrics) [] fragments in
      let empty : is_empty run.self_metrics ≡ not (any has_costs fragments) =
        ap is_empty merged ∙ empty-costs fragments in
      record {
        series_are = merge_lem (λ f. f.series) [] fragments;
        costs_are = merged;
        invalid_iff = compute_grade_invalid_iff run (probes_ran_in fragments);
        reproducible_iff =
            reproducible_when run (probes_ran_in fragments) (any has_costs fragments) empty;
      }
