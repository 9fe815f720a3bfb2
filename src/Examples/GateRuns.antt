-- ===== src/Examples/GateRuns.antt =====
-- Comparisons of small groups of runs.
use assayist.Common.{
  ℕ, String, List, [], ◌∷◌, ◌++◌, some, true, false, ◌≡◌, ◌⊎◌, ◌↔◌, ◌&&◌, not, if◌then◌else◌, any,
  refl, ok, err,
}
use assayist.Json.{Value, Fields, number, string, bool, array, object, done, field, end, item}
use assayist.Text.{mem}
use assayist.Json.{get, get_field}
use assayist.BTreeMap.{update, insert, get as map_get}
use assayist.Reduce.{reduce, reduce_all, window_ns, span_metrics}
use assayist.Reduce.Series.{
  reduce_series, series_metrics, base_id, is_contaminated, overbudget_sources, f,
}
use assayist.Reduce.Labels.{labels_suffix}
use assayist.Reduce.Workload.{workload_metrics}
use assayist.Reduce.Polarity.{lower_better, polarity_of}
use assayist.Text
use assayist.Text.{format}
use assayist.Stats.Rng.{below, next_u64}
use assayist.Stats.Shuffle.{shuffle, shuffle_down, swap}
use assayist.Stats.Moments.{mean, sum, variance, stddev, cov, within_cov}
use assayist.Stats.Permutation.{permutation_p, resample, mean_distance}
use assayist.Gate.Run.{Config, default_config, params_hash, grade_of, tenancy_of}
use assayist.Gate.Collect.{Group, collect, collect_from, add_metric}
use assayist.Gate.Validate.{validate, admit_all, compare_tenancies, dedup, sort_texts}
use assayist.Gate.Report.{GateResult, Overhead, ab_detail}
use assayist.Gate.Ab.{ab, ab_loop, ab_result, record_detail, nothing_comparable}
use assayist.Gate.Ab.Judgement.{ab-IsVerdict, comparable, IsVerdict}
use assayist.Gate.Collect.{empty_group}
use assayist.Gate.Collect.Samples.{collect-Holds, Collected, metrics_of}
use assayist.Gate.Validate.Admission.{validate_iff, IsComparable}
use assayist.Gate.Compare.{
  Detail, judge, rel_delta, is_ignored, status_of, is_significant, is_strong, is_noisy,
  bad_direction,
}
use assayist.Gate.Compare.Ladder.{status_of_regressed_iff}
use assayist.Gate.Drift.{drift, nothing_assessed}
use assayist.Gate.Drift.Band.{drift-IsDriftVerdict, IsDriftVerdict, assessments}
use assayist.Gate.Triad.{triad, add_cost, add_costs}
use assayist.Gate.Triad.Budget.{mem-over_budget, run_exceeds, run_over, triad-verdict}
use assayist.Examples.Fixed.{pos, Fixed, whole, fixed_platform}

-- the series of a run with one counter
abbrev pub series_of : String → ℕ → Fields Fixed
series_of name value =
    field "series"
      (array (
        item
          (object (
            field "data" (object (field "value" (number (whole value)) done)) (
              field "kind" (string "counter") (
                field "name" (string name)
                  (field "source" (string "s") (field "unit" (string "ns") done))))))
          end))
      done

abbrev pub counter_run : String → ℕ → Value Fixed
counter_run name value = object (series_of name value)

abbrev pub lenient : Config
lenient = record default_config { allow_ungraded = true; resamples = 3 }

abbrev pub before : List (Value Fixed)
before = counter_run "m" 100 ∷ counter_run "m" 101 ∷ []

abbrev pub after : List (Value Fixed)
after = counter_run "m" 150 ∷ counter_run "m" 151 ∷ []

-- the groups that they make
abbrev pub group_of : ℕ → ℕ → Group Fixed
group_of x y = record {
  samples = ("m|value", whole x ∷ whole y ∷ []) ∷ [];
  contaminated = ("m|value", false) ∷ [];
  polarity = ("m|value", lower_better) ∷ [];
  cells = ("m|value", "_" ∷ []) ∷ [];
}

abbrev admitted : String → String
admitted label = format (label ∷ " run admitted at grade 'invalid' (--allow-ungraded)" ∷ [])

abbrev pub admission_notes : List String
admission_notes = admitted "A" ∷ admitted "A" ∷ admitted "B" ∷ admitted "B" ∷ []

collects : (x y : ℕ) → collect (counter_run "m" x ∷ counter_run "m" y ∷ []) ≡ some (group_of x y)
unfolding collect collect_from add_metric params_hash reduce reduce_all window_ns reduce_series
    series_metrics base_id is_contaminated overbudget_sources workload_metrics span_metrics
    labels_suffix polarity_of f get get_field mem update insert map_get
collects x y = refl

validates : validate before after lenient ≡ ok admission_notes
unfolding validate admit_all compare_tenancies grade_of tenancy_of dedup sort_texts get get_field
validates = refl

ab-IsVerdict_example :
    ((out : GateResult) × (ab before after lenient ≡ ok out)
      × IsVerdict lenient
          (group_of 100 101)
          (group_of 150 151)
          (comparable (group_of 150 151).samples (group_of 100 101).samples)
          out)
    ⊎ ((ab before after lenient ≡ err (nothing_comparable 1 1))
        × (comparable (group_of 150 151).samples (group_of 100 101).samples ≡ []))
ab-IsVerdict_example =
    ab-IsVerdict before after lenient validates (collects 100 101) (collects 150 151)

drift-IsDriftVerdict_example :
    ((out : GateResult) × (drift before after lenient ≡ ok out)
      × IsDriftVerdict
          (assessments lenient (group_of 100 101) (group_of 150 151) (group_of 100 101).samples)
          out)
    ⊎ ((drift before after lenient ≡ err (nothing_assessed 1 1))
        × (assessments lenient (group_of 100 101) (group_of 150 151) (group_of 100 101).samples
            ≡ []))
drift-IsDriftVerdict_example =
    drift-IsDriftVerdict before after lenient (collects 100 101) (collects 150 151)

validate_iff_example :
    ((notes : List String) × (validate before after lenient ≡ ok notes))
    ↔ IsComparable lenient before after
validate_iff_example = validate_iff before after lenient

collect-Holds_example : Collected empty_group (metrics_of before) (collect before)
collect-Holds_example = collect-Holds before

status_of_regressed_iff_example :
    (status_of lenient false false lower_better (whole 1) (pos 1) (pos 0) ≡ "regressed") ↔ (
      (false ≡ false)
      × (false ≡ false)
      × (is_significant lenient (pos 1) ≡ true)
      × (is_strong lenient (whole 1) ≡ true)
      × (is_noisy lenient (pos 0) ≡ false)
      × (bad_direction lower_better (whole 1) ≡ some true))
status_of_regressed_iff_example =
    status_of_regressed_iff lenient false false lower_better (whole 1) (pos 1) (pos 0)

-- a run that also carries the cost of a probe
abbrev costly_run : ℕ → Value Fixed
costly_run value = object (
    field "self_metrics"
      (array (
        item (object (field "over_budget" (bool true) (field "probe_id" (string "kvm_exit") done)))
          end))
      (series_of "m" value))

abbrev costly : List (Value Fixed)
costly = costly_run 150 ∷ costly_run 151 ∷ []

abbrev costly_detail : Detail
costly_detail = record {
  id = "m|value";
  status = "stable";
  mean_a = pos 100500000;
  mean_b = pos 150500000;
  rel_delta = pos 497512;
  p_value = pos 500000;
  cov = pos 7035;
  n_a = 2;
  n_b = 2;
  cells = "_" ∷ [];
}

-- what `triad` answers on it
abbrev costly_result : GateResult
costly_result = record {
  outcome = record {
    verdict = "fail";
    per_metric =
        (
          "m|value",
          record { delta = pos 497512; p_value = pos 500000; significant = false; noisy = false },
        )
        ∷ [];
    notes = admission_notes ++ "subsystem overhead over budget; see report.overhead" ∷ [];
  };
  report = record {
    mode = "subsystem_triad";
    detail = ab_detail (costly_detail ∷ []);
    overhead = some (record {
      verdict = "fail";
      worst_steady_cpu_fraction = ("kvm_exit", pos 0) ∷ [];
      over_budget = "kvm_exit" ∷ [];
    });
  };
}

triads : triad before costly lenient ≡ ok costly_result
unfolding triad ab ab_loop ab_result judge record_detail status_of rel_delta is_ignored
    bad_direction permutation_p resample mean_distance shuffle shuffle_down swap below next_u64 mean
    sum variance stddev cov within_cov add_costs add_cost validate admit_all compare_tenancies
    grade_of tenancy_of dedup sort_texts collect collect_from add_metric params_hash reduce
    reduce_all window_ns reduce_series series_metrics base_id is_contaminated overbudget_sources
    workload_metrics span_metrics labels_suffix polarity_of f get get_field mem update insert
    map_get
triads = refl

triad-verdict_example :
    (base : GateResult) × (ab before costly lenient ≡ ok base)
    × (costly_result.report.detail ≡ base.report.detail)
    × (costly_result.outcome.verdict ≡ (
        if any run_over costly && not (Text.◌==◌ base.outcome.verdict "contaminated")
        then "fail"
        else base.outcome.verdict))
triad-verdict_example = triad-verdict before costly lenient triads

mem-over_budget_example :
    (o : Overhead) × (costly_result.report.overhead ≡ some o)
    × ((id : String) → mem id o.over_budget ≡ any (run_exceeds id) costly)
    × (o.verdict ≡ (if any run_over costly then "fail" else "pass"))
mem-over_budget_example = mem-over_budget before costly lenient triads
