-- ===== src/Gate/Drift/Band.antt =====
-- The verdict of `drift`, and when a metric counts as drifted the wrong way.
use assayist.Common.{
  List, [], ◌∷◌, ◌++◌, none, some, false, ◌||◌, ◌≡◌, ◌⊎◌, inl, inr, refl, ap, sym, ◌∙◌,
  if◌then◌else◌, ok, err, any, any-snoc, append-nil, append_assoc, not-empty-snoc, empty_of,
  is_empty, length, Bool-cases, Option-cases,
}
use assayist.Json.{Value}
use assayist.BTreeMap.{BTreeMap, get}
use assayist.BTreeMap.Laws.{insert-not-empty}
use assayist.Platform.{Platform}
use assayist.Gate.Run.{Config}
use assayist.Gate.Collect.{Group, collect}
use assayist.Gate.Report.{DriftDetail, GateResult, drift_detail}
use assayist.Gate.Drift.{
  DriftState, drift_start, has_drift_status, record_drift, is_assessed, assess, drift_loop,
  drift_result, drift, nothing_assessed,
}

module _ ⦃p : Platform⦄ where
  open p use {F, N}

  -- one detail for each metric that both sides hold with two samples at least and no pattern ignores
  abbrev pub assessments : Config → Group F → Group F → BTreeMap (List F) → List DriftDetail
  assessments cfg gb gc [] = []
  assessments cfg gb gc ((id, base_vals) ∷ rest) = elim (get id gc.samples) [
    | none ↦ assessments cfg gb gc rest
    | some cand_vals ↦
        if is_assessed cfg id base_vals cand_vals
        then assess cfg gb id base_vals cand_vals ∷ assessments cfg gb gc rest
        else assessments cfg gb gc rest
  ]

  record IsTally (s : DriftState) : Type 0 where
    drifts : s.any_drift ≡ any (has_drift_status "drift_bad") s.detail
    empty_iff : is_empty s.per_metric ≡ is_empty s.detail

  record_drift-IsTally :
      (cfg : Config) (d : DriftDetail) (s : DriftState) → IsTally s → IsTally (record_drift cfg d s)
  unfolding record_drift
  record_drift-IsTally cfg d s h = record {
    drifts = ap (λ b. b || has_drift_status "drift_bad" d) h.drifts ∙ sym (any-snoc s.detail _ d);
    empty_iff = insert-not-empty d.id _ s.per_metric ∙ sym (not-empty-snoc s.detail d);
  }

  -- what the loop has done
  record IsRun (ds : List DriftDetail) (s s' : DriftState) : Type 0 where
    tally : IsTally s'
    details : s'.detail ≡ s.detail ++ ds

  record_then :
      (cfg : Config) (d : DriftDetail) (ds : List DriftDetail) (s s' : DriftState)
      → IsRun ds (record_drift cfg d s) s'
      → IsRun (d ∷ ds) s s'
  unfolding record_drift
  record_then cfg d ds s s' h = record {
    tally = h.tally;
    details = h.details ∙ append_assoc s.detail (d ∷ []) ds;
  }

  drift_loop_lem :
      (cfg : Config) (gb gc : Group F) (samples : BTreeMap (List F)) (s : DriftState)
      → IsTally s
      → IsRun (assessments cfg gb gc samples) s (drift_loop cfg gb gc samples s)
  unfolding drift_loop
  drift_loop_lem cfg gb gc [] s h = record { tally = h; details = sym (append-nil s.detail) }
  drift_loop_lem cfg gb gc ((id, base_vals) ∷ rest) s h = elim (Option-cases (get id gc.samples)) [
    | inl e ↦ rw (e, drift_loop, assessments) (drift_loop_lem cfg gb gc rest s h)
    | inr (cand_vals, e) ↦ elim (Bool-cases (is_assessed cfg id base_vals cand_vals)) [
      | inl in_band ↦
          let d : DriftDetail = assess cfg gb id base_vals cand_vals in
          rw (e, drift_loop, assessments, in_band)
            (record_then cfg d _ s _ (
              drift_loop_lem cfg gb gc rest (record_drift cfg d s)
                (record_drift-IsTally cfg d s h)))
      | inr out ↦ rw (e, drift_loop, assessments, out) (drift_loop_lem cfg gb gc rest s h)
    ]
  ]

  -- a result that reports the details `ds`
  pub record IsDriftVerdict (ds : List DriftDetail) (out : GateResult) : Type 0 where
    pub reported : out.report.detail ≡ drift_detail ds
    pub nonempty : is_empty ds ≡ false
    pub verdict_is :
        out.outcome.verdict ≡ (if any (has_drift_status "drift_bad") ds then "fail" else "pass")

  drift_result_lem :
      (gb gc : Group F) (s : DriftState) (ds : List DriftDetail)
      → IsTally s
      → s.detail ≡ ds
      → ((out : GateResult) × (drift_result gb gc s ≡ ok out) × IsDriftVerdict ds out)
        ⊎ ((drift_result gb gc s ≡ err (nothing_assessed (length gb.samples) (length gc.samples)))
            × (ds ≡ []))
  unfolding drift_result
  drift_result_lem gb gc s ds h e = elim (Bool-cases (is_empty s.per_metric)) [
    | inl nothing ↦
        inr (rw nothing refl, empty_of ds (ap is_empty (sym e) ∙ sym h.empty_iff ∙ nothing))
    | inr something ↦
        let out : GateResult = record {
          outcome = record {
            verdict = if s.any_drift then "fail" else "pass";
            per_metric = s.per_metric;
            notes = if s.any_drift then [] else "no bad-direction drift beyond band" ∷ [];
          };
          report = record {
            mode = "longitudinal_drift";
            detail = drift_detail s.detail;
            overhead = none;
          };
        } in
        inl (
          out,
          rw something refl,
          record {
            reported = ap drift_detail e;
            nonempty = ap is_empty (sym e) ∙ sym h.empty_iff ∙ something;
            verdict_is =
                ap (λ b. if b then "fail" else "pass")
                  (h.drifts ∙ ap (any (has_drift_status "drift_bad")) e);
          },
        )
  ]

  -- When `collect` gathers baseline and candidate without a panic, `drift` either returns a result or
  -- the error `no metric was comparable`, and the error comes with an empty list of assessments. A
  -- result reports one assessment for each id that both sides hold with two samples at least and that
  -- no pattern ignores, in order, and at least one; its verdict is fail if one of them is drift_bad,
  -- else pass.
  pub drift-IsDriftVerdict :
      (baseline candidate : List (Value N)) (cfg : Config) {gb gc : Group F}
      → collect baseline ≡ some gb
      → collect candidate ≡ some gc
      → ((out : GateResult) × (drift baseline candidate cfg ≡ ok out)
          × IsDriftVerdict (assessments cfg gb gc gb.samples) out)
        ⊎ ((drift baseline candidate cfg
              ≡ err (nothing_assessed (length gb.samples) (length gc.samples)))
            × (assessments cfg gb gc gb.samples ≡ []))
  unfolding drift
  drift-IsDriftVerdict baseline candidate cfg {gb = gb} {gc = gc} hb hc =
      let run =
        drift_loop_lem cfg gb gc gb.samples drift_start
          (record { drifts = refl; empty_iff = refl }) in
      rw (hb, hc) (drift_result_lem gb gc _ _ run.tally run.details)
