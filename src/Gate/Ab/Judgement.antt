-- ===== src/Gate/Ab/Judgement.antt =====
-- What the verdict and the details of `ab` mean.
use assayist.Common.{
  ℕ, String, List, [], ◌∷◌, ◌++◌, Option, none, some, false, ◌||◌, ◌≡◌, ◌⊎◌, refl, arith, ap, sym,
  ◌∙◌, if◌then◌else◌, ok, err, map_option, length, is_empty, ltb, any, All, All-append, map,
  any-snoc, append-nil, not-empty-snoc, is_empty-map, empty_of, Option-cases, Bool-cases, inl, inr,
}
use assayist.Json.{Value}
use assayist.BTreeMap.{BTreeMap, get}
use assayist.BTreeMap.Laws.{insert-not-empty}
use assayist.Platform.{Platform}
use assayist.Stats.Moments.{one_f}
use assayist.Stats.Permutation.{permutation_p}
use assayist.Stats.Permutation.Range.{permutation_p-fraction}
use assayist.Gate.Run.{Config}
use assayist.Gate.Collect.{Group, collect}
use assayist.Gate.Compare.{Detail, judge, status_of, is_ignored, flag_in, polarity_in}
use assayist.Gate.Report.{GateResult, ab_detail}
use assayist.Gate.Ab.{
  AbState, ab_start, has_status, record_detail, ab_loop, verdict_of, ab_result, ab,
  nothing_comparable, verdict_notes,
}
use assayist.Gate.Validate.{validate}

module _ ⦃p : Platform⦄ where
  open p use {F, N}

  -- The flags of the loop say what its details say.
  pub record Agrees (s : AbState) : Type 0 where
    pub regressed : s.any_regressed ≡ any (has_status "regressed") s.detail
    pub contaminated : s.any_contaminated ≡ any (has_status "contaminated") s.detail

  record_detail-Agrees :
      (cfg : Config) (d : Detail) (s : AbState) → Agrees s → Agrees (record_detail cfg d s)
  unfolding record_detail
  record_detail-Agrees cfg d s h = record {
    regressed = ap (λ b. b || has_status "regressed" d) h.regressed ∙ sym (any-snoc s.detail _ d);
    contaminated =
        ap (λ b. b || has_status "contaminated" d) h.contaminated ∙ sym (any-snoc s.detail _ d);
  }

  -- the ids of the metrics that both groups hold with two samples at least
  abbrev pub comparable : BTreeMap (List F) → BTreeMap (List F) → List String
  comparable bs [] = []
  comparable bs ((id, avals) ∷ rest) = elim (get id bs) [
    | none ↦ comparable bs rest
    | some bvals ↦
        if ltb (length avals) 2 || ltb (length bvals) 2
        then comparable bs rest
        else id ∷ comparable bs rest
  ]

  -- The status that the thresholds give to the numbers of a detail.
  abbrev pub IsJudged : Config → Group F → Group F → Detail → Type 0
  IsJudged cfg ga gb d =
      d.status
      ≡ status_of cfg (is_ignored cfg d.id) (flag_in d.id ga || flag_in d.id gb)
          (polarity_in d.id ga) d.rel_delta d.p_value d.cov

  judge-IsJudged :
      (cfg : Config) (ga gb : Group F) (id : String) (avals bvals : List F) {d : Detail}
      → judge cfg ga gb id avals bvals ≡ some d
      → IsJudged cfg ga gb d × (d.id ≡ id)
  unfolding judge
  judge-IsJudged cfg ga gb id avals bvals e = ground arith

  permutation_p_total :
      (a b : List F) (resamples seed : ℕ) → (x : F) × (permutation_p a b resamples seed ≡ some x)
  unfolding permutation_p
  permutation_p_total [] b resamples seed = (one_f, refl)
  permutation_p_total (x ∷ a) [] resamples seed = (one_f, ground arith)
  permutation_p_total (x ∷ a) (y ∷ b) resamples seed =
      let (draws, n, perms, e) =
        permutation_p-fraction (x ∷ a) (y ∷ b) resamples seed (omega arith) (omega arith) in
      (_, unfold permutation_p in e)

  map_option-total :
      {A B : Type 0} (f : A → B) (o : Option A) {x : A}
      → o ≡ some x
      → (y : B) × (map_option f o ≡ some y)
  map_option-total f none e = cc
  map_option-total f (some x) e = (f x, refl)

  judge_total :
      (cfg : Config) (ga gb : Group F) (id : String) (avals bvals : List F)
      → (d : Detail) × (judge cfg ga gb id avals bvals ≡ some d)
  unfolding judge
  judge_total cfg ga gb id avals bvals =
      let (x, e) = permutation_p_total avals bvals cfg.resamples cfg.seed in map_option-total _ _ e

  -- what the loop keeps
  record IsSound (cfg : Config) (ga gb : Group F) (s : AbState) : Type 0 where
    agrees : Agrees s
    judged : All (IsJudged cfg ga gb) s.detail
    empty_iff : is_empty s.per_metric ≡ is_empty s.detail

  abbrev pub ids_of : List Detail → List String
  ids_of ds = map (λ (d : Detail). d.id) ds

  record_detail-IsSound :
      (cfg : Config) (ga gb : Group F) (d : Detail) (s : AbState)
      → IsJudged cfg ga gb d
      → IsSound cfg ga gb s
      → IsSound cfg ga gb (record_detail cfg d s)
  unfolding record_detail
  record_detail-IsSound cfg ga gb d s j h = record {
    agrees = record_detail-Agrees cfg d s h.agrees;
    judged = All-append _ s.detail _ h.judged (j, tt);
    empty_iff = insert-not-empty d.id _ s.per_metric ∙ sym (not-empty-snoc s.detail d);
  }

  ids_of-record_detail :
      (cfg : Config) (d : Detail) (s : AbState) (ids : List String)
      → ids_of (record_detail cfg d s).detail ++ ids ≡ ids_of s.detail ++ d.id ∷ ids
  unfolding record_detail
  ids_of-record_detail cfg d s ids = go s.detail
    where
      go : (ds : List Detail) → ids_of (ds ++ d ∷ []) ++ ids ≡ ids_of ds ++ d.id ∷ ids
      go [] = refl
      go (x ∷ ds) = ap (λ l. x.id ∷ l) (go ds)

  ab_loop_lem :
      (cfg : Config) (ga gb : Group F) (samples : BTreeMap (List F)) (s : AbState)
      → IsSound cfg ga gb s
      → (s' : AbState) × (ab_loop cfg ga gb samples s ≡ some s')
        × IsSound cfg ga gb s'
        × (ids_of s'.detail ≡ ids_of s.detail ++ comparable gb.samples samples)
  unfolding ab_loop
  ab_loop_lem cfg ga gb [] s h = (s, refl, h, sym (append-nil _))
  ab_loop_lem cfg ga gb ((id, avals) ∷ rest) s h = elim (Option-cases (get id gb.samples)) [
    | inl e ↦ rw (e, ab_loop, comparable) (ab_loop_lem cfg ga gb rest s h)
    | inr (bvals, e) ↦ elim (Bool-cases (ltb (length avals) 2 || ltb (length bvals) 2)) [
      | inl few ↦ rw (e, ab_loop, comparable, few) (ab_loop_lem cfg ga gb rest s h)
      | inr many ↦
          let (d, ed) = judge_total cfg ga gb id avals bvals in
          let (j, same) = judge-IsJudged cfg ga gb id avals bvals ed in
          let (s', es, h', ids) =
            ab_loop_lem cfg ga gb rest (record_detail cfg d s)
              (record_detail-IsSound cfg ga gb d s j h) in
          rw (e, ab_loop, comparable, many, ed)
            (
              s',
              es,
              h',
              ids
                  ∙ ids_of-record_detail cfg d s _
                  ∙ ap (λ i. ids_of s.detail ++ i ∷ comparable gb.samples rest) same,
            )
    ]
  ]

  -- a result that reports the metrics `ids`, each judged, and whose verdict follows from them
  pub record IsVerdict (cfg : Config) (ga gb : Group F) (ids : List String) (out : GateResult)
      : Type 0 where
    pub details : List Detail
    pub reported : out.report.detail ≡ ab_detail details
    pub complete : ids_of details ≡ ids
    pub nonempty : is_empty ids ≡ false
    pub judged : All (IsJudged cfg ga gb) details
    pub verdict_is : out.outcome.verdict ≡ (
        if any (has_status "contaminated") details
        then "contaminated"
        else if any (has_status "regressed") details
        then "fail"
        else "pass")

  verdict_of_lem :
      (s : AbState)
      → Agrees s
      → verdict_of s ≡ (
          if any (has_status "contaminated") s.detail
          then "contaminated"
          else if any (has_status "regressed") s.detail
          then "fail"
          else "pass")
  verdict_of_lem s h = rw (sym h.regressed, sym h.contaminated) refl

  ok_result :
      (cfg : Config) (notes : List String) (ga gb : Group F) (s : AbState)
      → is_empty s.per_metric ≡ false
      → (out : GateResult) × (ab_result cfg notes ga gb s ≡ ok out)
        × (out.report.detail ≡ ab_detail s.detail)
        × (out.outcome.verdict ≡ verdict_of s)
  unfolding ab_result
  ok_result cfg notes ga gb s e =
      let out : GateResult = record {
        outcome = record {
          verdict = verdict_of s;
          per_metric = s.per_metric;
          notes = verdict_notes cfg s notes;
        };
        report = record { mode = "ab_permutation"; detail = ab_detail s.detail; overhead = none };
      } in
      (out, rw e refl, refl, refl)

  ab_result_lem :
      (cfg : Config) (notes : List String) (ga gb : Group F) (s : AbState) (ids : List String)
      → IsSound cfg ga gb s
      → ids_of s.detail ≡ ids
      → ((out : GateResult) × (ab_result cfg notes ga gb s ≡ ok out) × IsVerdict cfg ga gb ids out)
        ⊎ ((ab_result cfg notes ga gb s
              ≡ err (nothing_comparable (length ga.samples) (length gb.samples)))
            × (ids ≡ []))
  unfolding ab_result
  ab_result_lem cfg notes ga gb s ids h e = elim (Bool-cases (is_empty s.per_metric)) [
    | inl none_left ↦ inr (
      rw none_left refl,
      empty_of ids (ap is_empty (sym e) ∙ is_empty-map s.detail _ ∙ sym h.empty_iff ∙ none_left),
    )
    | inr some_left ↦
        let (out, e_ok, e_detail, e_verdict) = ok_result cfg notes ga gb s some_left in
        inl (
          out,
          e_ok,
          record {
            details = s.detail;
            reported = e_detail;
            complete = e;
            nonempty = ap is_empty (sym e) ∙ is_empty-map s.detail _ ∙ sym h.empty_iff ∙ some_left;
            judged = h.judged;
            verdict_is = e_verdict ∙ verdict_of_lem s h.agrees;
          },
        )
  ]

  -- When `validate` accepts two groups and `collect` gathers them without a panic, `ab` either returns
  -- a result or the error `no metric was comparable`, and the error is the one exactly when no id
  -- stands in both groups with two samples each. A result holds one detail for each such id, in order,
  -- and at least one; the status of each is the one that the ladder of thresholds gives to its own
  -- numbers; and the verdict is contaminated if a detail is, else fail if a detail regressed, else
  -- pass.
  pub ab-IsVerdict :
      (a b : List (Value N)) (cfg : Config) {notes : List String} {ga gb : Group F}
      → validate a b cfg ≡ ok notes
      → collect a ≡ some ga
      → collect b ≡ some gb
      → ((out : GateResult) × (ab a b cfg ≡ ok out)
          × IsVerdict cfg ga gb (comparable gb.samples ga.samples) out)
        ⊎ ((ab a b cfg ≡ err (nothing_comparable (length ga.samples) (length gb.samples)))
            × (comparable gb.samples ga.samples ≡ []))
  unfolding ab
  ab-IsVerdict a b cfg {notes = notes} {ga = ga} {gb = gb} hv ha hb =
      let sound : IsSound cfg ga gb ab_start = record {
        agrees = record { regressed = refl; contaminated = refl };
        judged = tt;
        empty_iff = refl;
      } in
      let (s, es, h, ids) = ab_loop_lem cfg ga gb ga.samples ab_start sound in
      rw (hv, ha, hb, es) (ab_result_lem cfg notes ga gb s _ h ids)
