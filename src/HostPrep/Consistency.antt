-- ===== src/HostPrep/Consistency.antt =====
-- The preparation of a host, against the grade of the runs on it.
use assayist.Common.{
  String, List, Option, none, Bool, true, false, ◌≡◌, ◌≢◌, ◌↔◌, refl, sym, Exec, ok, err, panic,
}
use assayist.Json.{Value}
use assayist.Platform.{Platform}
use assayist.Contract.{Identity, Fingerprint, Fragment, tuning_consistent, invalid, assemble}
use assayist.Contract.Grading.{assemble-IsAssembled}
use assayist.Effects.{continue, done_with, ◌>>=◌}
use assayist.Effects.Triples.{Ensures}
use mathlib.Core.Path.{subst}
use assayist.HostPrep.{TuningKnobs, HostPrep, Facts, Host, build_fingerprint, observe, prepare}
use assayist.HostPrep.Knobs.{to_value_iff}

module _ ⦃p : Platform⦄ where
  open p use {N, number_eq}

  -- a run with this fingerprint is graded invalid exactly when the knobs differ
  pub record IsJudged (requested readback : TuningKnobs) (fp : Fingerprint N) : Type 0 where
    pub invalid_iff :
        (run_id : String) (identity : Identity N) (gate : Value N) (fragments : List (Fragment N))
        (spans : List (Value N))
        → ((assemble run_id identity fp gate fragments spans).grade ≡ invalid)
          ↔ (readback ≢ requested)

  false_iff : (b : Bool) → (b ≡ false) ↔ ((b ≡ true) → ⊥)
  false_iff true = ((λ e. cc), (λ h. absurd (h refl)))
  false_iff false = ((λ e h. cc), (λ h. refl))

  build_fingerprint-IsJudged :
      (facts : Facts N) (requested readback : TuningKnobs) (tenancy : String)
      (pinning : Option (Value N))
      → IsJudged requested readback (build_fingerprint facts requested readback tenancy pinning)
  unfolding build_fingerprint
  build_fingerprint-IsJudged facts requested readback tenancy pinning =
      let fp = build_fingerprint facts requested readback tenancy pinning in
      let same = to_value_iff number_eq requested readback in
      let inconsistent = false_iff (tuning_consistent fp) in
      record {
        invalid_iff = λ run_id identity gate fragments spans.
            let graded =
              (assemble-IsAssembled run_id identity fp gate fragments spans).invalid_iff in
            (
              (λ h e. inconsistent.0 (graded.0 h) (same.1 (sym e))),
              (λ ne. graded.1 (inconsistent.1 (λ c. ne (sym (same.0 c))))),
            );
      }

  module _ {W : Type 0} (host : Host W N) (prep : HostPrep) (tenancy : String) where
    -- the calls behind a fingerprint that `prepare` returns, and what the grade says of them
    pub record IsPrepared (w : W) (fp : Fingerprint N) (end : W) : Type 0 where
      pub applied : W
      pub known : W
      pub facts : Facts N
      pub readback : TuningKnobs
      pub applied_ok : host.apply_tuning prep.knobs w ≡ (ok tt, applied)
      pub facts_ok : host.facts applied ≡ (ok facts, known)
      pub read_ok : host.read_tuning prep.knobs known ≡ (ok readback, end)
      pub judged : IsJudged prep.knobs readback fp

    -- A fingerprint that `prepare` returns comes from an application of the requested knobs, a reading
    -- of the facts behind it and a reading of the knobs behind that, each without an error; and any run
    -- that is assembled on it is graded invalid exactly when the knobs read back differ from the
    -- requested ones.
    pub prepare-IsPrepared :
        (w end : W) (fp : Fingerprint N)
        → prepare host prep tenancy w ≡ (ok fp, end)
        → IsPrepared w fp end
    unfolding prepare observe
    prepare-IsPrepared w end fp e =
        subst (Ensures (IsPrepared w) (λ _. Unit)) e
          (from_apply (host.apply_tuning prep.knobs w) refl)
      where
        from_read :
            (applied known : W) (facts : Facts N) (x : Exec TuningKnobs × W)
            → host.apply_tuning prep.knobs w ≡ (ok tt, applied)
            → host.facts applied ≡ (ok facts, known)
            → host.read_tuning prep.knobs known ≡ x
            → Ensures
                (IsPrepared w)
                (λ _. Unit)
                (continue x (λ readback.
                  done_with (build_fingerprint facts prep.knobs readback tenancy none)))
        from_read applied known facts (ok readback, w') ea ef er = record {
          applied = applied;
          known = known;
          facts = facts;
          readback = readback;
          applied_ok = ea;
          facts_ok = ef;
          read_ok = er;
          judged = build_fingerprint-IsJudged facts prep.knobs readback tenancy none;
        }
        from_read applied known facts (err d, w') ea ef er = tt
        from_read applied known facts (panic, w') ea ef er = tt

        from_facts :
            (applied : W) (x : Exec (Facts N) × W)
            → host.apply_tuning prep.knobs w ≡ (ok tt, applied)
            → host.facts applied ≡ x
            → Ensures
                (IsPrepared w)
                (λ _. Unit)
                (continue x (λ facts. host.read_tuning prep.knobs >>= λ readback.
                  done_with (build_fingerprint facts prep.knobs readback tenancy none)))
        from_facts applied (ok facts, known) ea ef =
            from_read applied known facts (host.read_tuning prep.knobs known) ea ef refl
        from_facts applied (err d, known) ea ef = tt
        from_facts applied (panic, known) ea ef = tt

        from_apply :
            (x : Exec (Unit {0}) × W)
            → host.apply_tuning prep.knobs w ≡ x
            → Ensures (IsPrepared w) (λ _. Unit) (continue x (λ _. observe host prep tenancy))
        from_apply (ok u, applied) ea = from_facts applied (host.facts applied) ea refl
        from_apply (err d, applied) ea = tt
        from_apply (panic, applied) ea = tt
