-- ===== src/Gate/Command/Exits.antt =====
-- What the exit codes of `assayist-gate` tell CI.
use assayist.Common.{
  ℕ, String, List, [], ◌∷◌, Bool, true, false, ◌||◌, ◌≡◌, ◌⊎◌, inl, inr, refl, arith, if◌then◌else◌,
  Exec, ok, err, panic, ◌>>=◌, or_panic, is_empty,
}
use assayist.Text.{◌==◌, format}
use assayist.Json.{Value}
use assayist.Platform.{Platform}
use assayist.Gate.Run.{Config}
use assayist.Gate.Collect.{Group, collect}
use assayist.Gate.Report.{GateResult, Outcome}
use assayist.Gate.Ab.{AbState, verdict_of, ab_loop, ab_start, ab_result, ab}
use assayist.Gate.Drift.{DriftState, drift_loop, drift_start, drift_result, drift}
use assayist.Gate.Triad.{Costs, fold_outcome, fold_overhead, probe_costs, triad}
use assayist.Gate.Validate.{validate}
use assayist.Gate.Command.{
  Args, Files, load, compare_files, dispatch, deliver, run, exit_code, parse_args, map_err,
}

-- the verdicts that the gate writes
abbrev pub IsKnown : String → Type 0
IsKnown v = (v ≡ "pass") ⊎ ((v ≡ "fail") ⊎ (v ≡ "contaminated"))

module _ ⦃p : Platform⦄ where
  open p use {F, N}

  verdict_of-IsKnown : (s : AbState) → IsKnown (verdict_of s)
  verdict_of-IsKnown s = ground arith

  -- an answer with a verdict that is known
  unfoldable pub Answers : Exec GateResult → Type 0
  Answers (ok out) = IsKnown out.outcome.verdict
  Answers (err e) = Unit
  Answers panic = Unit

  bind-Answers :
      {A : Type 0} (m : Exec A) (f : A → Exec GateResult)
      → ((a : A) → Answers (f a))
      → Answers (m >>= f)
  unfolding Answers
  bind-Answers (ok a) f h = h a
  bind-Answers (err e) f h = tt
  bind-Answers panic f h = tt

  choose-Answers :
      (b : Bool) (x y : Exec GateResult) → Answers x → Answers y → Answers (if b then x else y)
  choose-Answers true x y hx hy = hx
  choose-Answers false x y hx hy = hy

  err-Answers : (e : String) → Answers (err e)
  unfolding Answers
  err-Answers e = tt

  ok-Answers : (out : GateResult) → IsKnown out.outcome.verdict → Answers (ok out)
  unfolding Answers
  ok-Answers out h = h

  ab-Answers : (a b : List (Value N)) (cfg : Config) → Answers (ab a b cfg)
  unfolding ab ab_result
  ab-Answers a b cfg = bind-Answers (validate a b cfg) _ λ notes.
      bind-Answers (or_panic (collect a)) _ λ ga. bind-Answers (or_panic (collect b)) _ λ gb.
        bind-Answers (or_panic (ab_loop cfg ga gb ga.samples ab_start)) _ λ s.
          choose-Answers (is_empty s.per_metric) _ _ (err-Answers _)
            (ok-Answers _ (verdict_of-IsKnown s))

  drift_verdict-IsKnown : (b : Bool) → IsKnown (if b then "fail" else "pass")
  drift_verdict-IsKnown b = ground arith

  drift_result-Answers : (gb gc : Group F) (s : DriftState) → Answers (drift_result gb gc s)
  unfolding drift_result
  drift_result-Answers gb gc s =
      choose-Answers (is_empty s.per_metric) _ _ (err-Answers _)
        (ok-Answers _ (drift_verdict-IsKnown s.any_drift))

  drift-Answers : (a b : List (Value N)) (cfg : Config) → Answers (drift a b cfg)
  unfolding drift
  drift-Answers a b cfg = bind-Answers (or_panic (collect a)) _ λ gb.
      bind-Answers (or_panic (collect b)) _
        λ gc. drift_result-Answers gb gc (drift_loop cfg gb gc gb.samples drift_start)

  fold_outcome-IsKnown :
      (costs : Costs) (o : Outcome) → IsKnown o.verdict → IsKnown (fold_outcome costs o).verdict
  fold_outcome-IsKnown costs o h = ground arith

  then-Answers :
      (m : Exec GateResult) (costs : Costs)
      → Answers m
      → Answers (m >>= λ base. ok (fold_overhead costs base))
  unfolding Answers
  then-Answers (ok base) costs h = fold_outcome-IsKnown costs base.outcome h
  then-Answers (err e) costs h = tt
  then-Answers panic costs h = tt

  triad-Answers : (a b : List (Value N)) (cfg : Config) → Answers (triad a b cfg)
  unfolding triad
  triad-Answers a b cfg = then-Answers (ab a b cfg) (probe_costs b) (ab-Answers a b cfg)

  module _ (files : Files) where
    compare_files-Answers :
        (mode_of : List (Value N) → List (Value N) → Config → Exec GateResult) (need : String)
        (cfg : Config) (first second : List String)
        → ((a b : List (Value N)) → Answers (mode_of a b cfg))
        → Answers (compare_files files mode_of need cfg first second)
    compare_files-Answers mode_of need cfg first second h = bind-Answers (load files first) _ λ x.
        bind-Answers (load files second) _
          λ y. choose-Answers (is_empty x || is_empty y) _ _ (err-Answers need) (h x y)

    pub dispatch-Answers : (args : Args) → Answers (dispatch files args)
    unfolding dispatch
    dispatch-Answers args =
        choose-Answers (args.mode == "ab_permutation") _ _
          (compare_files-Answers ab _ args.cfg args.a args.b λ a b. ab-Answers a b args.cfg)
          (choose-Answers (args.mode == "longitudinal_drift") _ _
            (compare_files-Answers drift _ args.cfg args.baseline args.candidate
              λ a b. drift-Answers a b args.cfg)
            (choose-Answers (args.mode == "subsystem_triad") _ _
              (compare_files-Answers triad _ args.cfg args.a args.b
                λ a b. triad-Answers a b args.cfg)
              (err-Answers _)))

    -- what an exit code says of the run that it ends
    abbrev pub Says : ℕ → Exec GateResult → Type 0
    Says code (ok out) =
        ((code ≡ 0) × (out.outcome.verdict ≡ "pass"))
        ⊎ (((code ≡ 2) × (out.outcome.verdict ≡ "fail"))
            ⊎ ((code ≡ 3) × (out.outcome.verdict ≡ "contaminated")))
    Says code (err e) = code ≡ 1
    Says code panic = code ≡ 101

    exit_code_lem : (m : Exec GateResult) → Answers m → Says (exit_code files m) m
    unfolding Answers
    exit_code_lem (ok out) h = elim h [
      | inl e ↦ inl (rw e refl, e)
      | inr r ↦ elim r [ inl e ↦ inr (inl (rw e refl, e)) | inr e ↦ inr (inr (rw e refl, e)) ]
    ]
    exit_code_lem (err e) h = refl
    exit_code_lem panic h = refl

    deliver-Answers :
        (out : String) (result : GateResult)
        → Answers (ok result)
        → Answers (deliver files out result)
    deliver-Answers out result h = bind-Answers (files.to_string_pretty result) _ λ text.
        bind-Answers
          (if out == "-"
            then files.println text
            else map_err (λ e. format ("writing " ∷ out ∷ ": " ∷ e ∷ [])) (files.write out text))
          _ λ written. h

    bind-deliver-Answers :
        (m : Exec GateResult) (out : String) → Answers m → Answers (m >>= deliver files out)
    unfolding Answers
    bind-deliver-Answers (ok result) out h = deliver-Answers out result h
    bind-deliver-Answers (err e) out h = tt
    bind-deliver-Answers panic out h = tt

    -- For any arguments and any file system, the exit code of `assayist-gate` tells what its run came
    -- to: 0 for a result whose verdict is pass, 2 for fail, 3 for contaminated, 1 for an error, 101 for
    -- a panic, and no result has another verdict.
    pub run-Says : (argv : List String) → Says (exit_code files (run files argv)) (run files argv)
    unfolding run
    run-Says argv = exit_code_lem (run files argv) (
        bind-Answers (parse_args argv) _
          λ args. bind-deliver-Answers (dispatch files args) args.out (dispatch-Answers args))
