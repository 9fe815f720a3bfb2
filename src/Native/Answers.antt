-- ===== src/Native/Answers.antt =====
-- The commands that a call of crates/orchestrate/src/native.rs ran when it returned a value.
use mathlib.Core.Path.{subst}
use assayist.Common.{
  String, List, [], ◌∷◌, ◌++◌, Option, none, some, Bool, true, false, if◌then◌else◌, Exec, ok, err,
  panic, ◌≡◌, refl, sym, ap, ◌∙◌,
}
use assayist.Text.{◌==◌}
use assayist.Platform.{Platform}
use assayist.Effects.{Action, done_with, ◌>>◌}
use assayist.Effects.Chains.{same_value, bind-ok}
use assayist.Adapter.{Shell}
use assayist.Native.{run_if, run_only, on_machine, moved}

module _ {C W A : Type 0} where
  pub on_machine-ok :
      (act : Action W A) (s : C × W) {a : A} {s' : C × W}
      → on_machine act s ≡ (ok a, s')
      → (s'.0 ≡ s.0) × (act s.1 ≡ (ok a, s'.1))
  on_machine-ok act s {a = a} {s' = s'} h = by_result (act s.1) refl h
    where
      by_result :
          (x : Exec A × W)
          → act s.1 ≡ x
          → moved s.0 x ≡ (ok a, s')
          → (s'.0 ≡ s.0) × (act s.1 ≡ (ok a, s'.1))
      by_result (ok b, w) e h = (cc, cc)
      by_result (err d, w) e h = cc
      by_result (panic, w) e h = cc

module _ ⦃p : Platform⦄ where
  open p use {trim}

  -- an optional command, unless it is blank
  abbrev pub unless_blank : Option String → List String
  unless_blank none = []
  unless_blank (some cmd) = if trim cmd == "" then [] else cmd ∷ []

module _ ⦃p : Platform⦄ {W : Type 0} (sh : Shell W) where
  open p use {trim}

  -- the commands, one behind the other and each with success, take one machine to the other
  abbrev pub RanAll : List String → W → W → Type 0
  RanAll [] w w' = w' ≡ w
  RanAll (cmd ∷ cmds) w w' =
      (out : String) × (mid : W) × (sh cmd w ≡ (ok out, mid)) × RanAll cmds mid w'

  RanAll-append :
      (xs ys : List String) (w w' w'' : W)
      → RanAll xs w w'
      → RanAll ys w' w''
      → RanAll (xs ++ ys) w w''
  RanAll-append [] ys w w' w'' h q = subst (λ v. RanAll ys v w'') h q
  RanAll-append (x ∷ xs) ys w w' w'' (out, mid, e, h) q =
      (out, mid, e, RanAll-append xs ys mid w' w'' h q)

  -- the same, and the cells of the target are as before
  abbrev pub Runs : {C : Type 0} → List String → C × W → C × W → Type 0
  Runs cmds s s' = (s'.0 ≡ s.0) × RanAll cmds s.1 s'.1

  pub Runs-append :
      {C : Type 0} (xs ys : List String) (s s' s'' : C × W)
      → Runs xs s s'
      → Runs ys s' s''
      → Runs (xs ++ ys) s s''
  Runs-append xs ys s s' s'' h q = (q.0 ∙ h.0, RanAll-append xs ys s.1 s'.1 s''.1 h.1 q.1)

  pub Runs-none : {C : Type 0} {s s' : C × W} → s ≡ s' → Runs [] s s'
  Runs-none e = (ap (λ x. x.0) (sym e), ap (λ x. x.1) (sym e))

  pub run-Runs :
      {C : Type 0} (cmd : String) (s : C × W) {u : Unit {0}} {s' : C × W}
      → on_machine (run_only sh cmd) s ≡ (ok u, s')
      → Runs (cmd ∷ []) s s'
  run-Runs cmd s h =
      let (kept, ran) = on_machine-ok (sh cmd >> done_with tt) s h in
      let (out, mid, e, q) = bind-ok (sh cmd) (λ _. done_with tt) s.1 ran in
      (kept, (out, mid, e, sym (same_value q).1))

  pub run_if-Runs :
      {C : Type 0} (cmd : Option String) (s : C × W) {u : Unit {0}} {s' : C × W}
      → on_machine (run_if sh cmd) s ≡ (ok u, s')
      → Runs (unless_blank cmd) s s'
  run_if-Runs none s h = Runs-none (same_value h).1
  run_if-Runs {C = C} (some cmd) s {u = u} {s' = s'} h = by_test (trim cmd == "") h
    where
      by_test :
          (b : Bool)
          → on_machine (if b then done_with tt else sh cmd >> done_with tt) s ≡ (ok u, s')
          → Runs (if b then [] else cmd ∷ []) s s'
      by_test true h = Runs-none (same_value h).1
      by_test false h = run-Runs cmd s h
