-- ===== src/Handoff/Arguments.antt =====
-- How the gate's `parse_args` reads the arguments that `run_gate` passes.
use assayist.Common.{
  ℕ, ◌^◌, ◌<◌, String, List, [], ◌∷◌, ◌++◌, Option, none, some, Bool, true, false, ◌≡◌, refl, ap,
  sym, ◌∙◌, ok, err, All, append_assoc, append-nil, if◌then◌else◌,
}
use assayist.Text.Number.{show_ℕ}
use assayist.Text.Number.Decimal.{parse_uint-show_ℕ}
use assayist.Platform.{Platform}
use assayist.Gate.Run.{default_config}
use assayist.Gate.Command.{
  Args, default_args, parse_one, parse_from, parse_args, Files, run, dispatch, load,
}
use assayist.Gate.Command.Lists.{IsBare, feed_a, feed_b, start_a, start_b}
use assayist.Handoff.{GateThresholds, gate_argv, ignore_args}

module _ ⦃p : Platform⦄ where
  open p use {F, show_f64, parse_f64}

  take_mode :
      (s : Args) (v : String) (rest : List String)
      → parse_from s none false ("--mode" ∷ v ∷ rest)
        ≡ parse_from (record s { mode = v }) none false rest
  unfolding parse_from parse_one
  take_mode s v rest = refl

  take_p_threshold :
      (s : Args) (cur : Option String) (x : F) (rest : List String)
      → parse_f64 (show_f64 x) ≡ some x
      → parse_from s cur false ("--p-threshold" ∷ show_f64 x ∷ rest)
        ≡ parse_from (record s { cfg = record s.cfg { p_threshold = x } }) none false rest
  unfolding parse_from parse_one
  take_p_threshold s cur x rest e = rw e refl

  take_noise_threshold :
      (s : Args) (x : F) (rest : List String)
      → parse_f64 (show_f64 x) ≡ some x
      → parse_from s none false ("--noise-threshold" ∷ show_f64 x ∷ rest)
        ≡ parse_from (record s { cfg = record s.cfg { noise_threshold = x } }) none false rest
  unfolding parse_from parse_one
  take_noise_threshold s x rest e = rw e refl

  take_resamples :
      (s : Args) (n : ℕ) (rest : List String)
      → n < 2 ^ 64
      → parse_from s none false ("--resamples" ∷ show_ℕ n ∷ rest)
        ≡ parse_from (record s { cfg = record s.cfg { resamples = n } }) none false rest
  unfolding parse_from parse_one
  take_resamples s n rest h = rw (parse_uint-show_ℕ (2 ^ 64) n h) refl

  take_ignores :
      (s : Args) (igs rest : List String)
      → parse_from s none false (ignore_args igs ++ rest)
        ≡ parse_from
            (record s { cfg = record s.cfg { ignore = s.cfg.ignore ++ igs } })
            none
            false
            rest
  unfolding parse_from parse_one
  take_ignores s [] rest =
      ap (λ l. parse_from (record s { cfg = record s.cfg { ignore = l } }) none false rest)
        (sym (append-nil s.cfg.ignore))
  take_ignores s (ig ∷ igs) rest =
      take_ignores (record s { cfg = record s.cfg { ignore = s.cfg.ignore ++ ig ∷ [] } }) igs rest
      ∙ ap (λ l. parse_from (record s { cfg = record s.cfg { ignore = l } }) none false rest)
          (append_assoc s.cfg.ignore (ig ∷ []) igs)

  -- what the gate reads, with the defaults of the flags that the orchestrator does not pass
  abbrev pub passed : String → List String → List String → GateThresholds → Args
  passed mode a b t = record default_args {
    mode = mode;
    a = a;
    b = b;
    cfg = record default_config {
      p_threshold = t.p_threshold;
      noise_threshold = t.noise_threshold;
      resamples = t.resamples;
      ignore = t.ignore;
      allow_ungraded = t.allow_ungraded;
    };
  }

  take_allow :
      (s : Args) (allow : Bool)
      → s.cfg.allow_ungraded ≡ false
      → parse_from s none false (if allow then "--allow-ungraded" ∷ [] else [])
        ≡ ok (record s { cfg = record s.cfg { allow_ungraded = allow } })
  unfolding parse_from parse_one
  take_allow s true e = refl
  take_allow s false e = ap (λ b. ok (record s { cfg = record s.cfg { allow_ungraded = b } })) e

  -- The gate's `parse_args` reads the arguments that `run_gate` passes as the mode, the two groups and
  -- the thresholds that were meant, with the defaults for the rest, if no file name starts with `--`,
  -- the texts of the two thresholds read back as those thresholds, and the resamples fit in 64 bits.
  pub parse_args-gate_argv :
      (mode : String) (a b : List String) (t : GateThresholds)
      → All IsBare a
      → All IsBare b
      → parse_f64 (show_f64 t.p_threshold) ≡ some t.p_threshold
      → parse_f64 (show_f64 t.noise_threshold) ≡ some t.noise_threshold
      → t.resamples < 2 ^ 64
      → parse_args (gate_argv mode a b t) ≡ ok (passed mode a b t)
  unfolding parse_args gate_argv
  parse_args-gate_argv mode a b t ha hb hp hn hr =
      let s1 : Args = record default_args { mode = mode } in
      let s2 : Args = record s1 { a = a } in
      let s3 : Args = record s2 { b = b } in
      let s4 : Args = record s3 { cfg = record s3.cfg { p_threshold = t.p_threshold } } in
      let s5 : Args = record s4 { cfg = record s4.cfg { noise_threshold = t.noise_threshold } } in
      let s6 : Args = record s5 { cfg = record s5.cfg { resamples = t.resamples } } in
      let s7 : Args = record s6 { cfg = record s6.cfg { ignore = t.ignore } } in
      take_mode default_args mode _
      ∙ start_a s1 _ none
      ∙ feed_a s1 a _ ha
      ∙ start_b s2 _ (some "a")
      ∙ feed_b s2 b _ hb
      ∙ take_p_threshold s3 (some "b") t.p_threshold _ hp
      ∙ take_noise_threshold s4 t.noise_threshold _ hn
      ∙ take_resamples s5 t.resamples _ hr
      ∙ take_ignores s6 t.ignore _
      ∙ take_allow s7 t.allow_ungraded refl

  -- If no file name starts with `--`, the texts of the two thresholds read back as those thresholds,
  -- and the resamples fit in 64 bits, then the gate answers the arguments that `run_gate` passes for
  -- the mode `longitudinal_drift` with the error that it needs `--baseline` and `--candidate`, on any
  -- file system.
  pub run-longitudinal :
      (files : Files) (a b : List String) (t : GateThresholds)
      → All IsBare a
      → All IsBare b
      → parse_f64 (show_f64 t.p_threshold) ≡ some t.p_threshold
      → parse_f64 (show_f64 t.noise_threshold) ≡ some t.noise_threshold
      → t.resamples < 2 ^ 64
      → run files (gate_argv "longitudinal_drift" a b t)
        ≡ err "longitudinal_drift needs --baseline and --candidate"
  unfolding run dispatch load
  run-longitudinal files a b t ha hb hp hn hr =
      rw (parse_args-gate_argv "longitudinal_drift" a b t ha hb hp hn hr) refl
