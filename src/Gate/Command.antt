-- ===== src/Gate/Command.antt =====
-- crates/gate/src/main.rs: the arguments of `assayist-gate`, its modes and its exit codes.
pub mod Exits
pub mod Lists
use assayist.Common.{
  ℕ, ◌^◌, String, List, [], ◌∷◌, ◌++◌, Option, none, some, Bool, true, false, not, ◌&&◌, ◌||◌,
  if◌then◌else◌, Exec, ok, err, panic, ◌>>=◌, or_err, is_empty,
}
use assayist.Text.{◌==◌, format, starts_with}
use assayist.Text.Number.{parse_uint}
use assayist.Json.{Value}
use assayist.Platform.{Platform}
use assayist.Gate.Run.{Config, default_config}
use assayist.Gate.Report.{GateResult}
use assayist.Gate.Ab.{ab}
use assayist.Gate.Drift.{drift}
use assayist.Gate.Triad.{triad}

-- `map_err`
abbrev pub map_err : {A : Type 0} → (String → String) → Exec A → Exec A
map_err f (ok a) = ok a
map_err f (err e) = err (f e)
map_err f panic = panic

module _ ⦃p : Platform⦄ where
  open p use {F, N, parse_f64}

  pub record Args : Type 0 where
    pub mode : String
    pub a : List String
    pub b : List String
    pub baseline : List String
    pub candidate : List String
    pub out : String
    pub cfg : Config

  abbrev pub default_args : Args
  default_args = record {
    mode = "ab_permutation";
    a = [];
    b = [];
    baseline = [];
    candidate = [];
    out = "-";
    cfg = default_config;
  }

  -- the flags that take no value: the arguments, and the list that bare arguments then feed
  abbrev pub plain_flag : String → Args → Option (Args × Option String)
  plain_flag arg s =
      if arg == "--a"
      then some (s, some "a")
      else if arg == "--b"
      then some (s, some "b")
      else if arg == "--baseline"
      then some (s, some "baseline")
      else if arg == "--candidate"
      then some (s, some "candidate")
      else if arg == "--allow-ungraded"
      then some (record s { cfg = record s.cfg { allow_ungraded = true } }, none)
      else if arg == "--strict-single-cell"
      then some (record s { cfg = record s.cfg { strict_single_cell = true } }, none)
      else none

  abbrev pub with_cfg : Args → Config → Args
  with_cfg s cfg = record s { cfg = cfg }

  -- `parse().map_err(|_| ..)?` of a value, and the field that it sets
  abbrev pub parsed : {A : Type 0} → Option A → String → (A → Args) → Exec Args
  parsed o e set_field = do v ← or_err o e; ok (set_field v)

  -- the flags that take a value `v`; `none` for a text that is no such flag
  abbrev pub value_flag : String → Args → Option (String → Exec Args)
  value_flag arg s =
      if arg == "--mode"
      then some (λ v. ok (record s { mode = v }))
      else if arg == "--out"
      then some (λ v. ok (record s { out = v }))
      else if arg == "--p-threshold"
      then some (λ v.
        parsed (parse_f64 v) "bad --p-threshold" λ x. with_cfg s (record s.cfg { p_threshold = x }))
      else if arg == "--noise-threshold"
      then some (λ v.
        parsed (parse_f64 v) "bad --noise-threshold"
          λ x. with_cfg s (record s.cfg { noise_threshold = x }))
      else if arg == "--min-effect"
      then some (λ v.
        parsed (parse_f64 v) "bad --min-effect" λ x. with_cfg s (record s.cfg { min_effect = x }))
      else if arg == "--resamples"
      then some (λ v.
        parsed (parse_uint (2 ^ 64) v) "bad --resamples"
          λ n. with_cfg s (record s.cfg { resamples = n }))
      else if arg == "--drift-k"
      then some
          (λ v. parsed (parse_f64 v) "bad --drift-k" λ x. with_cfg s (record s.cfg { drift_k = x }))
      else if arg == "--seed"
      then some (λ v.
        parsed (parse_uint (2 ^ 64) v) "bad --seed" λ n. with_cfg s (record s.cfg { seed = n }))
      else if arg == "--ignore"
      then some (λ v. ok (with_cfg s (record s.cfg { ignore = s.cfg.ignore ++ v ∷ [] })))
      else none

  -- an argument that is no flag of the match
  abbrev pub bare : String → Option String → Args → Exec Args
  bare arg cur s =
      if starts_with arg "--" then err (format ("unknown flag " ∷ arg ∷ [])) else elim cur [
        | none ↦ err (format ("stray argument " ∷ arg ∷ []))
        | some c ↦
            if c == "a"
            then ok (record s { a = s.a ++ arg ∷ [] })
            else if c == "b"
            then ok (record s { b = s.b ++ arg ∷ [] })
            else if c == "baseline"
            then ok (record s { baseline = s.baseline ++ arg ∷ [] })
            else if c == "candidate"
            then ok (record s { candidate = s.candidate ++ arg ∷ [] })
            else err (format ("stray argument " ∷ arg ∷ []))
      ]

  abbrev pub missing : String → String
  missing arg = format ("missing value after " ∷ arg ∷ [])

  -- where the loop stands behind one argument: `taken` when the argument took the next one as its value
  pub record Parsing : Type 0 where
    pub args : Args
    pub cur : Option String
    pub taken : Bool

  abbrev pub take_plain : Option (Args × Option String) → Exec Parsing → Exec Parsing
  take_plain none otherwise = otherwise
  take_plain (some (s, cur)) otherwise = ok (record { args = s; cur = cur; taken = false })

  abbrev pub take_value :
      Option (String → Exec Args) → Args → Option String → String → Option String → Exec Parsing
  take_value none s cur arg next = do
    s' ← bare arg cur s
    ok (record { args = s'; cur = cur; taken = false })
  take_value (some set_value) s cur arg next = do
    v ← or_err next (missing arg)
    s' ← set_value v
    ok (record { args = s'; cur = none; taken = true })

  -- the body of the loop, at `arg` with `next` behind it
  unfoldable pub parse_one : Args → Option String → String → Option String → Exec Parsing
  parse_one s cur arg next =
      take_plain (plain_flag arg s) (take_value (value_flag arg s) s cur arg next)

  abbrev pub head : List String → Option String
  head [] = none
  head (x ∷ l) = some x

  -- the `while` loop over the arguments; the flag skips a value that is taken
  unfoldable pub parse_from : Args → Option String → Bool → List String → Exec Args
  parse_from s cur taken [] = ok s
  parse_from s cur true (v ∷ rest) = parse_from s cur false rest
  parse_from s cur false (arg ∷ rest) =
      parse_one s cur arg (head rest) >>= (λ r. parse_from r.args r.cur r.taken rest)

  -- `parse_args`, on the arguments behind the program's name
  unfoldable pub parse_args : List String → Exec Args
  parse_args argv = parse_from default_args none false argv

  -- what `run` calls of the standard library and of `serde_json`: an error is the text of the error's `Display`
  pub record Files : Type 0 where
    pub read_to_string : String → Exec String
    pub from_str : String → Exec (Value N)
    pub to_string_pretty : GateResult → Exec String
    pub write : String → String → Exec (Unit {0})
    pub println : String → Exec (Unit {0})

  module _ (files : Files) where
    unfoldable pub load : List String → Exec (List (Value N))
    load [] = ok []
    load (path ∷ paths) = do
      text ← map_err (λ e. format ("reading " ∷ path ∷ ": " ∷ e ∷ [])) (files.read_to_string path)
      v ← map_err (λ e. format ("parsing " ∷ path ∷ ": " ∷ e ∷ [])) (files.from_str text)
      rest ← load paths
      ok (v ∷ rest)

    -- one arm of the match on the mode
    abbrev pub compare_files :
        (List (Value N) → List (Value N) → Config → Exec GateResult)
        → String
        → Config
        → List String
        → List String
        → Exec GateResult
    compare_files mode_of need cfg first second = do
      x ← load first
      y ← load second
      if is_empty x || is_empty y then err need else mode_of x y cfg

    unfoldable pub dispatch : Args → Exec GateResult
    dispatch args =
        if args.mode == "ab_permutation"
        then compare_files ab "ab_permutation needs --a and --b run files" args.cfg args.a args.b
        else if args.mode == "longitudinal_drift"
        then compare_files drift "longitudinal_drift needs --baseline and --candidate" args.cfg
            args.baseline args.candidate
        else if args.mode == "subsystem_triad"
        then compare_files triad "subsystem_triad needs --a and --b run files" args.cfg args.a
            args.b
        else err (format ("unknown mode '" ∷ args.mode ∷ "'" ∷ []))

    abbrev pub deliver : String → GateResult → Exec GateResult
    deliver out result = do
      text ← files.to_string_pretty result
      written ←
          if out == "-"
          then files.println text
          else map_err (λ e. format ("writing " ∷ out ∷ ": " ∷ e ∷ [])) (files.write out text)
      ok result

    unfoldable pub run : List String → Exec GateResult
    run argv = do args ← parse_args argv; result ← dispatch args; deliver args.out result

    -- the exit code of `main`; a panic exits with 101
    abbrev pub exit_code : Exec GateResult → ℕ
    exit_code (ok result) =
        if result.outcome.verdict == "pass"
        then 0
        else if result.outcome.verdict == "fail"
        then 2
        else if result.outcome.verdict == "contaminated"
        then 3
        else 0
    exit_code (err e) = 1
    exit_code panic = 101
