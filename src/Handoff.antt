-- ===== src/Handoff.antt =====
-- crates/orchestrate/src/gate.rs: the call of the gate as a subprocess, and what its exit code says.
pub mod Codes
pub mod Arguments
use assayist.Common.{
  ℕ, String, List, [], ◌∷◌, ◌++◌, Option, none, some, Bool, true, false, if◌then◌else◌, Exec, ok,
  err, panic, ◌>>=◌, and_then, unwrap_or, ltb, ◌==◌,
}
use assayist.Text.{format}
use assayist.Text.Number.{show_ℕ}
use assayist.Json.{Value, null, get, get_in, as_str}
use assayist.Platform.{Platform}
use assayist.Gate.Command.{map_err}

-- an exit status: `code()` is `None` when a signal ended the process
pub record Output : Type 0 where
  pub code : Option ℕ
  pub stdout : String
  pub stderr : String

-- an exit code, or the -1 that stands for none
pub data ExitCode : Type 0 where
  exited : ℕ → ExitCode
  signalled : ExitCode

abbrev pub code_of : Option ℕ → ExitCode
code_of none = signalled
code_of (some n) = exited n

abbrev pub is_error : ExitCode → Bool
is_error (exited n) = n == 1
is_error signalled = false

-- the verdict of a code, where the document names none
abbrev pub code_verdict : ExitCode → String
code_verdict (exited n) =
    if n == 0
    then "pass"
    else if n == 2
    then "fail"
    else if n == 3
    then "contaminated"
    else "unknown"
code_verdict signalled = "unknown"

-- `exit_code.clamp(0, 255)` in crates/orchestrate/src/main.rs, where -1 becomes 0
abbrev pub clamp_code : ExitCode → ℕ
clamp_code (exited n) = if ltb 255 n then 255 else n
clamp_code signalled = 0

module _ ⦃p : Platform⦄ where
  open p use {F, N, show_f64, trim}

  pub record GateThresholds : Type 0 where
    pub p_threshold : F
    pub noise_threshold : F
    pub resamples : ℕ
    pub ignore : List String
    pub allow_ungraded : Bool

  pub record GateOutput : Type 0 where
    pub outcome : Value N
    pub verdict : String
    pub exit_code : ExitCode

  abbrev pub ignore_args : List String → List String
  ignore_args [] = []
  ignore_args (ig ∷ igs) = "--ignore" ∷ ig ∷ ignore_args igs

  -- the arguments of the subprocess
  unfoldable pub gate_argv : String → List String → List String → GateThresholds → List String
  gate_argv mode a b t =
      "--mode"
      ∷ mode
      ∷ "--a"
      ∷ (a
          ++ ("--b"
              ∷ (b
                  ++ ("--p-threshold"
                      ∷ show_f64 t.p_threshold
                      ∷ "--noise-threshold"
                      ∷ show_f64 t.noise_threshold
                      ∷ "--resamples"
                      ∷ show_ℕ t.resamples
                      ∷ (ignore_args t.ignore
                          ++ (if t.allow_ungraded then "--allow-ungraded" ∷ [] else []))))))

  -- the verdict of a document, if it names one
  abbrev pub named_verdict : Value N → Option String
  named_verdict outcome = and_then (get_in "verdict" (get "outcome" outcome)) as_str

  -- `from_str(..).unwrap_or(Value::Null)`
  abbrev pub or_null : Exec (Value N) → Value N
  or_null (ok v) = v
  or_null _ = null

  module _ (from_str : String → Exec (Value N)) where
    -- what follows the subprocess
    unfoldable pub read_output : Output → Exec GateOutput
    read_output out =
        let code = code_of out.code in
        let outcome = or_null (from_str (trim out.stdout)) in
        if is_error code
        then err (format ("gate error: " ∷ trim out.stderr ∷ []))
        else ok (record {
          outcome = outcome;
          verdict = unwrap_or (named_verdict outcome) (code_verdict code);
          exit_code = code;
        })

    -- `run_gate`, for the launcher `launch` of a subprocess
    unfoldable pub run_gate :
        (String → List String → Exec Output)
        → String
        → String
        → List String
        → List String
        → GateThresholds
        → Exec GateOutput
    run_gate launch bin mode a b t = do
      out ←
          map_err (λ e. format ("launching gate `" ∷ bin ∷ "`: " ∷ e ∷ []))
            (launch bin (gate_argv mode a b t))
      read_output out

  -- the exit code that the orchestrator's `run` makes of the call
  abbrev pub final_code : Exec GateOutput → ℕ
  final_code (ok out) = clamp_code out.exit_code
  final_code (err e) = 1
  final_code panic = 101
