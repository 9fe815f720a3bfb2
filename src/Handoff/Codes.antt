-- ===== src/Handoff/Codes.antt =====
-- The exit code of the gate, as the orchestrator passes it on.
use assayist.Common.{
  ℕ, String, List, Option, none, some, ◌≡◌, refl, arith, Exec, ok, if◌then◌else◌, ltb,
}
use assayist.Json.{Value}
use assayist.Platform.{Platform}
use assayist.Handoff.{Output, GateThresholds, gate_argv, read_output, run_gate, final_code}

-- the code that is passed on
abbrev pub passed_on : Option ℕ → ℕ
passed_on none = 0
passed_on (some n) = if ltb 255 n then 255 else n

module _ ⦃p : Platform⦄ (from_str : String → Exec (Value p.N)) where
  open p use {N}

  read_output-code : (out : Output) → final_code (read_output from_str out) ≡ passed_on out.code
  unfolding read_output
  read_output-code out = by_code out.code
    where
      by_code :
          (o : Option ℕ) → final_code (read_output from_str (record out { code = o })) ≡ passed_on o
      by_code none = refl
      by_code (some n) = ground arith

  -- If the gate can be launched, the orchestrator exits with the exit code of the gate, clamped to 255,
  -- and with 0 if a signal ended the gate.
  pub run_gate-code :
      (launch : String → List String → Exec Output) (bin mode : String) (a b : List String)
      (t : GateThresholds) {out : Output}
      → launch bin (gate_argv mode a b t) ≡ ok out
      → final_code (run_gate from_str launch bin mode a b t) ≡ passed_on out.code
  unfolding run_gate
  run_gate-code launch bin mode a b t {out = out} e = rw e (read_output-code out)
