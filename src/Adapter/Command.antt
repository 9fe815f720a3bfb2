-- ===== src/Adapter/Command.antt =====
-- crates/orchestrate/src/adapter.rs: the command adapter, which runs the shell templates of a definition.
use assayist.Common.{String, List, [], ◌∷◌, Option, none, some, if◌then◌else◌, Exec, ok}
use assayist.Text.{◌==◌, format}
use assayist.Json.{Value, Fields, null, string, object, done, field}
use assayist.BTreeMap.{BTreeMap, get, insert}
use assayist.Platform.{Platform}
use assayist.Gate.Command.{map_err}
use assayist.Effects.{Action, done_with, finish, ◌>>=◌, ◌>>◌}
use assayist.Capture.Plan.{render}
use assayist.Adapter.{Shell, Target, Workload}

pub record CommandSet : Type 0 where
  pub commands : BTreeMap String
  pub vars : BTreeMap String

module _ {W : Type 0} where
  abbrev pub run_template : CommandSet → Shell W → Option String → Action W (Option String)
  run_template c sh (some t) = do out ← sh (render t c.vars); done_with (some out)
  run_template c sh none = done_with none

  -- `CommandSet::exec`
  unfoldable pub exec : CommandSet → Shell W → String → Action W (Option String)
  exec c sh phase = run_template c sh (get phase c.commands)

  -- `.map(|_| ())`
  abbrev pub exec_only : CommandSet → Shell W → String → Action W (Unit {0})
  exec_only c sh phase = exec c sh phase >> done_with tt

module _ ⦃p : Platform⦄ where
  open p use {N, print, trim}

  abbrev pub non_empty : String → String → String
  non_empty s default = if s == "" then default else s

  abbrev pub trimmed_or : Exec (Option String) → String → String
  trimmed_or (ok (some s)) default = non_empty (trim s) default
  trimmed_or _ default = default

  -- the output of a phase, parsed unless it is blank or the phase has no template
  abbrev pub parse_output : {A : Type 0} → (String → Exec A) → String → A → Option String → Exec A
  parse_output parse what default none = ok default
  parse_output parse what default (some out) =
      if trim out == ""
      then ok default
      else map_err (λ e. format ("parsing " ∷ what ∷ " json: " ∷ e ∷ [])) (parse (trim out))

  abbrev pub value_to_plain : Value N → String
  value_to_plain (string s) = s
  value_to_plain null = ""
  value_to_plain other = print other

  abbrev pub insert_params : Fields N → BTreeMap String → BTreeMap String
  insert_params done m = m
  insert_params (field k v fs) m = insert_params fs (insert k (value_to_plain v) m)

  abbrev pub param_vars : Value N → BTreeMap String
  param_vars (object fs) = insert_params fs []
  param_vars _ = []

  -- `vars`
  unfoldable pub vars : Value N → String → BTreeMap String
  vars params sut_sha = insert "sut_sha" sut_sha (param_vars params)

  module _ {W : Type 0} where
    -- `version_or`
    unfoldable pub version_or : CommandSet → Shell W → String → W → String × W
    version_or c sh default w = let (r, w') = exec c sh "version" w in (trimmed_or r default, w')

    module _ (from_str : String → Exec (Value N))
        (list_from_str : String → Exec (List (Value N))) where
      abbrev pub command_spans : CommandSet → Shell W → Action W (List (Value N))
      command_spans c sh = do
        out ← exec c sh "spans"
        finish (parse_output list_from_str "spans" [] out)

      abbrev pub command_report : CommandSet → Shell W → Action W (Value N)
      command_report c sh = do
        out ← exec c sh "report"
        finish (parse_output from_str "report" null out)

      -- `CommandTarget`
      abbrev pub command_target : CommandSet → Shell W → Target W N
      command_target c sh = record {
        version = version_or c sh "command-adapter";
        provision = exec_only c sh "provision";
        start = exec_only c sh "start";
        reach_steady = exec_only c sh "reach_steady";
        spans = command_spans c sh;
        teardown = exec_only c sh "teardown";
        pinning_layout = λ w. none;
        resident_files = λ w. [];
        net_attribution = λ w. ([], w);
      }

      -- `CommandWorkload`
      abbrev pub command_workload : CommandSet → Shell W → Workload W N
      command_workload c sh = record {
        version = version_or c sh "command-adapter";
        start = exec_only c sh "start";
        stop = exec_only c sh "stop";
        report = command_report c sh;
      }
