-- ===== src/Examples/CommandRuns.antt =====
-- The command line of the gate.
use assayist.Common.{String, List, [], ◌∷◌, ◌≡◌, refl, ok}
use assayist.Gate.Command.{Files, default_args, parse_args, run, exit_code}
use assayist.Gate.Command.Exits.{run-Says, Says}
use assayist.Gate.Command.Lists.{parse_args-groups}
use assayist.Examples.Fixed.{fixed_platform}
use assayist.Examples.GateRuns.{counter_run}

-- a file system in which every file holds the same run
abbrev pub files : Files
files = record {
  read_to_string = λ path. ok path;
  from_str = λ text. ok (counter_run "m" 100);
  to_string_pretty = λ out. ok out.outcome.verdict;
  write = λ path text. ok tt;
  println = λ text. ok tt;
}

abbrev argv : List String
argv = "--allow-ungraded" ∷ "--a" ∷ "a1" ∷ "a2" ∷ "--b" ∷ "b1" ∷ "b2" ∷ "--resamples" ∷ "3" ∷ []

run-Says_example : Says files (exit_code files (run files argv)) (run files argv)
run-Says_example = run-Says files argv

parse_args-groups_example :
    parse_args ("--a" ∷ "a1" ∷ "a2" ∷ "--b" ∷ "b1" ∷ [])
    ≡ ok (record default_args { a = "a1" ∷ "a2" ∷ []; b = "b1" ∷ [] })
parse_args-groups_example =
    parse_args-groups ("a1" ∷ "a2" ∷ []) ("b1" ∷ []) (refl, (refl, tt)) (refl, tt)
