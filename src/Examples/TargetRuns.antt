-- ===== src/Examples/TargetRuns.antt =====
-- Two instances of a firecracker target on four CPUs each.
use assayist.Common.{ℕ, String, [], ◌∷◌, some, true, ◌≡◌, refl, arith}
use assayist.Text.Number.{show_fuel, parse_uint, parse_digits}
use assayist.Text.Lines.{replace_from, chars}
use assayist.Json.{string}
use assayist.BTreeMap.{BTreeMap, get, insert}
use assayist.Capture.Plan.{render}
use assayist.Def.{BenchmarkDef}
use assayist.Native.{cfg}
use assayist.Native.Firecracker.{firecracker_target}
use assayist.Orchestrate.{
  Selected, firecracker, build_target, instances_of, vcpu_of, select_target, instance_vars,
}
use assayist.Orchestrate.Pinning.{IsFannedOut, build_target-IsFannedOut}
use assayist.Examples.Fixed.{fixed_platform}
use assayist.Examples.DefRuns.{definition}

abbrev two_of_four : BTreeMap String
two_of_four = ("instances", "2") ∷ ("vcpu", "4") ∷ []

two : instances_of ⦃p = fixed_platform⦄ definition two_of_four ≡ 2
unfolding instances_of get parse_uint parse_digits
two = refl

four : vcpu_of ⦃p = fixed_platform⦄ definition two_of_four ≡ 4
unfolding vcpu_of get parse_uint parse_digits
four = refl

four_given : get "vcpu" two_of_four ≡ some "4"
unfolding get
four_given = refl

build_target-IsFannedOut_example :
    IsFannedOut ⦃p = fixed_platform⦄ 100
      (λ i. i)
      definition
      two_of_four
      "4"
      (build_target ⦃p = fixed_platform⦄ 100 (λ i. i) definition two_of_four true)
build_target-IsFannedOut_example =
    build_target-IsFannedOut ⦃p = fixed_platform⦄ 100 (λ i. i) definition two_of_four "4" refl
      four_given (rw two (omega arith)) (rw (two, four) (omega arith))

-- the CPUs of a target are a template of its configuration
abbrev templated : BenchmarkDef
templated = record definition {
  target = record {
    adapter = "firecracker";
    version = "";
    commands = [];
    config = ("vcpu", string "{cores}") ∷ [];
  };
}

abbrev four_cores : BTreeMap String
four_cores = ("cores", "4") ∷ ("instances", "2") ∷ []

abbrev cpus : Selected → String × ℕ
cpus (firecracker t) = (t.vcpu, t.cpu_base)
cpus _ = ("", 0)

-- the second instance has four CPUs from CPU 1 on, and the first has four from CPU 0 on
overlapping :
    cpus (
      select_target ⦃p = fixed_platform⦄ 100 1 templated
        (instance_vars four_cores (vcpu_of ⦃p = fixed_platform⦄ templated four_cores) true 1)
        true)
    ≡ ("4", 1)
unfolding select_target firecracker_target cfg get insert vcpu_of parse_uint parse_digits show_fuel
    render replace_from chars
overlapping = refl
