-- ===== src/Native/Vmm/Boots.antt =====
-- What a QEMU, Cloud Hypervisor or unikernel target of crates/orchestrate/src/native.rs asked of the machine
-- when it got to its steady state.
use mathlib.Core.Path.{subst}
use assayist.Common.{ℕ, String, List, [], ◌∷◌, ◌++◌, Option, none, Bool, true, false, ok, ◌≡◌, refl}
use assayist.Json.{Value}
use assayist.Platform.{Platform}
use assayist.Effects.{Action, ◌>>◌}
use assayist.Effects.Chains.{same_value, bind-ok, ok-Ensures}
use assayist.Effects.Triples.{Ensures}
use assayist.Adapter.{Shell, Target}
use assayist.Native.{span, on_machine}
use assayist.Native.Answers.{on_machine-ok, RanAll, Runs, unless_blank, run_if-Runs}
use assayist.Native.Vmm.{
  QemuTarget, CloudHypervisorTarget, UnikernelTarget, qemu_launch_cmd, ch_launch_cmd,
  unikernel_launch_cmd, launched, vmm, vmm_steady, qemu, cloud_hypervisor, unikernel,
}

-- a target is provisioned, started and brought to its steady state, and its spans are read
abbrev pub brought_up : {S N : Type 0} → Target S N → Action S (List (Value N))
brought_up target = target.provision >> (target.start >> (target.reach_steady >> target.spans))

module _ ⦃p : Platform⦄ {W : Type 0} (sh : Shell W) (now_nanos : W → ℕ × W) where
  open p use {N}

  -- the launch between two readings of the clock, the readiness command, and nothing else
  pub record IsUp (cmd : String) (pin_threads : Bool) (readiness : Option String)
      (spans : List (Value N)) (s s' : List (Value N) × W) : Type 0 where
    pub from : ℕ
    pub till : ℕ
    pub out : String
    pub begun : W
    pub booted : W
    pub settled : W
    pub clock_before : now_nanos s.1 ≡ (from, begun)
    pub ran : sh cmd begun ≡ (ok out, booted)
    pub clock_behind : now_nanos booted ≡ (till, settled)
    pub made_ready : RanAll sh (unless_blank readiness) settled s'.1
    pub spans_are : spans ≡ s.0 ++ span "boot.vmm_ready" none from till ∷ []
    pub kept : s'.0 ≡ spans
    pub not_pinned : pin_threads ≡ false

  -- a target that comes up with that launch and that readiness command
  pub record ComesUp (cmd : String) (pin_threads : Bool) (readiness : Option String)
      (target : Target (List (Value N) × W) N) : Type 0 where
    pub up :
        (s : List (Value N) × W)
        → Ensures
            (λ spans s'. IsUp cmd pin_threads readiness spans s s')
            (λ _. Unit)
            (brought_up target s)

  steady-Runs :
      (what : String) (pin_threads : Bool) (readiness : Option String) (s : List (Value N) × W)
      {u : Unit {0}} {s' : List (Value N) × W}
      → vmm_steady sh now_nanos what pin_threads readiness s ≡ (ok u, s')
      → (pin_threads ≡ false) × Runs sh (unless_blank readiness) s s'
  unfolding vmm_steady
  steady-Runs what true readiness s h = cc
  steady-Runs what false readiness s h = (refl, run_if-Runs sh readiness s h)

  vmm-ComesUp :
      (what bin default cmd : String) (pin_threads : Bool) (readiness : Option String)
      (down : String)
      → ComesUp cmd pin_threads readiness
          (vmm sh now_nanos what bin default cmd pin_threads readiness down)
  unfolding launched
  vmm-ComesUp what bin default cmd pin_threads readiness down = record {
    up = λ s.
        ok-Ensures (λ spans s'. IsUp cmd pin_threads readiness spans s s') _
          λ spans s' h.
            let (_, s1, e1, h1) = bind-ok (launched sh now_nanos cmd) _ s h in
            let (_, s2, e2, h2) =
              bind-ok (vmm_steady sh now_nanos what pin_threads readiness) _ s1 h1 in
            let (out, s3, e3, h3) = bind-ok (on_machine (sh cmd)) _ (s.0, (now_nanos s.1).1) e1 in
            let (kept, ran) = on_machine-ok (sh cmd) (s.0, (now_nanos s.1).1) e3 in
            let at = (same_value h3).1 in
            let (pinless, (same, ready)) = steady-Runs what pin_threads readiness s1 e2 in
            let (read, end) = same_value h2 in
            record {
              from = (now_nanos s.1).0;
              till = (now_nanos s3.1).0;
              out = out;
              begun = (now_nanos s.1).1;
              booted = s3.1;
              settled = s1.1;
              clock_before = refl;
              ran = ran;
              clock_behind = cc;
              made_ready =
                  subst (λ (x : List (Value N) × W). RanAll sh (unless_blank readiness) s1.1 x.1)
                    end ready;
              spans_are = cc;
              kept = cc;
              not_pinned = pinless;
            };
  }

  -- When the provision, the start and the steady state of a QEMU, a Cloud Hypervisor or a unikernel
  -- target succeed and its spans are read, the machine ran the launch command of that target, with
  -- success and between two readings of the clock, then its readiness command, if it has one that is
  -- not blank, with success, and nothing else. The spans that are read, and kept, are those from before
  -- and, behind them, one `boot.vmm_ready` with those two times; and no pinning of threads was asked
  -- for.
  pub all-ComeUp :
      (q : QemuTarget) (c : CloudHypervisorTarget) (u : UnikernelTarget)
      → ComesUp (qemu_launch_cmd q) q.pin_threads q.readiness (qemu sh now_nanos q)
        × ComesUp (ch_launch_cmd c) c.pin_threads c.readiness (cloud_hypervisor sh now_nanos c)
        × ComesUp (unikernel_launch_cmd u) u.pin_threads u.readiness (unikernel sh now_nanos u)
  unfolding qemu cloud_hypervisor unikernel
  all-ComeUp q c u =
      (vmm-ComesUp _ _ _ _ _ _ _, vmm-ComesUp _ _ _ _ _ _ _, vmm-ComesUp _ _ _ _ _ _ _)
