-- ===== src/Adapter/Drive/Ending.antt =====
-- How a run can end, and what it leaves behind of the target and of the attribution map.
use assayist.Common.{ℕ, ◌^◌, ◌<◌, String, List, length, ◌≡◌, refl, Exec, ok, err, panic}
use assayist.Platform.{Platform}
use assayist.NetAttrib.Client.{Wire}
use assayist.Effects.{Action, continue, done_with, ◌>>=◌, ◌>>◌}
use assayist.Effects.Triples.{Ensures, bind-Ensures}
use assayist.Capture.{GadgetRunner}
use assayist.Capture.Plan.{GadgetInvocation}
use assayist.Adapter.{Target, Workload}
use assayist.Adapter.Memory.{sample_meminfo, sampled}
use assayist.Adapter.Drive
use assayist.Adapter.Drive.{
  Stage, Machine, RunArtifacts, on_world, staged, reading, call_session, register_vm, vm_of,
  deregister_all, wind_down,
}
use assayist.Adapter.Drive.Held.{IsFresh}
use assayist.Adapter.Drive.Winding.{WoundUp, on_world-Ensures, Stopped}
use assayist.Adapter.Drive.Closing.{measure-Ensures}

module _ ⦃p : Platform⦄ (wire : Wire) {W : Type 0} where
  open p use {N}
  open wire use {S}

  module _ (m : Machine W) (runner : GadgetRunner W N) (target : Target W N)
      (workload : Workload W N) where
    open m use {shell, new_run_id, sample_residency}
    open runner use {Handle, spawn, wait}

    abbrev Stops : {A : Type 0} → (A → Stage W S → Type 0) → Exec A × Stage W S → Type 0
    Stops Q = Ensures Q (Stopped wire target)

    -- where a run can stop with an error: before the steady state, or behind it
    pub data Cut (start end : Stage W S) : Type 0 where
      unprepared :
          {e : String}
          → Drive.bring_up wire m runner target workload start ≡ (err e, end)
          → Cut start end
      stopped : Stopped wire target end → Cut start end

    as-Cut :
        (start : Stage W S) (x : Exec (RunArtifacts N) × Stage W S)
        → Stops (λ _. WoundUp wire target (ok tt)) x
        → Ensures (λ _. WoundUp wire target (ok tt)) (Cut start) x
    as-Cut start (ok art, end) h = h
    as-Cut start (err e, end) h = stopped h
    as-Cut start (panic, end) h = tt

    bring_up-IsFresh :
        (st : Stage W S)
        → IsFresh wire st.session
        → Ensures
            (λ _ s'. IsFresh wire s'.session)
            (λ s'. IsFresh wire s'.session)
            (Drive.bring_up wire m runner target workload st)
    unfolding Drive.bring_up
    bring_up-IsFresh st fresh =
        bind-Ensures (on_world (sample_meminfo shell)) provisioned (λ _. same) (λ _. same) same st
          (on_world-Ensures wire (IsFresh wire) (sample_meminfo shell) st fresh)
          λ mem s₁ h₁.
            bind-Ensures (on_world target.provision) (λ _. started mem) (λ _. same) (λ _. same) same
              s₁ (on_world-Ensures wire (IsFresh wire) target.provision s₁ h₁)
              λ _ s₂ h₂.
                bind-Ensures (on_world target.start) (λ _. steadied mem) (λ _. same) (λ _. same)
                  same s₂ (on_world-Ensures wire (IsFresh wire) target.start s₂ h₂)
                  λ _ s₃ h₃.
                    bind-Ensures (on_world target.reach_steady) (λ _. done_with mem) (λ _. same)
                      (λ _. same) same s₃
                      (on_world-Ensures wire (IsFresh wire) target.reach_steady s₃ h₃) λ _ s₄ h₄. h₄
      where
        same : Stage W S → Type 0
        same s' = IsFresh wire s'.session

        steadied : ℕ × ℕ → Action (Stage W S) (ℕ × ℕ)
        steadied mem = on_world target.reach_steady >> done_with mem

        started : ℕ × ℕ → Action (Stage W S) (ℕ × ℕ)
        started mem = on_world target.start >> steadied mem

        provisioned : ℕ × ℕ → Action (Stage W S) (ℕ × ℕ)
        provisioned mem = on_world target.provision >> started mem

    -- a sample of the memory has no error
    sampled-Ensures :
        (E : Stage W S → Type 0) (st : Stage W S)
        → IsFresh wire st.session
        → Ensures (λ _ s'. IsFresh wire s'.session) E (on_world (sample_meminfo shell) st)
    unfolding sample_meminfo
    sampled-Ensures E st fresh = by_result (shell "cat /proc/meminfo" st.world)
      where
        by_result :
            (x : Exec String × W)
            → Ensures (λ _ s'. IsFresh wire s'.session) E (staged st.session (sampled x))
        by_result (ok out, w) = fresh
        by_result (err e, w) = fresh
        by_result (panic, w) = tt

    -- When the table of the session, if there is one, is new, and the target reports fewer than 2 ^ 64
    -- taps, a run that returns artifacts ends with the deregistration of every handle that its session
    -- holds and, as the last call on the machine, a teardown that reports no error. A run that returns
    -- an error ends in one of three ways: the sample of the memory, the provision, the start or the
    -- steady state failed; or the spans of the target failed, as the last call; or every handle that
    -- its session holds was deregistered and the teardown of the target, whatever it reports, was the
    -- last call.
    pub execute_run-Ensures :
        (gadgets : List GadgetInvocation) (start : Stage W S)
        → ((w : W) → length (target.net_attribution w).0 < 2 ^ 64)
        → IsFresh wire start.session
        → Ensures
            (λ _. WoundUp wire target (ok tt))
            (Cut start)
            (Drive.execute_run wire m runner target workload gadgets start)
    unfolding Drive.execute_run
    execute_run-Ensures gadgets start room fresh =
        by_result (Drive.bring_up wire m runner target workload start) refl
          (bring_up-IsFresh start fresh)
      where
        measured : ℕ × ℕ → ℕ × ℕ → Action (Stage W S) (RunArtifacts N)
        measured before after = Drive.measure wire m runner target workload gadgets before after

        by_result :
            (x : Exec (ℕ × ℕ) × Stage W S)
            → Drive.bring_up wire m runner target workload start ≡ x
            → Ensures (λ _ s'. IsFresh wire s'.session) (λ s'. IsFresh wire s'.session) x
            → Ensures
                (λ _. WoundUp wire target (ok tt))
                (Cut start)
                (continue x (λ before. on_world (sample_meminfo shell) >>= measured before))
        by_result (ok before, s₁) e h =
            bind-Ensures (on_world (sample_meminfo shell)) (measured before)
              (λ _ s'. IsFresh wire s'.session) (λ _. WoundUp wire target (ok tt)) (Cut start) s₁
              (sampled-Ensures (Cut start) s₁ h)
              λ after s₂ h₂. as-Cut start (measured before after s₂) (
                measure-Ensures wire m runner target workload gadgets before after s₂
                  (room s₂.world) h₂)
        by_result (err d, end) e h = unprepared e
        by_result (panic, end) e h = tt
