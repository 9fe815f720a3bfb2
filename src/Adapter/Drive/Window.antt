-- ===== src/Adapter/Drive/Window.antt =====
-- The capture window: the gadgets and the workload, and where they stop a run.
use assayist.Common.{ℕ, List, [], ◌∷◌, ◌++◌, Exec}
use assayist.Platform.{Platform}
use assayist.Contract.{Fragment}
use assayist.NetAttrib.Client.{Wire}
use assayist.Effects.{Action, held, ignore, done_with, ◌>>=◌, ◌>>◌, or_clean}
use assayist.Effects.Triples.{Ensures, bind-Ensures, or_clean-Ensures}
use assayist.Capture.{GadgetRunner}
use assayist.Capture.Plan.{GadgetInvocation}
use assayist.Adapter.{Target, Workload}
use assayist.Adapter.Drive
use assayist.Adapter.Drive.{
  Stage, Machine, RunArtifacts, on_world, staged, reading, call_session, register_vm, vm_of,
  deregister_all, wind_down,
}
use assayist.Adapter.Drive.Held.{Holds}
use assayist.Adapter.Drive.Winding.{on_world-Ensures, Stopped, wind_down-Stopped, guarded, ignored}

module _ ⦃p : Platform⦄ (wire : Wire) {W : Type 0} where
  open p use {N}
  open wire use {S}

  module _ (m : Machine W) (runner : GadgetRunner W N) (target : Target W N)
      (workload : Workload W N) where
    open m use {shell, new_run_id, sample_residency}
    open runner use {Handle, spawn, wait}

    abbrev Stops : {A : Type 0} → (A → Stage W S → Type 0) → Exec A × Stage W S → Type 0
    Stops Q = Ensures Q (Stopped wire target)

    spawn_gadgets-Ensures :
        (gadgets : List GadgetInvocation) (attributed : List ℕ) (handles : List Handle)
        (st : Stage W S)
        → Holds wire attributed 0 st.session
        → Stops
            (λ _ s'. Holds wire attributed 0 s'.session)
            (Drive.spawn_gadgets wire m runner target workload gadgets attributed handles st)
    unfolding Drive.spawn_gadgets
    spawn_gadgets-Ensures [] attributed handles st held = held
    spawn_gadgets-Ensures (inv ∷ gadgets) attributed handles st held =
        bind-Ensures
          (or_clean (on_world (spawn inv)) (wind_down wire m runner target workload attributed))
          (λ h.
            Drive.spawn_gadgets wire m runner target workload gadgets attributed
              (handles ++ h ∷ []))
          (λ _. same) (λ _. same) (Stopped wire target) st
          (guarded wire m runner target workload attributed (spawn inv) st held)
          λ h s' k. spawn_gadgets-Ensures gadgets attributed (handles ++ h ∷ []) s' k
      where
        same : Stage W S → Type 0
        same s' = Holds wire attributed 0 s'.session

    -- a fragment that fails Stops the workload before the run is wound down
    collected :
        {A : Type 0} (attributed : List ℕ) (act : Action W A) (st : Stage W S)
        → Holds wire attributed 0 st.session
        → Stops
            (λ _ s'. Holds wire attributed 0 s'.session)
            (or_clean
              (on_world act)
              (ignore (on_world workload.stop)
                >> wind_down wire m runner target workload attributed)
              st)
    collected attributed act st held =
        or_clean-Ensures (on_world act) (ignore (on_world workload.stop) >> wind) (λ _. same) same
          (Stopped wire target) st (on_world-Ensures wire (Holds wire attributed 0) act st held)
          λ s₁ h₁.
            bind-Ensures (ignore (on_world workload.stop)) (λ _. wind) (λ _. same)
              (λ _. Stopped wire target) (Stopped wire target) s₁
              (ignored wire m runner target workload attributed workload.stop s₁ h₁)
              λ _ s₂ h₂. wind_down-Stopped wire m runner target workload attributed 0 s₂ h₂
      where
        same : Stage W S → Type 0
        same s' = Holds wire attributed 0 s'.session

        wind : Action (Stage W S) (Unit {0})
        wind = wind_down wire m runner target workload attributed

    wait_gadgets-Ensures :
        (gadgets : List GadgetInvocation) (handles : List Handle) (attributed : List ℕ)
        (fragments : List (Fragment N)) (st : Stage W S)
        → Holds wire attributed 0 st.session
        → Stops
            (λ _ s'. Holds wire attributed 0 s'.session)
            (Drive.wait_gadgets wire m runner target workload gadgets handles attributed fragments
              st)
    unfolding Drive.wait_gadgets
    wait_gadgets-Ensures [] handles attributed fragments st held = held
    wait_gadgets-Ensures (inv ∷ gadgets) [] attributed fragments st held = held
    wait_gadgets-Ensures (inv ∷ gadgets) (h ∷ handles) attributed fragments st held =
        bind-Ensures
          (or_clean (on_world (wait inv h))
            (ignore (on_world workload.stop) >> wind_down wire m runner target workload attributed))
          (λ f.
            Drive.wait_gadgets wire m runner target workload gadgets handles attributed
              (fragments ++ f ∷ []))
          (λ _. same) (λ _. same) (Stopped wire target) st
          (collected attributed (wait inv h) st held)
          λ f s' k. wait_gadgets-Ensures gadgets handles attributed (fragments ++ f ∷ []) s' k
      where
        same : Stage W S → Type 0
        same s' = Holds wire attributed 0 s'.session

    pub observe-Ensures :
        (gadgets : List GadgetInvocation) (attributed : List ℕ) (st : Stage W S)
        → Holds wire attributed 0 st.session
        → Stops
            (λ _ s'. Holds wire attributed 0 s'.session)
            (Drive.observe wire m runner target workload gadgets attributed st)
    unfolding Drive.observe
    observe-Ensures gadgets attributed st held =
        bind-Ensures (Drive.spawn_gadgets wire m runner target workload gadgets attributed [])
          started (λ _. same) (λ _. same) (Stopped wire target) st
          (spawn_gadgets-Ensures gadgets attributed [] st held)
          λ handles s₁ h₁.
            bind-Ensures
              (or_clean (on_world workload.start)
                (wind_down wire m runner target workload attributed))
              (λ _. waited handles) (λ _. same) (λ _. same) (Stopped wire target) s₁
              (guarded wire m runner target workload attributed workload.start s₁ h₁)
              λ _ s₂ h₂.
                bind-Ensures
                  (Drive.wait_gadgets wire m runner target workload gadgets handles attributed [])
                  stopped (λ _. same) (λ _. same) (Stopped wire target) s₂
                  (wait_gadgets-Ensures gadgets handles attributed [] s₂ h₂)
                  λ fragments s₃ h₃.
                    bind-Ensures (ignore (on_world workload.stop)) (λ _. done_with fragments)
                      (λ _. same) (λ _. same) (Stopped wire target) s₃
                      (ignored wire m runner target workload attributed workload.stop s₃ h₃)
                      λ _ s₄ h₄. h₄
      where
        same : Stage W S → Type 0
        same s' = Holds wire attributed 0 s'.session

        stopped : List (Fragment N) → Action (Stage W S) (List (Fragment N))
        stopped fragments = ignore (on_world workload.stop) >> done_with fragments

        waited : List Handle → Action (Stage W S) (List (Fragment N))
        waited handles =
            Drive.wait_gadgets wire m runner target workload gadgets handles attributed []
            >>= stopped

        started : List Handle → Action (Stage W S) (List (Fragment N))
        started handles =
            or_clean (on_world workload.start) (wind_down wire m runner target workload attributed)
            >> waited handles
