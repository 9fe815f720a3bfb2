-- ===== src/Adapter/Drive/Taps.antt =====
-- The registration of the taps of a target, and where it Stops.
use assayist.Common.{
  ℕ, suc, ◌+◌, ◌^◌, ◌<◌, String, List, [], ◌∷◌, ◌++◌, Option, none, some, length, ◌≡◌, refl, arith,
  Exec, ok, err, panic,
}
use assayist.Platform.{Platform}
use assayist.NetAttrib.Client.{Wire}
use assayist.NetAttrib.Session.{AttributionSession, Vm, register, set_state}
use assayist.Effects.{Action, held, ignore, done_with, fail, ◌>>=◌, ◌>>◌, or_clean}
use assayist.Effects.Triples.{Ensures, bind-Ensures, ignore-Ensures, or_clean-Ensures}
use assayist.Capture.{GadgetRunner}
use assayist.Adapter.{NetAttribution, Target, Workload}
use assayist.Adapter.Drive
use assayist.Adapter.Drive.{
  Stage, Machine, RunArtifacts, on_world, staged, reading, call_session, register_vm, vm_of,
  deregister_all, wind_down,
}
use assayist.Adapter.Drive.Held.{
  IsFresh, Holds, handles_of_held, Holds-weaken, fresh-Holds, Registered, register-Registered,
}
use assayist.Adapter.Drive.Winding.{
  call_session-Holds, deregister_none, Stopped, torn_down-Ensures, wind_down-Stopped,
}

module _ ⦃p : Platform⦄ (wire : Wire) {W : Type 0} where
  open p use {N}
  open wire use {S}

  module _ (m : Machine W) (runner : GadgetRunner W N) (target : Target W N)
      (workload : Workload W N) where
    open m use {shell, new_run_id, sample_residency}
    open runner use {Handle, spawn, wait}

    abbrev Stops : {A : Type 0} → (A → Stage W S → Type 0) → Exec A × Stage W S → Type 0
    Stops Q = Ensures Q (Stopped wire target)

    register_vm-Ensures :
        (attributed : List ℕ) (more : ℕ) (vm : Vm) (s : Option (AttributionSession S)) (w : W)
        → Holds wire attributed (more + 1) s
        → Ensures
            (λ h s'. Holds wire (attributed ++ h ∷ []) more s'.session)
            (λ s'. Holds wire attributed more s'.session)
            (register_vm wire vm (record { world = w; session = s }))
    register_vm-Ensures attributed more vm none w held = tt
    register_vm-Ensures attributed more vm (some s) w held =
        by_result (register wire vm s) (register-Registered wire attributed more vm s held)
      where
        by_result :
            (x : Exec ℕ × AttributionSession S)
            → Registered wire attributed more x
            → Ensures
                (λ h (s' : Stage W S). Holds wire (attributed ++ h ∷ []) more s'.session)
                (λ s'. Holds wire attributed more s'.session)
                (Drive.in_session w x)
        by_result (ok h, s') k = k
        by_result (err e, s') k = k
        by_result (panic, s') k = tt

    register_tap-Ensures :
        (na : NetAttribution) (attributed : List ℕ) (more : ℕ) (vm_id : String) (st : Stage W S)
        → Holds wire attributed (more + 1) st.session
        → Stops
            (λ h s'. Holds wire (attributed ++ h ∷ []) more s'.session)
            (Drive.register_tap wire m runner target workload na attributed vm_id st)
    register_tap-Ensures na attributed more vm_id st held =
        bind-Ensures (or_clean entered (wind attributed)) (λ h. mark h >> done_with h) grown grown
          (Stopped wire target) st
          (or_clean-Ensures entered (wind attributed) grown
            (λ s'. Holds wire attributed more s'.session) (Stopped wire target) st
            (register_vm-Ensures attributed more (vm_of vm_id na) st.session st.world held)
            (wind_down-Stopped wire m runner target workload attributed more))
          λ h s₁ h₁.
            bind-Ensures (mark h) (λ _. done_with h) (λ _. grown h) grown (Stopped wire target) s₁
              (or_clean-Ensures (call_session wire (set_state wire h 0))
                (wind (attributed ++ h ∷ [])) (λ _. grown h) (grown h) (Stopped wire target) s₁
                (call_session-Holds wire (attributed ++ h ∷ []) more h 0 s₁.session s₁.world h₁)
                (wind_down-Stopped wire m runner target workload (attributed ++ h ∷ []) more))
              λ _ s₂ h₂. h₂
      where
        wind : List ℕ → Action (Stage W S) (Unit {0})
        wind = wind_down wire m runner target workload

        entered : Action (Stage W S) ℕ
        entered = register_vm wire (vm_of vm_id na)

        mark : ℕ → Action (Stage W S) (Unit {0})
        mark h = or_clean (call_session wire (set_state wire h 0)) (wind (attributed ++ h ∷ []))

        grown : ℕ → Stage W S → Type 0
        grown h s' = Holds wire (attributed ++ h ∷ []) more s'.session

    register_all-Ensures :
        (vms : List NetAttribution) (attributed : List ℕ) (st : Stage W S)
        → Holds wire attributed (length vms) st.session
        → Stops
            (λ hs s'. Holds wire hs 0 s'.session)
            (Drive.register_all wire m runner target workload vms attributed st)
    unfolding Drive.register_all
    register_all-Ensures [] attributed st held = held
    register_all-Ensures (na ∷ vms) attributed st held =
        bind-Ensures (reading new_run_id >>= tap) (λ h. next (attributed ++ h ∷ [])) grown all_held
          (Stopped wire target) st
          (bind-Ensures (reading new_run_id) tap
            (λ _ s'. Holds wire attributed (length vms + 1) s'.session) grown (Stopped wire target)
            st
            (Holds-weaken wire attributed (suc (length vms)) (length vms + 1) st.session
              (omega arith) held)
            (register_tap-Ensures na attributed (length vms)))
          λ h s₁ h₁. register_all-Ensures vms (attributed ++ h ∷ []) s₁ h₁
      where
        tap : String → Action (Stage W S) ℕ
        tap = Drive.register_tap wire m runner target workload na attributed

        next : List ℕ → Action (Stage W S) (List ℕ)
        next = Drive.register_all wire m runner target workload vms

        grown : ℕ → Stage W S → Type 0
        grown h s' = Holds wire (attributed ++ h ∷ []) (length vms) s'.session

        all_held : List ℕ → Stage W S → Type 0
        all_held hs s' = Holds wire hs 0 s'.session

    attribute_taps-Ensures :
        (vms : List NetAttribution) (st : Stage W S)
        → Holds wire [] (length vms) st.session
        → Stops
            (λ hs s'. Holds wire hs 0 s'.session)
            (Drive.attribute_taps wire m runner target workload vms st)
    attribute_taps-Ensures [] st held =
        bind-Ensures (ignore (on_world target.teardown)) (λ _. fail Drive.no_tap)
          (λ _. Stopped wire target) (λ hs s'. Holds wire hs 0 s'.session) (Stopped wire target) st
          (ignore-Ensures (on_world target.teardown) (Stopped wire target) (Stopped wire target) st
            (torn_down-Ensures wire m runner target workload [] st st
              (handles_of_held wire [] 0 st.session held) none_removed))
          λ _ s' h. h
      where
        none_removed : deregister_all wire [] st ≡ (ok tt, st)
        none_removed = deregister_none wire st
    attribute_taps-Ensures (na ∷ vms) st held = register_all-Ensures (na ∷ vms) [] st held

    pub attribute-Ensures :
        (s : Option (AttributionSession S)) (w : W)
        → length (target.net_attribution w).0 < 2 ^ 64
        → IsFresh wire s
        → Stops
            (λ hs s'. Holds wire hs 0 s'.session)
            (Drive.attribute wire m runner target workload (record { world = w; session = s }))
    unfolding Drive.attribute
    attribute-Ensures none w room fresh = refl
    attribute-Ensures (some s) w room fresh =
        let (vms, w') = target.net_attribution w in
        attribute_taps-Ensures vms (record { world = w'; session = some s })
          (fresh-Holds wire (length vms) (some s) room fresh)
