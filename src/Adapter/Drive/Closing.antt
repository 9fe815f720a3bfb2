-- ===== src/Adapter/Drive/Closing.antt =====
-- From the end of the capture window to the artifacts of the run.
use assayist.Common.{
  ℕ, ◌^◌, ◌<◌, List, [], ◌∷◌, ◌++◌, Option, length, ◌≡◌, refl, ap, Exec, ok, err, panic, inl, inr,
}
use assayist.Platform.{Platform}
use assayist.Contract.{Fragment}
use assayist.NetAttrib.Client.{Wire}
use assayist.NetAttrib.Session.{AttributionSession}
use assayist.Effects
use assayist.Effects.{
  Action, continue, held, ignore, attempt, done_with, finish, fail, ◌>>=◌, ◌>>◌, or_clean,
}
use assayist.Effects.Triples.{Ensures, bind-Ensures}
use assayist.Capture.{GadgetRunner}
use assayist.Capture.Plan.{GadgetInvocation}
use assayist.Adapter.{Target, Workload}
use assayist.Adapter.Memory.{hostmem_fragment, resident_fragment}
use assayist.Json.{Value}
use assayist.Adapter.Drive
use assayist.Adapter.Drive.{
  Stage, Machine, RunArtifacts, on_world, staged, reading, call_session, register_vm, vm_of,
  deregister_all, wind_down,
}
use assayist.Adapter.Drive.Held.{handles_of, IsFresh, Holds, handles_of_held}
use assayist.Adapter.Drive.Winding.{WoundUp, deregister_all-cases, Stopped, abandoned, wound_up}
use assayist.Adapter.Drive.Taps.{attribute-Ensures}
use assayist.Adapter.Drive.Window.{observe-Ensures}

module _ ⦃p : Platform⦄ (wire : Wire) {W : Type 0} where
  open p use {N}
  open wire use {S}

  module _ (m : Machine W) (runner : GadgetRunner W N) (target : Target W N)
      (workload : Workload W N) where
    open m use {shell, new_run_id, sample_residency}
    open runner use {Handle, spawn, wait}

    abbrev Stops : {A : Type 0} → (A → Stage W S → Type 0) → Exec A × Stage W S → Type 0
    Stops Q = Ensures Q (Stopped wire target)

    -- the teardown of a run that has its artifacts
    finished :
        (attributed : List ℕ) (before after : Stage W S)
        (art : Option (AttributionSession S) → RunArtifacts N)
        → handles_of wire before.session ≡ attributed
        → deregister_all wire attributed before ≡ (ok tt, after)
        → Stops
            (λ _. WoundUp wire target (ok tt))
            (continue (held (on_world target.teardown after)) (λ teardown.
              (λ st. (ok (art st.session), st)) >>= λ a. finish teardown >> done_with a))
    finished attributed before after art hs removed =
        by_result (on_world target.teardown after) refl
      where
        wound :
            (r : Exec (Unit {0})) (end : Stage W S)
            → on_world target.teardown after ≡ (r, end)
            → WoundUp wire target r end
        wound r end e = record {
          attributed = attributed;
          before = before;
          after = after;
          all_handles = hs;
          removed = removed;
          torn_down = e;
        }

        by_result :
            (x : Exec (Unit {0}) × Stage W S)
            → on_world target.teardown after ≡ x
            → Stops
                (λ _. WoundUp wire target (ok tt))
                (continue (held x) (λ teardown.
                  (λ (st : Stage W S). (ok (art st.session), st)) >>= λ a.
                  finish teardown >> done_with a))
        by_result (ok u, end) e = wound (ok tt) end e
        by_result (err d, end) e = wound_up (wound (err d) end e)
        by_result (panic, end) e = tt

    close-Ensures :
        (fragments : List (Fragment N)) (spans : List (Value N)) (report : Value N)
        (attributed : List ℕ) (mem_before mem_after : ℕ × ℕ) (st : Stage W S)
        → Holds wire attributed 0 st.session
        → Stops
            (λ _. WoundUp wire target (ok tt))
            (Drive.close wire m runner target workload fragments spans report attributed mem_before
              mem_after st)
    unfolding Drive.close
    close-Ensures fragments spans report attributed mem_before mem_after st held =
        let (resident, w') = Drive.sample_resident wire m runner target workload st.world in
        let st' : Stage W S = record { world = w'; session = st.session } in
        elim (deregister_all-cases wire attributed st') [
          | inl (end, crash) ↦ rw crash tt
          | inr (after, removed) ↦ rw removed (
              finished attributed st' after
                (λ s.
                  Drive.artifacts wire m runner target workload
                    (Drive.push_resident wire m runner target workload
                      (fragments ++ hostmem_fragment mem_before mem_after ∷ [])
                      (resident_fragment resident))
                    spans report attributed s)
                (handles_of_held wire attributed 0 st.session held) removed)
        ]

    attempted :
        {A : Type 0} (attributed : List ℕ) (act : Action W A) (st : Stage W S)
        → Holds wire attributed 0 st.session
        → Stops (λ _ s'. Holds wire attributed 0 s'.session) (attempt (on_world act) st)
    attempted {A} attributed act st held = by_result (act st.world)
      where
        by_result :
            (x : Exec A × W)
            → Stops
                (λ _ s'. Holds wire attributed 0 s'.session)
                (Effects.held (staged st.session x))
        by_result (ok a, w) = held
        by_result (err e, w) = held
        by_result (panic, w) = tt

    spans-Ensures :
        (attributed : List ℕ) (st : Stage W S)
        → Holds wire attributed 0 st.session
        → Stops (λ _ s'. Holds wire attributed 0 s'.session) (on_world target.spans st)
    spans-Ensures attributed st held = by_result (target.spans st.world) refl
      where
        by_result :
            (x : Exec (List (Value N)) × W)
            → target.spans st.world ≡ x
            → Stops (λ _ s'. Holds wire attributed 0 s'.session) (staged st.session x)
        by_result (ok spans, w) e = held
        by_result (err d, w) e =
            abandoned (record { before = st; e = d; failed = ap (staged st.session) e })
        by_result (panic, w) e = tt

    pub measure-Ensures :
        (gadgets : List GadgetInvocation) (mem_before mem_after : ℕ × ℕ) (st : Stage W S)
        → length (target.net_attribution st.world).0 < 2 ^ 64
        → IsFresh wire st.session
        → Stops
            (λ _. WoundUp wire target (ok tt))
            (Drive.measure wire m runner target workload gadgets mem_before mem_after st)
    unfolding Drive.measure
    measure-Ensures gadgets mem_before mem_after st room fresh =
        bind-Ensures (Drive.attribute wire m runner target workload) observed holds (λ _. wound)
          (Stopped wire target) st
          (attribute-Ensures wire m runner target workload st.session st.world room fresh)
          λ attributed s₁ h₁.
            bind-Ensures (Drive.observe wire m runner target workload gadgets attributed)
              (reported attributed) (λ _. holds attributed) (λ _. wound) (Stopped wire target) s₁
              (observe-Ensures wire m runner target workload gadgets attributed s₁ h₁)
              λ fragments s₂ h₂.
                bind-Ensures (attempt (on_world workload.report)) (spanned attributed fragments)
                  (λ _. holds attributed) (λ _. wound) (Stopped wire target) s₂
                  (attempted attributed workload.report s₂ h₂)
                  λ r s₃ h₃.
                    bind-Ensures (on_world target.spans) (closed attributed fragments r)
                      (λ _. holds attributed) (λ _. wound) (Stopped wire target) s₃
                      (spans-Ensures attributed s₃ h₃)
                      λ spans s₄ h₄.
                        close-Ensures fragments spans
                          (Drive.or_null wire m runner target workload r) attributed mem_before
                          mem_after s₄ h₄
      where
        holds : List ℕ → Stage W S → Type 0
        holds attributed s' = Holds wire attributed 0 s'.session

        wound : Stage W S → Type 0
        wound = WoundUp wire target (ok tt)

        closed :
            List ℕ
            → List (Fragment N)
            → Exec (Value N)
            → List (Value N)
            → Action (Stage W S) (RunArtifacts N)
        closed attributed fragments r spans =
            Drive.close wire m runner target workload fragments spans
              (Drive.or_null wire m runner target workload r) attributed mem_before mem_after

        spanned : List ℕ → List (Fragment N) → Exec (Value N) → Action (Stage W S) (RunArtifacts N)
        spanned attributed fragments r = on_world target.spans >>= closed attributed fragments r

        reported : List ℕ → List (Fragment N) → Action (Stage W S) (RunArtifacts N)
        reported attributed fragments =
            attempt (on_world workload.report) >>= spanned attributed fragments

        observed : List ℕ → Action (Stage W S) (RunArtifacts N)
        observed attributed =
            Drive.observe wire m runner target workload gadgets attributed >>= reported attributed
