-- ===== src/Adapter/Drive/Winding.antt =====
-- What winding a run down leaves, and the calls on the machine that do so when they fail.
use assayist.Common.{
  ℕ, String, List, [], ◌∷◌, Option, none, some, ◌≡◌, refl, Exec, ok, err, panic, ◌⊎◌, inl, inr,
}
use assayist.Platform.{Platform}
use assayist.NetAttrib.Client.{Wire}
use assayist.NetAttrib.Session.{AttributionSession, set_state, deregister}
use assayist.Effects.{Action, continue, held, ignore, done_with, or_clean}
use assayist.Effects.Triples.{Ensures, ignore-Ensures, or_clean-Ensures}
use assayist.Capture.{GadgetRunner}
use assayist.Adapter.{Target, Workload}
use assayist.Adapter.Drive
use assayist.Adapter.Drive.{
  Stage, Machine, RunArtifacts, on_world, staged, reading, call_session, register_vm, vm_of,
  deregister_all, wind_down,
}
use assayist.Adapter.Drive.Held.{handles_of, Holds, handles_of_held, set_state-Holds}

module _ ⦃p : Platform⦄ (wire : Wire) {W : Type 0} where
  open p use {N}
  open wire use {S}

  -- every handle that the session holds was deregistered, and then, as the last call on the machine, the
  -- target was torn down, with the result `r`
  pub record WoundUp (target : Target W N) (r : Exec (Unit {0})) (end : Stage W S) : Type 0 where
    pub attributed : List ℕ
    pub before : Stage W S
    pub after : Stage W S
    pub all_handles : handles_of wire before.session ≡ attributed
    pub removed : deregister_all wire attributed before ≡ (ok tt, after)
    pub torn_down : on_world target.teardown after ≡ (r, end)

  -- where the spans of the target failed: neither a handle is deregistered nor the target torn down
  pub record Abandoned (target : Target W N) (end : Stage W S) : Type 0 where
    pub before : Stage W S
    pub e : String
    pub failed : on_world target.spans before ≡ (err e, end)

  kept :
      {A : Type 0} (P : Option (AttributionSession S) → Type 0) (s : Option (AttributionSession S))
      (x : Exec A × W)
      → P s
      → Ensures (λ _ s'. P s'.session) (λ s'. P s'.session) (staged s x)
  kept P s (ok a, w) h = h
  kept P s (err e, w) h = h
  kept P s (panic, w) h = tt

  -- a call on the machine leaves the session alone
  pub on_world-Ensures :
      {A : Type 0} (P : Option (AttributionSession S) → Type 0) (act : Action W A) (st : Stage W S)
      → P st.session
      → Ensures (λ _ s'. P s'.session) (λ s'. P s'.session) (on_world act st)
  on_world-Ensures P act st h = kept P st.session (act st.world) h

  pub call_session-Holds :
      (attributed : List ℕ) (more h st : ℕ) (s : Option (AttributionSession S)) (w : W)
      → Holds wire attributed more s
      → Ensures
          (λ _ s'. Holds wire attributed more s'.session)
          (λ s'. Holds wire attributed more s'.session)
          (call_session wire (set_state wire h st) (record { world = w; session = s }))
  call_session-Holds attributed more h st none w held = held
  call_session-Holds attributed more h st (some s) w held =
      by_result (set_state wire h st s) (set_state-Holds wire attributed more h st s held)
    where
      by_result :
          (x : Exec (Unit {0}) × AttributionSession S)
          → Holds wire attributed more (some x.1)
          → Ensures
              (λ _ (s' : Stage W S). Holds wire attributed more s'.session)
              (λ s'. Holds wire attributed more s'.session)
              (Drive.in_session w x)
      by_result (ok u, s') k = k
      by_result (err e, s') k = k
      by_result (panic, s') k = tt

  -- nothing but a panic Stops the deregistration
  pub deregister_all-cases :
      (hs : List ℕ) (st : Stage W S)
      → ((end : Stage W S) × (deregister_all wire hs st ≡ (panic, end)))
        ⊎ ((end : Stage W S) × (deregister_all wire hs st ≡ (ok tt, end)))
  unfolding deregister_all
  deregister_all-cases [] st = inr (st, refl)
  deregister_all-cases (h ∷ hs) st =
      first (call_session wire (deregister wire h) st) (deregister_all-cases hs)
    where
      first :
          (x : Exec (Unit {0}) × Stage W S)
          → ((s' : Stage W S)
              → ((end : Stage W S) × (deregister_all wire hs s' ≡ (panic, end)))
                ⊎ ((end : Stage W S) × (deregister_all wire hs s' ≡ (ok tt, end))))
          → ((end : Stage W S) × (continue
                  (continue (held x) (λ _. done_with tt))
                  (λ _. deregister_all wire hs)
                ≡ (panic, end)))
            ⊎ ((end : Stage W S) × (continue
                    (continue (held x) (λ _. done_with tt))
                    (λ _. deregister_all wire hs)
                  ≡ (ok tt, end)))
      first (ok u, s') rest = rest s'
      first (err e, s') rest = rest s'
      first (panic, s') rest = inl (s', refl)

  pub deregister_none : (st : Stage W S) → deregister_all wire [] st ≡ (ok tt, st)
  unfolding deregister_all
  deregister_none st = refl

  -- where a run that had reached the steady state can stop with an error
  pub data Stopped (target : Target W N) (end : Stage W S) : Type 0 where
    abandoned : Abandoned target end → Stopped target end
    wound_up : {r : Exec (Unit {0})} → WoundUp target r end → Stopped target end

  module _ (m : Machine W) (runner : GadgetRunner W N) (target : Target W N)
      (workload : Workload W N) where
    open m use {shell, new_run_id, sample_residency}
    open runner use {Handle, spawn, wait}

    abbrev Stops : {A : Type 0} → (A → Stage W S → Type 0) → Exec A × Stage W S → Type 0
    Stops Q = Ensures Q (Stopped target)

    pub torn_down-Ensures :
        (attributed : List ℕ) (before after : Stage W S)
        → handles_of wire before.session ≡ attributed
        → deregister_all wire attributed before ≡ (ok tt, after)
        → Ensures (λ _. Stopped target) (Stopped target) (on_world target.teardown after)
    torn_down-Ensures attributed before after hs removed =
        by_result (on_world target.teardown after) refl
      where
        wound :
            (r : Exec (Unit {0})) (end : Stage W S)
            → on_world target.teardown after ≡ (r, end)
            → Stopped target end
        wound r end e = wound_up (record {
          attributed = attributed;
          before = before;
          after = after;
          all_handles = hs;
          removed = removed;
          torn_down = e;
        })

        by_result :
            (x : Exec (Unit {0}) × Stage W S)
            → on_world target.teardown after ≡ x
            → Ensures (λ _. Stopped target) (Stopped target) x
        by_result (ok u, end) e = wound (ok u) end e
        by_result (err d, end) e = wound (err d) end e
        by_result (panic, end) e = tt

    pub wind_down-Stopped :
        (attributed : List ℕ) (more : ℕ) (st : Stage W S)
        → Holds wire attributed more st.session
        → Stops (λ _. Stopped target) (wind_down wire m runner target workload attributed st)
    wind_down-Stopped attributed more st held = elim (deregister_all-cases attributed st) [
      | inl (end, crash) ↦ rw crash tt
      | inr (after, removed) ↦ rw removed (
          ignore-Ensures (on_world target.teardown) (Stopped target) (Stopped target) after (
            torn_down-Ensures attributed st after
              (handles_of_held wire attributed more st.session held) removed))
    ]

    -- a call on the machine that winds the run down when it fails
    pub guarded :
        {A : Type 0} (attributed : List ℕ) (act : Action W A) (st : Stage W S)
        → Holds wire attributed 0 st.session
        → Stops
            (λ _ s'. Holds wire attributed 0 s'.session)
            (or_clean (on_world act) (wind_down wire m runner target workload attributed) st)
    guarded attributed act st held =
        or_clean-Ensures (on_world act) (wind_down wire m runner target workload attributed)
          (λ _ s'. Holds wire attributed 0 s'.session) (λ s'. Holds wire attributed 0 s'.session)
          (Stopped target) st (on_world-Ensures (Holds wire attributed 0) act st held)
          (wind_down-Stopped attributed 0)

    pub ignored :
        {A : Type 0} (attributed : List ℕ) (act : Action W A) (st : Stage W S)
        → Holds wire attributed 0 st.session
        → Stops (λ _ s'. Holds wire attributed 0 s'.session) (ignore (on_world act) st)
    ignored attributed act st held =
        ignore-Ensures (on_world act) (λ s'. Holds wire attributed 0 s'.session) (Stopped target) st
          (on_world-Ensures (Holds wire attributed 0) act st held)
