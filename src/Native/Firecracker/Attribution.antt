-- ===== src/Native/Firecracker/Attribution.antt =====
-- Runs with attribution of a firecracker target that has no tap of its own.
use assayist.Common.{
  ℕ, String, List, [], ◌∷◌, Option, none, some, Exec, ok, err, panic, ◌≡◌, refl, ◌∙◌,
}
use assayist.Json.{Value}
use assayist.Platform.{Platform}
use assayist.NetAttrib.Client.{Wire}
use assayist.NetAttrib.Session.{AttributionSession}
use assayist.Effects.{Action, continue, held, done_with, fail}
use assayist.Effects.Triples.{Ensures}
use assayist.Effects.Frames.{Does, bind-Does, done_with-Does, under-Ensures}
use assayist.Capture.{GadgetRunner}
use assayist.Capture.Plan.{GadgetInvocation}
use assayist.Adapter.{Target, Workload, NetAttribution}
use assayist.Adapter.Drive
use assayist.Adapter.Drive.{
  Stage, Machine, on_world, staged, no_tap, bring_up, measure, execute_run, attribute,
}
use assayist.Native.Firecracker.{Cells, attribution, firecracker}
use assayist.Native.Firecracker.Commands.{FirecrackerTarget}
use assayist.Native.Firecracker.Taps.{
  with_cells, reach_steady-SameTap, start-Quiet, provision-Quiet, sample-Quiet, same_tap-Quiet,
  Untapped, NoRow, Quiet,
}

module _ {W S : Type 0} where
  -- the relation of a call on the machine, and the session as before
  abbrev Staged : (W → W → Type 0) → Stage W S → Stage W S → Type 0
  Staged R st st' = R st.world st'.world × (st'.session ≡ st.session)

  on_world-Staged :
      {A : Type 0} (R : W → W → Type 0) {act : Action W A}
      → Does R act
      → Does (Staged R) (on_world act)
  on_world-Staged {A = A} R {act = act} d = record {
    does = λ st. by_result st (act st.world) (d.does st.world);
  }
    where
      by_result :
          (st : Stage W S) (x : Exec A × W)
          → Ensures (λ _ w. R st.world w) (λ _. Unit) x
          → Ensures (λ _ st'. Staged R st st') (λ _. Unit) (staged st.session x)
      by_result st (ok a, w) h = (h, refl)
      by_result st (err e, w) h = tt
      by_result st (panic, w) h = tt

module _ ⦃p : Platform⦄ {W : Type 0} (m : Machine W) (now_nanos : W → ℕ × W)
    (from_str : String → Exec (Value p.N)) (t : FirecrackerTarget) where
  open p use {N}

  module _ (wire : Wire) (runner : GadgetRunner (Cells N × W) N)
      (workload : Workload (Cells N × W) N) where
    open wire use {S}

    abbrev target : Target (Cells N × W) N
    target = firecracker m.shell now_nanos from_str t

    abbrev Steady : Stage (Cells N × W) S → Stage (Cells N × W) S → Type 0
    Steady st st' = Staged (Quiet m now_nanos from_str t) st st'

    chain : (st st' st'' : Stage (Cells N × W) S) → Steady st st' → Steady st' st'' → Steady st st''
    chain st st' st'' h q = ((λ row. q.0 (h.0 row)), q.1 ∙ h.1)

    bring_up-Steady :
        (Untapped m now_nanos from_str t)
        → Does Steady (bring_up wire (with_cells m) runner target workload)
    unfolding bring_up firecracker
    bring_up-Steady u =
        bind-Does
          (on_world-Staged (Quiet m now_nanos from_str t) (sample-Quiet m now_nanos from_str t))
          (λ mem.
            bind-Does
              (on_world-Staged (Quiet m now_nanos from_str t)
                ((provision-Quiet m now_nanos from_str t) u))
              (λ _.
                bind-Does
                  (on_world-Staged (Quiet m now_nanos from_str t)
                    (start-Quiet m now_nanos from_str t))
                  (λ _.
                    bind-Does
                      (on_world-Staged (Quiet m now_nanos from_str t) (
                        (same_tap-Quiet m now_nanos from_str t)
                          (reach_steady-SameTap m now_nanos from_str t)))
                      (λ _. done_with-Does {R = Steady} mem (λ s. ((λ row. row), refl))) chain)
                  chain)
              chain)
          chain

    -- with a session, and no row of attribution
    abbrev Asked : AttributionSession S → Stage (Cells N × W) S → Type 0
    Asked session st = (NoRow m now_nanos from_str t) st.world.0 × (st.session ≡ some session)

    torn_down :
        (x : Exec (Unit {0}) × Stage (Cells N × W) S)
        → Ensures
            (λ _ _. ⊥)
            (λ _. Unit)
            (continue (continue (held x) (λ _. done_with tt)) (λ _. fail {A = List ℕ} no_tap))
    torn_down (ok u, st) = tt
    torn_down (err e, st) = tt
    torn_down (panic, st) = tt

    refused :
        (st : Stage (Cells N × W) S) (rows : List NetAttribution)
        → rows ≡ []
        → Ensures
            (λ _ _. ⊥)
            (λ _. Unit)
            (Drive.attribute_taps wire (with_cells m) runner target workload rows st)
    refused st [] e = torn_down (on_world target.teardown st)
    refused st (na ∷ rows) e = absurd (cons-nil e)
      where
        cons-nil : na ∷ rows ≡ [] → ⊥
        cons-nil e = cc

    attribute-Refused :
        (session : AttributionSession S) (st : Stage (Cells N × W) S)
        → Asked session st
        → Ensures (λ _ _. ⊥) (λ _. Unit) (attribute wire (with_cells m) runner target workload st)
    unfolding attribute firecracker
    attribute-Refused session st (row, e) = rw e (
        refused (record { world = st.world; session = some session })
          (attribution m.shell now_nanos from_str t t.tap st.world.0.tap_ifindex) row)

    measure-Refused :
        (session : AttributionSession S) (gadgets : List GadgetInvocation) (before after : ℕ × ℕ)
        → Does
            (λ st st'. Asked session st → ⊥)
            (measure wire (with_cells m) runner target workload gadgets before after)
    unfolding measure
    measure-Refused session gadgets before after = record {
      does = λ st.
          under-Ensures (Asked session st)
            (measure wire (with_cells m) runner target workload gadgets before after st)
            (λ asked.
              stops (attribute wire (with_cells m) runner target workload st) _
                (attribute-Refused session st asked));
    }
      where
        stops :
            {A B : Type 0} (x : Exec A × Stage (Cells N × W) S)
            (next : A → Action (Stage (Cells N × W) S) B)
            → Ensures (λ _ _. ⊥) (λ _. Unit) x
            → Ensures (λ _ _. ⊥) (λ _. Unit) (continue x next)
        stops (ok a, st) next h = absurd h
        stops (err e, st) next h = tt
        stops (panic, st) next h = tt

    -- A firecracker target that restores a snapshot, or whose network is not a tap, and that has read
    -- no tap yet, cannot be driven with an attribution session: whatever the shell, the gadgets and the
    -- workload do, the run returns no artifacts.
    pub execute_run-refused :
        (gadgets : List GadgetInvocation) (start : Stage (Cells N × W) S)
        (session : AttributionSession S)
        → (Untapped m now_nanos from_str t)
        → start.world.0.tap_ifindex ≡ none
        → start.session ≡ some session
        → Ensures
            (λ _ _. ⊥)
            (λ _. Unit)
            (execute_run wire
              (with_cells m)
              runner
              (firecracker m.shell now_nanos from_str t)
              workload
              gadgets
              start)
    unfolding execute_run
    execute_run-refused gadgets start session u fresh asked =
        absurd_result (execute_run wire (with_cells m) runner target workload gadgets start)
          (whole.does start)
      where
        Refuses : Stage (Cells N × W) S → Stage (Cells N × W) S → Type 0
        Refuses st st' = Asked session st → ⊥

        later :
            (st st' st'' : Stage (Cells N × W) S)
            → Steady st st'
            → Refuses st' st''
            → Refuses st st''
        later st st' st'' h q (row, e) = q (h.0 row, h.1 ∙ e)

        whole : Does Refuses (execute_run wire (with_cells m) runner target workload gadgets)
        whole =
            bind-Does (bring_up-Steady u)
              (λ before.
                bind-Does
                  (on_world-Staged (Quiet m now_nanos from_str t)
                    (sample-Quiet m now_nanos from_str t))
                  (λ after. measure-Refused session gadgets before after) later)
              later

        none_of : (o : Option String) → attribution m.shell now_nanos from_str t o none ≡ []
        none_of none = refl
        none_of (some tap) = refl

        absurd_result :
            {A : Type 0} (x : Exec A × Stage (Cells N × W) S)
            → Ensures (λ _ _. Asked session start → ⊥) (λ _. Unit) x
            → Ensures (λ _ _. ⊥) (λ _. Unit) x
        absurd_result (ok a, st) h = h (rw (fresh) (none_of t.tap), asked)
        absurd_result (err e, st) h = tt
        absurd_result (panic, st) h = tt
