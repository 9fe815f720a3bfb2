-- ===== src/Adapter/Drive.antt =====
-- `execute_run` of crates/orchestrate/src/adapter.rs: one run, from the provision of the target to its teardown.
pub mod Held
pub mod Winding
pub mod Taps
pub mod Window
pub mod Closing
pub mod Ending
use assayist.Common.{
  ℕ, String, List, [], ◌∷◌, ◌++◌, Option, none, some, Bool, if◌then◌else◌, Exec, ok, err, panic,
  is_empty, map,
}
use assayist.Json.{Value, null, array, string, object, done, field, of_items}
use assayist.Platform.{Platform}
use assayist.Contract.{Fragment}
use assayist.NetAttrib.{HandleTable, provenance_json}
use assayist.NetAttrib.Rewrite.{rewrite_vm_id_labels}
use assayist.NetAttrib.Client.{Wire}
use assayist.NetAttrib.Session.{AttributionSession, Vm, register, set_state, deregister}
use assayist.Effects.{Action, done_with, fail, finish, attempt, ignore, or_clean, ◌>>=◌, ◌>>◌}
use assayist.Capture.{GadgetRunner}
use assayist.Capture.Plan.{GadgetInvocation}
use assayist.Adapter.{Shell, NetAttribution, Target, Workload}
use assayist.Adapter.Memory.{Sample, sample_meminfo, hostmem_fragment, resident_fragment}

-- the machine, and the attribution session if the run has one
pub record Stage (W S : Type 0) : Type 0 where
  pub world : W
  pub session : Option (AttributionSession S)

pub record RunArtifacts (N : Type 0) : Type 0 where
  pub fragments : List (Fragment N)
  pub spans : List (Value N)
  pub workload_report : Value N
  pub vm_attribution : Option (Value N)

-- what the run takes from the operating system: a fresh run id, and the residency of a file
pub record Machine (W : Type 0) : Type 0 where
  pub shell : Shell W
  pub new_run_id : W → String × W
  pub sample_residency : String → W → Option (ℕ × ℕ) × W

abbrev pub no_tap : String
no_tap =
    "attribution enabled but the target set up no tap (note: tap networking is cold boot only, so a snapshot-restore def will not have one even with the key set); set `network: tap` on a cold-boot target"

abbrev pub vm_of : String → NetAttribution → Vm
vm_of vm_id na = record {
  vm_id = vm_id;
  tap = na.tap;
  guest_mac = na.guest_mac;
  ifindex = na.ifindex;
  netns_inum = na.netns_inum;
}

module _ {W S : Type 0} where
  abbrev pub staged : {A : Type 0} → Option (AttributionSession S) → Exec A × W → Exec A × Stage W S
  staged s (r, w) = (r, record { world = w; session = s })

  -- a call on the machine, and one that has no error
  abbrev pub on_world : {A : Type 0} → Action W A → Action (Stage W S) A
  on_world act st = staged st.session (act st.world)

  abbrev pub reading : {A : Type 0} → (W → A × W) → Action (Stage W S) A
  reading read = on_world (λ w. let (a, w') = read w in (ok a, w'))

  abbrev pub in_session : {A : Type 0} → W → Exec A × AttributionSession S → Exec A × Stage W S
  in_session w (r, s) = (r, record { world = w; session = some s })

module _ ⦃p : Platform⦄ (wire : Wire) {W : Type 0} where
  open p use {N}
  open wire use {S}

  -- one call of the session, for a handle, if there is a session
  abbrev pub call_session :
      (AttributionSession S → Exec (Unit {0}) × AttributionSession S)
      → Action (Stage W S) (Unit {0})
  call_session call st = elim st.session [
    | none ↦ (ok tt, st)
    | some s ↦ in_session st.world (call s)
  ]

  -- `deregister_all`
  unfoldable pub deregister_all : List ℕ → Action (Stage W S) (Unit {0})
  deregister_all [] = done_with tt
  deregister_all (h ∷ hs) = ignore (call_session (deregister wire h)) >> deregister_all hs

  -- `session.register(..)`; a run with no session never gets here
  abbrev pub register_vm : Vm → Action (Stage W S) ℕ
  register_vm vm st = elim st.session [
    | none ↦ (panic, st)
    | some s ↦ in_session st.world (register wire vm s)
  ]

  module _ (m : Machine W) (runner : GadgetRunner W N) (target : Target W N)
      (workload : Workload W N) where
    open m use {shell, new_run_id, sample_residency}
    open runner use {Handle, spawn, wait}

    -- `let _ = target.teardown(sh)`, behind the deregistration of the handles
    abbrev pub wind_down : List ℕ → Action (Stage W S) (Unit {0})
    wind_down attributed = deregister_all attributed >> ignore (on_world target.teardown)

    -- the body of the loop over the taps; the handle is recorded before the state command
    abbrev pub register_tap : NetAttribution → List ℕ → String → Action (Stage W S) ℕ
    register_tap na attributed vm_id = do
      handle ← or_clean (register_vm (vm_of vm_id na)) (wind_down attributed)
      or_clean (call_session (set_state wire handle 0)) (wind_down (attributed ++ handle ∷ []))
      done_with handle

    unfoldable pub register_all : List NetAttribution → List ℕ → Action (Stage W S) (List ℕ)
    register_all [] attributed = done_with attributed
    register_all (na ∷ vms) attributed = do
      handle ← reading new_run_id >>= register_tap na attributed
      register_all vms (attributed ++ handle ∷ [])

    abbrev pub attribute_taps : List NetAttribution → Action (Stage W S) (List ℕ)
    attribute_taps [] = ignore (on_world target.teardown) >> fail no_tap
    attribute_taps (na ∷ vms) = register_all (na ∷ vms) []

    unfoldable pub attribute : Action (Stage W S) (List ℕ)
    attribute st = elim st.session [
      | none ↦ (ok [], st)
      | some s ↦ (reading target.net_attribution >>= attribute_taps) st
    ]

    unfoldable pub spawn_gadgets :
        List GadgetInvocation → List ℕ → List Handle → Action (Stage W S) (List Handle)
    spawn_gadgets [] attributed handles = done_with handles
    spawn_gadgets (inv ∷ gadgets) attributed handles = do
      h ← or_clean (on_world (spawn inv)) (wind_down attributed)
      spawn_gadgets gadgets attributed (handles ++ h ∷ [])

    unfoldable pub wait_gadgets :
        List GadgetInvocation
        → List Handle
        → List ℕ
        → List (Fragment N)
        → Action (Stage W S) (List (Fragment N))
    wait_gadgets (inv ∷ gadgets) (h ∷ handles) attributed fragments = do
      f ← or_clean (on_world (wait inv h)) (ignore (on_world workload.stop) >> wind_down attributed)
      wait_gadgets gadgets handles attributed (fragments ++ f ∷ [])
    wait_gadgets gadgets handles attributed fragments = done_with fragments

    abbrev pub add_sample : String → Option (ℕ × ℕ) → List Sample → List Sample
    add_sample label (some (r, t)) samples =
        record { label = label; resident = r; total = t } ∷ samples
    add_sample label none samples = samples

    unfoldable pub sample_files : List (String × String) → W → List Sample × W
    sample_files [] w = ([], w)
    sample_files ((label, path) ∷ files) w =
        let (o, w') = sample_residency path w in
        let (samples, w'') = sample_files files w' in (add_sample label o samples, w'')

    abbrev pub sample_resident : W → List Sample × W
    sample_resident w = sample_files (target.resident_files w) w

    abbrev pub or_null : Exec (Value N) → Value N
    or_null (ok v) = v
    or_null _ = null

    abbrev pub push_resident : List (Fragment N) → Option (Fragment N) → List (Fragment N)
    push_resident fragments (some f) = fragments ++ f ∷ []
    push_resident fragments none = fragments

    -- the provenance, with the handles that no registration issued
    abbrev pub provenance : HandleTable → List String → Value N
    provenance table [] = object (field "vms" (provenance_json table) done)
    provenance table (raw ∷ unknown) = object (
        field "unresolved_handles" (array (of_items (map string (raw ∷ unknown))))
          (field "vms" (provenance_json table) done))

    abbrev pub artifacts :
        List (Fragment N)
        → List (Value N)
        → Value N
        → List ℕ
        → Option (AttributionSession S)
        → RunArtifacts N
    artifacts fragments spans report (h ∷ hs) (some s) =
        let (rewritten, unknown) = rewrite_vm_id_labels fragments s.table in
        record {
          fragments = rewritten;
          spans = spans;
          workload_report = report;
          vm_attribution = some (provenance s.table unknown);
        }
    artifacts fragments spans report attributed session = record {
      fragments = fragments;
      spans = spans;
      workload_report = report;
      vm_attribution = none;
    }

    abbrev pub final_artifacts :
        List (Fragment N) → List (Value N) → Value N → List ℕ → Action (Stage W S) (RunArtifacts N)
    final_artifacts fragments spans report attributed st =
        (ok (artifacts fragments spans report attributed st.session), st)

    -- from the taps to the end of the capture window
    unfoldable pub observe : List GadgetInvocation → List ℕ → Action (Stage W S) (List (Fragment N))
    observe gadgets attributed = do
      handles ← spawn_gadgets gadgets attributed []
      or_clean (on_world workload.start) (wind_down attributed)
      fragments ← wait_gadgets gadgets handles attributed []
      ignore (on_world workload.stop)
      done_with fragments

    -- what follows the spans of the target
    unfoldable pub close :
        List (Fragment N)
        → List (Value N)
        → Value N
        → List ℕ
        → ℕ × ℕ
        → ℕ × ℕ
        → Action (Stage W S) (RunArtifacts N)
    close fragments spans report attributed mem_before mem_after = do
      resident ← reading sample_resident
      deregister_all attributed
      teardown ← attempt (on_world target.teardown)
      art ←
          final_artifacts
            (push_resident (fragments ++ hostmem_fragment mem_before mem_after ∷ [])
              (resident_fragment resident))
            spans report attributed
      finish teardown
      done_with art

    -- behind the steady state
    unfoldable pub measure :
        List GadgetInvocation → ℕ × ℕ → ℕ × ℕ → Action (Stage W S) (RunArtifacts N)
    measure gadgets mem_before mem_after = do
      attributed ← attribute
      fragments ← observe gadgets attributed
      r ← attempt (on_world workload.report)
      spans ← on_world target.spans
      close fragments spans (or_null r) attributed mem_before mem_after

    -- up to the steady state
    unfoldable pub bring_up : Action (Stage W S) (ℕ × ℕ)
    bring_up = do
      mem_before ← on_world (sample_meminfo shell)
      on_world target.provision
      on_world target.start
      on_world target.reach_steady
      done_with mem_before

    unfoldable pub execute_run : List GadgetInvocation → Action (Stage W S) (RunArtifacts N)
    execute_run gadgets = do
      mem_before ← bring_up
      mem_after ← on_world (sample_meminfo shell)
      measure gadgets mem_before mem_after
