-- ===== src/Examples/DriveRuns.antt =====
-- Runs of a target with one tap, whose calls are logged, with an owner that answers `ok`.
use assayist.Common.{
  ℕ, ◌<◌, ◌^◌, String, List, [], ◌∷◌, ◌++◌, Option, none, some, false, ◌≡◌, refl, arith, Exec, ok,
  err, length,
}
use assayist.Json.{Value, null}
use assayist.Contract.{Fragment}
use assayist.NetAttrib.{new_table}
use assayist.NetAttrib.Client.{Wire}
use assayist.NetAttrib.Session.{AttributionSession}
use assayist.Effects.{Action}
use assayist.Effects.Triples.{Ensures}
use assayist.Capture.{GadgetRunner, capture}
use assayist.Capture.Plan.{GadgetInvocation}
use assayist.Capture.Window.{Observed, Failed, capture-Ensures}
use assayist.Adapter.{Shell, Target, Workload}
use assayist.Adapter.Fanout.{Cells, fanout, teardown_each}
use assayist.Adapter.Fanout.Teardown.{Reports, fanout-teardown}
use assayist.NetAttrib.{reserve}
use assayist.NetAttrib.Client.{command}
use assayist.NetAttrib.Session.{register, set_state, deregister}
use assayist.Text.Number.{show_fuel}
use assayist.Adapter.Memory.{sample_meminfo}
use assayist.Adapter.Drive.{
  Stage, Machine, bring_up, measure, attribute, register_all, observe, spawn_gadgets, wait_gadgets,
  close, deregister_all, sample_files, execute_run,
}
use assayist.Adapter.Drive.Winding.{WoundUp}
use assayist.Adapter.Drive.Ending.{Cut, execute_run-Ensures}
use assayist.Examples.Fixed.{Fixed, fixed_platform}

abbrev pub Log : Type 0
Log = List String

abbrev log : {A : Type 0} → String → Exec A → Action Log A
log line r w = (r, w ++ line ∷ [])

abbrev pub obliging : Wire
obliging = record {
  S = Log;
  write_all = λ line s. (none, s ++ line ∷ []);
  flush = λ s. (none, s);
  read_line = λ s. (ok "ok", s);
}

abbrev quiet_shell : Shell Log
quiet_shell cmd w = (ok "", w)

abbrev machine : Machine Log
machine = record {
  shell = quiet_shell;
  new_run_id = λ w. ("01ab", w);
  sample_residency = λ path w. (none, w);
}

-- a target whose spans come to `spans`, and whose teardown comes to `down`
abbrev logged : Exec (List (Value Fixed)) → Exec (Unit {0}) → Target Log Fixed
logged spans down = record {
  version = λ w. ("1", w);
  provision = log "provision" (ok tt);
  start = log "start" (ok tt);
  reach_steady = log "reach_steady" (ok tt);
  spans = log "spans" spans;
  teardown = log "teardown" down;
  pinning_layout = λ w. none;
  resident_files = λ w. [];
  net_attribution = λ w. (
    record { tap = "tap0"; ifindex = 7; guest_mac = "02:00:00:00:00:00"; netns_inum = 9 } ∷ [],
    w,
  );
}

abbrev writer : Workload Log Fixed
writer = record {
  version = λ w. ("1", w);
  start = log "load" (ok tt);
  stop = log "stop" (ok tt);
  report = log "report" (ok null);
}

abbrev no_fragment : Fragment Fixed
no_fragment = record { series = []; self_metrics = []; capture_meta = none }

abbrev gadgets_run : GadgetRunner Log Fixed
gadgets_run = record {
  Handle = String;
  spawn = λ inv. log "spawn" (ok inv.probe);
  wait = λ inv h. log "wait" (ok no_fragment);
  kill = λ h w. w ++ "kill" ∷ [];
}

abbrev gadget : GadgetInvocation
gadget = record { gadget = "kvm"; probe = "kvm_exit"; args = []; out_path = "out" }

abbrev fresh : Stage Log Log
fresh = record {
  world = [];
  session = some (record { client = record { reader = []; poisoned = false }; table = new_table });
}

abbrev sent : Option (AttributionSession Log) → Log
sent none = []
sent (some s) = s.client.reader

-- the calls on the machine, and the lines to the owner
abbrev trace : {A : Type 0} → Exec A × Stage Log Log → Log × Log
trace (r, s) = (s.world, sent s.session)

abbrev drive : Target Log Fixed → Log × Log
drive target = trace (
    execute_run ⦃p = fixed_platform⦄ obliging machine gadgets_run target writer (gadget ∷ []) fresh)

one_tap : (w : Log) → length ((logged (ok []) (ok tt)).net_attribution w).0 < 2 ^ 64
one_tap w = omega arith

whole_run : drive (logged (ok []) (ok tt)) ≡ (
  "provision" ∷ "start" ∷ "reach_steady" ∷ "spawn" ∷ "load" ∷ "wait" ∷ "stop" ∷ "report" ∷ "spans"
      ∷ "teardown" ∷ [],
  "add 7 0 9\n" ∷ "state 0 RUNNING\n" ∷ "remove 0\n" ∷ [],
)
unfolding execute_run bring_up sample_meminfo measure attribute register_all register command
    set_state observe spawn_gadgets wait_gadgets close deregister_all deregister sample_files
    show_fuel reserve
whole_run = refl

-- spans that fail leave the target up and the map's entry in place
spans_fail : drive (logged (err "no spans") (ok tt)) ≡ (
  "provision" ∷ "start" ∷ "reach_steady" ∷ "spawn" ∷ "load" ∷ "wait" ∷ "stop" ∷ "report" ∷ "spans"
      ∷ [],
  "add 7 0 9\n" ∷ "state 0 RUNNING\n" ∷ [],
)
unfolding execute_run bring_up sample_meminfo measure attribute register_all register command
    set_state observe spawn_gadgets wait_gadgets show_fuel reserve
spans_fail = refl

execute_run-Ensures_example :
    Ensures
      (λ _. WoundUp ⦃p = fixed_platform⦄ obliging (logged (ok []) (ok tt)) (ok tt))
      (Cut ⦃p = fixed_platform⦄ obliging machine gadgets_run (logged (ok []) (ok tt)) writer fresh)
      (execute_run ⦃p = fixed_platform⦄ obliging machine gadgets_run
        (logged (ok []) (ok tt))
        writer
        (gadget ∷ [])
        fresh)
execute_run-Ensures_example =
    execute_run-Ensures ⦃p = fixed_platform⦄ obliging machine gadgets_run (logged (ok []) (ok tt))
      writer (gadget ∷ []) fresh one_tap refl

abbrev three : List (Target Log Fixed)
three = logged (ok []) (err "first") ∷ logged (ok []) (err "second") ∷ logged (ok []) (ok tt) ∷ []

abbrev cells : Cells Fixed
cells = record { start_ns = 0; spans = [] }

abbrev clock : Log → ℕ × Log
clock w = (5, w)

last_error_reported :
    (fanout ⦃p = fixed_platform⦄ clock three).teardown (cells, [])
    ≡ (err "second", (cells, "teardown" ∷ "teardown" ∷ "teardown" ∷ []))
unfolding fanout teardown_each
last_error_reported = refl

fanout-teardown_example :
    let (r, s) = (fanout ⦃p = fixed_platform⦄ clock three).teardown (cells, []) in
    (s.0 ≡ cells) × Reports three (ok tt) [] (r, s.1)
fanout-teardown_example = fanout-teardown ⦃p = fixed_platform⦄ clock three cells []

capture-Ensures_example :
    Ensures
      (Observed gadgets_run (gadget ∷ gadget ∷ []) [])
      (Failed gadgets_run (gadget ∷ gadget ∷ []) [])
      (capture gadgets_run (gadget ∷ gadget ∷ []) [])
capture-Ensures_example = capture-Ensures gadgets_run (gadget ∷ gadget ∷ []) []
