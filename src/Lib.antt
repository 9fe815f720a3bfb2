-- ===== src/Lib.antt =====
-- Verification library of assayist, a benchmark harness whose gate turns recorded runs into a verdict.
--
-- Parts and files. The orchestrator reads a definition and expands it into cells
-- (crates/orchestrate/src/def.rs), drives the target and the workload of each (crates/orchestrate/src/adapter.rs),
-- assembles a run (crates/contract) and hands two groups of runs to the gate; the gate reduces each run to metrics,
-- compares groups of them and exits with a code for CI (crates/gate), and per-VM attribution gives network
-- series the ids of the machines they belong to (crates/orchestrate/src/netattrib.rs).
--   Platform     what comes from outside the source: f64, the numbers and printing of serde_json, Unicode case
--                and trimming. Every model that needs one takes it as an instance argument.
--   Text, Json, BTreeMap
--                the parts of str, serde_json::Value and BTreeMap<String, _> that the code uses.
--   Stats        crates/gate/src/stats.rs: Rng (SplitMix64), Moments, Shuffle, Permutation (permutation_p),
--                Histogram (log2_* and explicit_percentile), Trend (linreg_slope_stderr).
--   Reduce       crates/gate/src/reduce.rs: Polarity, Labels, Workload, Series, and `reduce` itself.
--   Gate         crates/gate/src/gate.rs: Run (Config, grade_of, tenancy_of, params_hash), Collect (Group, collect),
--                Validate, Compare (one metric), Report (the JSON document as a record), Ab, Drift, Triad;
--                crates/gate/src/main.rs: Command.
--   Contract     crates/contract/src/lib.rs: the record, assemble and compute_grade.
--   NetAttrib    crates/orchestrate/src/netattrib.rs: handles and table, Rewrite (rewrite_vm_id_labels), Client
--                (ControlClient over an abstract stream), Session (AttributionSession).
--   Owner        capture/netattrib/src/main.rs: VmCtx and its bytes, parse_command, fragment; a byte order is an
--                argument; Apply (apply and the replies of serve, over any BPF map). Layout and Protocol are round trips.
--   Effects      an action that may fail, over a state that it keeps when it does; Triples, Frames and Chains, how its
--                results are proved.
--   Capture      crates/orchestrate/src/capture.rs: Plan (plan_gadgets), capture over any GadgetRunner; Window.
--   Adapter      crates/orchestrate/src/adapter.rs: the traits Shell, Target and Workload as records, Command (the
--                command adapters), Fanout (FanoutTarget), Memory (the two synthetic fragments), Drive (execute_run;
--                its modules Held, Winding, Taps, Window, Closing and Ending follow a run from the taps to its end).
--   HostPrep     crates/orchestrate/src/hostprep.rs: knobs, fingerprint, observe and prepare over any Host; Knobs and
--                Consistency relate the knobs to the grade; Linux (LinuxHost over abstract files), Linux/Cpus
--                (cpu_counts), Linux/Governor (set_governor).
--   Native       crates/orchestrate/src/native.rs: the settings and the version of a tool; Answers (what
--                calls ran), Vmm (the QEMU, Cloud Hypervisor and unikernel targets; Boots, what they ran), Firecracker
--                (its Commands, the target; Lifecycle, Taps and Attribution follow its cells through a run, Timing,
--                Restores and Boots the commands that it ran), Fio, Wrk.
--   Orchestrate  crates/orchestrate/src/main.rs: select_target and build_target; Pinning.
--   Otlp         crates/otlp/src/lib.rs: Export, Spans, Import (with Import/Series); RoundTrip, with RoundTrip/Kinds for
--                each kind of series and RoundTrip/Whole for a run.
--   Def          crates/orchestrate/src/def.rs: the definition and its rules, Cells (expand_cells, canonical_json).
--   Handoff      crates/orchestrate/src/gate.rs (run_gate) and the exit code of crates/orchestrate/src/main.rs.
--   Run          crates/orchestrate/src/run.rs: build_identity, build_gate_context, assemble.
--   Examples     concrete inputs, over a fixed-point platform.
--
-- Correspondence. A definition has the name of the Rust function it models, in antt's spelling; a loop is a
-- recursion over the list that it walks, with the variables that it mutates as a record or as accumulators. The
-- JSON objects that `ab`, `drift` and `triad` build are the records of Gate/Report.antt. `Result<_, String>` is
-- `Exec`, which has a panic as a third case; inside the statistics and the reduction, `none` is a panic. A client
-- or session method takes its state and returns the new one beside its result.
--
-- Numbers. `f64` is any type with the operations that the code calls; no law of it is assumed. Integers are native
-- numbers, and u64 and u32 arithmetic wraps as in a release build. Recursion is structural throughout; the fuels are
-- those of decimal and of base-36 printing, one more than the number, which is above its count of digits. The round
-- trip of the OTLP series names the laws of JSON numbers that it needs.
--
-- State of the machine. What a shell command, a target, a workload, a gadget or a file does is a function of an
-- abstract state `W`, which it returns; a run of the driver keeps `W` and the attribution session side by side, so
-- that the order of its calls can be stated. The `RefCell`s of a target or a workload are a state of their own beside
-- `W`. The clock, a fresh run id and the residency of a file are such functions.
--
-- Not modelled: the serde-derived parsing of typed records, ControlClient::connect (time and sockets), SystemShell,
-- SubprocessRunner and sample_residency (calls of the operating system, which the models take as parameters), the
-- vsock workload (a loop over sockets up to a deadline), the orchestrator's choice of a workload, its arguments and
-- its loop over the cells, the sockets, pin and signals of the owner, the other capture gadgets and the eBPF programs.
pub mod Common
pub mod Text
pub mod Json
pub mod Platform
pub mod BTreeMap
pub mod Stats
pub mod Reduce
pub mod Gate
pub mod Contract
pub mod NetAttrib
pub mod Owner
pub mod Effects
pub mod Capture
pub mod Adapter
pub mod HostPrep
pub mod Otlp
pub mod Native
pub mod Orchestrate
pub mod Def
pub mod Handoff
pub mod Run
pub mod Examples
