-- ===== src/Native/Firecracker/Restores.antt =====
-- The restore of a snapshot by a firecracker target of crates/orchestrate/src/native.rs.
use mathlib.Core.Path.{subst}
use assayist.Common.{
  ℕ, String, List, [], ◌∷◌, ◌++◌, Option, none, some, Bool, true, false, if◌then◌else◌, Exec, ok,
  ◌≡◌, sym, ap, ◌∙◌, and_then, or_err,
}
use assayist.Text.{◌==◌, format}
use assayist.Json.{Value}
use assayist.Platform.{Platform}
use assayist.Effects.{Action, done_with, finish, ◌>>=◌, ◌>>◌}
use assayist.Adapter.{Shell}
use assayist.Native.{run_if, on_machine}
use assayist.Native.Firecracker
use assayist.Native.Firecracker.{Cells, load_body, backend, not_blank}
use assayist.Native.Firecracker.Commands.{
  FirecrackerTarget, api_cmd, launch_cmd, uffd_uds, launch_uffd_cmd, launch_stream_cmd,
  stream_prefetch_cmd,
}
use assayist.Effects.Chains.{same_value, bind-ok}
use assayist.Native.Answers.{Runs, Runs-append, Runs-none, run-Runs, unless_blank, run_if-Runs}
use assayist.Native.Firecracker.Timing.{Timed, timed-Timed}

module _ ⦃p : Platform⦄ {W : Type 0} (sh : Shell W) (now_nanos : W → ℕ × W)
    (from_str : String → Exec (Value p.N)) (t : FirecrackerTarget) where
  open p use {N, trim}

  -- what a restore runs before it loads its snapshot
  abbrev pub stream_cmds : String → Option String → List String
  stream_cmds mem none = []
  stream_cmds mem (some source) = launch_stream_cmd t source mem ∷ []

  abbrev pub memory_of : String → Option String → String
  memory_of mem none = mem
  memory_of mem (some source) = format (t.stream_dir ∷ "/mem" ∷ [])

  abbrev pub prefetch_cmds : Option String → List String
  prefetch_cmds none = []
  prefetch_cmds (some source) = if t.stream_prefetch then stream_prefetch_cmd t source ∷ [] else []

  abbrev pub handler_cmds : Bool → Option String → String → List String
  handler_cmds true (some handler) mem = launch_uffd_cmd handler (uffd_uds t) mem ∷ []
  handler_cmds _ _ mem = []

  abbrev pub backend_of : Bool → String → Value N
  backend_of true path = backend "Uffd" (uffd_uds t)
  backend_of false path = backend "File" path

  -- a backend of the kind Uffd has a handler
  abbrev pub IsServed : Bool → Option String → Type 0
  IsServed true none = ⊥
  IsServed _ _ = Unit

  mount_stream-Runs :
      (mem : String) (source : Option String) (s : Cells N × W) {path : String} {s' : Cells N × W}
      → Firecracker.mount_stream sh now_nanos from_str t mem source s ≡ (ok path, s')
      → (path ≡ memory_of mem source) × Runs sh (stream_cmds mem source) s s'
  mount_stream-Runs mem none s h = let (e, same) = same_value h in (sym e, Runs-none sh same)
  mount_stream-Runs mem (some source) s h =
      let cmd = launch_stream_cmd t source mem in
      let (_, s1, e1, h1) = bind-ok (Firecracker.run sh now_nanos from_str t cmd) _ s h in
      let (e, same) = same_value h1 in
      (sym e, subst (Runs sh (cmd ∷ []) s) same (run-Runs sh cmd s e1))

  prewarm-Runs :
      (source : Option String) (s : Cells N × W) {u : Unit {0}} {s' : Cells N × W}
      → Firecracker.prewarm sh now_nanos from_str t source s ≡ (ok u, s')
      → Runs sh (prefetch_cmds source) s s'
  prewarm-Runs none s h = Runs-none sh (same_value h).1
  prewarm-Runs (some source) s {u = u} {s' = s'} h = by_test t.stream_prefetch h
    where
      by_test :
          (b : Bool)
          → (if b
                then Firecracker.run sh now_nanos from_str t (stream_prefetch_cmd t source)
                else done_with tt)
              s
            ≡ (ok u, s')
          → Runs sh (if b then stream_prefetch_cmd t source ∷ [] else []) s s'
      by_test true h = run-Runs sh (stream_prefetch_cmd t source) s h
      by_test false h = Runs-none sh (same_value h).1

  start_backend-Runs :
      (mem path : String) (s : Cells N × W) {v : Value N} {s' : Cells N × W}
      → Firecracker.start_backend sh now_nanos from_str t mem path s ≡ (ok v, s')
      → let uffd = t.mem_backend == "Uffd" in
        let handler = and_then t.uffd_handler not_blank in
        (v ≡ backend_of uffd path)
        × IsServed uffd handler
        × Runs sh (handler_cmds uffd handler mem) s s'
  start_backend-Runs mem path s {v = v} {s' = s'} h =
      by_test (t.mem_backend == "Uffd") (and_then t.uffd_handler not_blank) h
    where
      handled : Option String → Action (Cells N × W) (Value N)
      handled o = finish (or_err o "mem_backend: uffd needs a uffd_handler command") >>= λ handler.
          Firecracker.run sh now_nanos from_str t (launch_uffd_cmd handler (uffd_uds t) mem)
          >> done_with (backend "Uffd" (uffd_uds t))

      by_test :
          (b : Bool) (o : Option String)
          → (if b then handled o else done_with (backend "File" path)) s ≡ (ok v, s')
          → (v ≡ backend_of b path) × IsServed b o × Runs sh (handler_cmds b o mem) s s'
      by_test true none h = cc
      by_test true (some handler) h =
          let cmd = launch_uffd_cmd handler (uffd_uds t) mem in
          let (_, s1, e1, h1) = bind-ok (Firecracker.run sh now_nanos from_str t cmd) _ s h in
          let (e, same) = same_value h1 in
          (sym e, tt, subst (Runs sh (cmd ∷ []) s) same (run-Runs sh cmd s e1))
      by_test false o h = let (e, same) = same_value h in (sym e, tt, Runs-none sh same)

  abbrev pub is_uffd : Bool
  is_uffd = t.mem_backend == "Uffd"

  abbrev pub handler : Option String
  handler = and_then t.uffd_handler not_blank

  abbrev pub restore_cmds : String → List String
  restore_cmds mem =
      stream_cmds mem t.stream_source
      ++ (unless_blank t.pre_restore
          ++ (prefetch_cmds t.stream_source ++ handler_cmds is_uffd handler mem))

  abbrev pub load_cmd : String → String → String
  load_cmd snap mem =
      api_cmd t "PUT" "/snapshot/load"
        (load_body snap (backend_of is_uffd (memory_of mem t.stream_source)))

  -- the launch and what a restore needs, and then the load of the snapshot
  pub record Restore (snap mem : String) (s s' : Cells N × W) : Type 0 where
    pub ready : Cells N × W
    pub settings : Runs sh (launch_cmd t ∷ restore_cmds mem) s ready
    pub is_served : IsServed is_uffd handler
    pub resumes : Timed sh now_nanos "restore.resume_to_steady" (load_cmd snap mem) ready s'

  pub restore-Restore :
      (snap mem : String) (s s1 : Cells N × W) {u : Unit {0}} {s' : Cells N × W}
      → Runs sh (launch_cmd t ∷ []) s s1
      → Firecracker.restore sh now_nanos from_str t snap mem s1 ≡ (ok u, s')
      → Restore snap mem s s'
  unfolding Firecracker.restore
  restore-Restore snap mem s s1 {s' = s'} launched h =
      let source = t.stream_source in
      let (path, a, e1, h1) =
        bind-ok (Firecracker.mount_stream sh now_nanos from_str t mem source) _ s1 h in
      let (_, b, e2, h2) = bind-ok (on_machine (run_if sh t.pre_restore)) _ a h1 in
      let (_, c, e3, h3) = bind-ok (Firecracker.prewarm sh now_nanos from_str t source) _ b h2 in
      let (v, d, e4, h4) =
        bind-ok (Firecracker.start_backend sh now_nanos from_str t mem path) _ c h3 in
      let (is_path, mounted) = mount_stream-Runs mem source s1 e1 in
      let (is_backend, served, started) = start_backend-Runs mem path c e4 in
      record {
        ready = d;
        settings = Runs-append sh (launch_cmd t ∷ []) (restore_cmds mem) s s1 d launched (
            Runs-append sh (stream_cmds mem source) _ s1 a d mounted (
              Runs-append sh (unless_blank t.pre_restore) _ a b d
                (run_if-Runs sh t.pre_restore a e2)
                (Runs-append sh (prefetch_cmds source) _ b c d (prewarm-Runs source b e3)
                  started)));
        is_served = served;
        resumes =
            subst
              (λ x.
                Timed sh now_nanos "restore.resume_to_steady"
                  (api_cmd t "PUT" "/snapshot/load" (load_body snap x)) d s')
              (is_backend ∙ ap (backend_of is_uffd) is_path)
              (timed-Timed sh now_nanos from_str t _ _ d h4);
      }
