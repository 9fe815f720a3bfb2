-- ===== src/Native/Firecracker/Lifecycle.antt =====
-- The cells of a firecracker target, of crates/orchestrate/src/native.rs, behind its calls.
use mathlib.Core.Path.{subst}
use assayist.Common.{
  ℕ, ◌^◌, String, [], ◌∷◌, ◌++◌, Option, none, some, Bool, true, false, if◌then◌else◌, Exec, ◌≡◌,
  refl, sym, or_err,
}
use assayist.Text.{◌==◌}
use assayist.Text.Number.{parse_uint}
use assayist.Json.{Value}
use assayist.Platform.{Platform}
use assayist.Effects.{Action, done_with, finish, ◌>>=◌, ◌>>◌}
use assayist.Effects.Frames.{Does, bind-Does, done_with-Does, finish-Does}
use assayist.Adapter.{Shell}
use assayist.Native.{span, change, run_if}
use assayist.Native.Cells.{Kept, on_machine-Kept, reading-Kept, bind-Kept, behind-Kept, change-Does}
use assayist.Native.Firecracker
use assayist.Native.Firecracker.{Cells, iface_body}
use assayist.Native.Firecracker.Commands.{FirecrackerTarget, stream_prefetch_cmd}

module _ ⦃p : Platform⦄ {W : Type 0} (sh : Shell W) (now_nanos : W → ℕ × W)
    (from_str : String → Exec (Value p.N)) (t : FirecrackerTarget) where
  open p use {N, trim}

  -- one span more, and the other cells as before
  pub record Adds (name : String) (c c' : Cells N) : Type 0 where
    pub from : ℕ
    pub till : ℕ
    pub spans_are : c'.spans ≡ c.spans ++ span name none from till ∷ []
    pub tap_kept : c'.tap_ifindex ≡ c.tap_ifindex
    pub pinning_kept : c'.pinning ≡ c.pinning

  run-Kept : (cmd : String) → Does Kept (Firecracker.run sh now_nanos from_str t cmd)
  run-Kept cmd = on_machine-Kept _

  pub timed-Adds :
      (name cmd : String)
      → Does (λ s s'. Adds name s.0 s'.0) (Firecracker.timed sh now_nanos from_str t name cmd)
  unfolding Firecracker.timed
  timed-Adds name cmd = behind-Kept (Adds name) (reading-Kept now_nanos) λ start.
      behind-Kept (Adds name) (run-Kept cmd) λ _.
        behind-Kept (Adds name) (reading-Kept now_nanos) λ end. change-Does (Adds name) _ λ c.
          record {
            from = start;
            till = end;
            spans_are = refl;
            tap_kept = refl;
            pinning_kept = refl;
          }

  mount_stream-Kept :
      (mem : String) (source : Option String)
      → Does Kept (Firecracker.mount_stream sh now_nanos from_str t mem source)
  mount_stream-Kept mem none = done_with-Does mem (λ s. refl)
  mount_stream-Kept mem (some source) = bind-Kept (run-Kept _) λ _. done_with-Does _ (λ s. refl)

  prewarm-Kept :
      (source : Option String) → Does Kept (Firecracker.prewarm sh now_nanos from_str t source)
  prewarm-Kept none = done_with-Does tt (λ s. refl)
  prewarm-Kept (some source) = by_test t.stream_prefetch
    where
      by_test :
          (b : Bool)
          → Does Kept (
              if b
              then Firecracker.run sh now_nanos from_str t (stream_prefetch_cmd t source)
              else done_with tt)
      by_test true = run-Kept _
      by_test false = done_with-Does tt (λ s. refl)

  start_backend-Kept :
      (mem mem_path : String)
      → Does Kept (Firecracker.start_backend sh now_nanos from_str t mem mem_path)
  start_backend-Kept mem mem_path = by_test (t.mem_backend == "Uffd")
    where
      by_test :
          (b : Bool)
          → Does Kept (
              if b
              then Firecracker.start_uffd sh now_nanos from_str t mem
              else done_with (Firecracker.backend "File" mem_path))
      by_test true =
          bind-Kept (finish-Does _ (λ s. refl))
            λ handler. bind-Kept (run-Kept _) λ _. done_with-Does _ (λ s. refl)
      by_test false = done_with-Does _ (λ s. refl)

  restore-Adds :
      (snap mem : String)
      → Does
          (λ s s'. Adds "restore.resume_to_steady" s.0 s'.0)
          (Firecracker.restore sh now_nanos from_str t snap mem)
  unfolding Firecracker.restore
  restore-Adds snap mem =
      let R = Adds "restore.resume_to_steady" in
      behind-Kept R (mount_stream-Kept mem t.stream_source) λ mem_path.
        behind-Kept R (on_machine-Kept (run_if sh t.pre_restore)) λ _.
          behind-Kept R (prewarm-Kept t.stream_source) λ _.
            behind-Kept R (start_backend-Kept mem mem_path) λ mem_backend.
              timed-Adds "restore.resume_to_steady" (
                Firecracker.api_cmd t "PUT" "/snapshot/load"
                  (Firecracker.load_body snap mem_backend))

  -- a number is kept for the tap, and the other cells are as before
  pub record HasTap (c c' : Cells N) : Type 0 where
    pub ifindex : ℕ
    pub tap_is : c'.tap_ifindex ≡ some ifindex
    pub spans_kept : c'.spans ≡ c.spans
    pub pinning_kept : c'.pinning ≡ c.pinning

  abbrev pub Tapped : Option String → Cells N → Cells N → Type 0
  Tapped none c c' = c' ≡ c
  Tapped (some tap) c c' = HasTap c c'

  set_up_tap-Tapped :
      (tap : Option String)
      → Does (λ s s'. Tapped tap s.0 s'.0) (Firecracker.set_up_tap sh now_nanos from_str t tap)
  unfolding Firecracker.set_up_tap
  set_up_tap-Tapped none = done_with-Does tt (λ s. refl)
  set_up_tap-Tapped (some tap) =
      behind-Kept HasTap (run-Kept _) λ _.
        behind-Kept HasTap (on_machine-Kept _) λ idx. by_index (parse_uint (2 ^ 32) (trim idx)) _
    where
      kept : (i : ℕ) → Action (Cells N × W) (Unit {0})
      kept i =
          change (λ c. record c { tap_ifindex = some i })
          >> Firecracker.api sh now_nanos from_str t "PUT" "/network-interfaces/eth0"
              (iface_body t tap)

      by_index :
          (x : Option ℕ) (e : String)
          → Does (λ s s'. HasTap s.0 s'.0) (finish (or_err x e) >>= kept)
      by_index (some i) e =
          bind-Does
            (change-Does HasTap (λ c. record c { tap_ifindex = some i })
              λ c. record { ifindex = i; tap_is = refl; spans_kept = refl; pinning_kept = refl })
            (λ _.
              run-Kept (Firecracker.api_cmd t "PUT" "/network-interfaces/eth0" (iface_body t tap)))
            (λ s s' s'' h q. subst (HasTap s.0) (sym q) h)
      by_index none e = record { does = λ s. tt }

  configure-Tapped :
      Does (λ s s'. Tapped t.tap s.0 s'.0) (Firecracker.configure sh now_nanos from_str t)
  unfolding Firecracker.configure
  configure-Tapped = behind-Kept (Tapped t.tap) (run-Kept _) λ _.
      behind-Kept (Tapped t.tap) (run-Kept _)
        λ _. behind-Kept (Tapped t.tap) (run-Kept _) λ _. set_up_tap-Tapped t.tap

  -- a restore has its span when it is provisioned, a cold boot when it is started
  abbrev pub Provisioned : Option (String × String) → Cells N → Cells N → Type 0
  Provisioned (some snapshot) c c' = Adds "restore.resume_to_steady" c c'
  Provisioned none c c' = Tapped t.tap c c'

  pub provision-Provisioned :
      Does
        (λ s s'. Provisioned t.from_snapshot s.0 s'.0)
        (Firecracker.provision sh now_nanos from_str t)
  unfolding Firecracker.provision
  provision-Provisioned =
      behind-Kept (Provisioned t.from_snapshot) (run-Kept _) λ _. prepared t.from_snapshot
    where
      prepared :
          (o : Option (String × String))
          → Does (λ s s'. Provisioned o s.0 s'.0) (Firecracker.prepare sh now_nanos from_str t o)
      prepared (some (snap, mem)) = restore-Adds snap mem
      prepared none = configure-Tapped

  abbrev pub Started : Option (String × String) → Cells N → Cells N → Type 0
  Started (some snapshot) c c' = c' ≡ c
  Started none c c' = Adds "boot.vmm_ready" c c'

  pub start-Started :
      Does (λ s s'. Started t.from_snapshot s.0 s'.0) (Firecracker.start sh now_nanos from_str t)
  unfolding Firecracker.start
  start-Started = booted t.from_snapshot
    where
      booted :
          (o : Option (String × String))
          → Does (λ s s'. Started o s.0 s'.0) (Firecracker.boot sh now_nanos from_str t o)
      booted (some snapshot) = done_with-Does tt (λ s. refl)
      booted none = timed-Adds _ _
