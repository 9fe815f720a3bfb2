-- ===== src/Native/Firecracker/Taps.antt =====
-- The calls of a firecracker target that leave the number of its tap as it was.
use mathlib.Core.Path.{subst}
use assayist.Common.{
  ℕ, String, [], Option, none, some, Bool, true, false, if◌then◌else◌, Exec, ok, err, panic, ◌≡◌,
  refl, sym, ap, ◌∙◌, ◌⊎◌, inl, inr,
}
use assayist.Json.{Value}
use assayist.Platform.{Platform}
use assayist.Effects.{Action, done_with}
use assayist.Effects.Triples.{Ensures}
use assayist.Effects.Frames.{Does, bind-Does, done_with-Does, finish-Does, weaken-Does}
use assayist.Adapter.Memory.{sample_meminfo, sampled}
use assayist.Adapter.Drive.{Machine}
use assayist.Native.{on_machine, moved, run_if, run_only}
use assayist.Native.Firecracker
use assayist.Native.Firecracker.{Cells, attribution, firecracker}
use assayist.Native.Firecracker.Commands.{FirecrackerTarget, pin_cmd, api_cmd}
use assayist.Native.Cells.{Kept, on_machine-Kept, change-Does}
use assayist.Native.Firecracker.Lifecycle.{
  timed-Adds, Provisioned, provision-Provisioned, Started, start-Started,
}

-- the machine of a target's state, which leaves the cells alone
abbrev pub with_cells : {C W : Type 0} → Machine W → Machine (C × W)
with_cells m = record {
  shell = λ cmd. on_machine (m.shell cmd);
  new_run_id = λ s. let (id, w) = m.new_run_id s.1 in (id, (s.0, w));
  sample_residency = λ path s. let (o, w) = m.sample_residency path s.1 in (o, (s.0, w));
}

module _ ⦃p : Platform⦄ {W : Type 0} (m : Machine W) (now_nanos : W → ℕ × W)
    (from_str : String → Exec (Value p.N)) (t : FirecrackerTarget) where
  open p use {N}

  abbrev pub SameTap : Cells N × W → Cells N × W → Type 0
  SameTap s s' = s'.0.tap_ifindex ≡ s.0.tap_ifindex

  call_keeps_tap : {A : Type 0} {act : Action (Cells N × W) A} → Does Kept act → Does SameTap act
  call_keeps_tap d = weaken-Does d (λ s s' h. ap (λ c. c.tap_ifindex) h)

  abbrev chain_tap : (s s' s'' : Cells N × W) → SameTap s s' → SameTap s' s'' → SameTap s s''
  chain_tap s s' s'' h q = q ∙ h

  pin-SameTap : Does SameTap (Firecracker.pin m.shell now_nanos from_str t)
  unfolding Firecracker.pin
  pin-SameTap = by_test t.pin_threads
    where
      by_test :
          (b : Bool)
          → Does SameTap
              (if b then Firecracker.pin_all m.shell now_nanos from_str t else done_with tt)
      by_test true =
          bind-Does (call_keeps_tap (on_machine-Kept (m.shell (pin_cmd t))))
            (λ out.
              bind-Does
                (finish-Does {R = SameTap}
                  (Firecracker.parse_layout m.shell now_nanos from_str t out) (λ s. refl))
                (λ layout.
                  bind-Does (finish-Does {R = SameTap} (Firecracker.pinned layout) (λ s. refl))
                    (λ kept. change-Does (λ c c'. c'.tap_ifindex ≡ c.tap_ifindex) _ (λ c. refl))
                    chain_tap)
                chain_tap)
            chain_tap
      by_test false = done_with-Does tt (λ s. refl)

  patched :
      (body : String)
      → Does SameTap (Firecracker.api m.shell now_nanos from_str t "PATCH" "/vm" body)
  patched body = call_keeps_tap (on_machine-Kept (run_only m.shell (api_cmd t "PATCH" "/vm" body)))

  snapshot-SameTap :
      (o : Option (String × String))
      → Does SameTap (Firecracker.snapshot m.shell now_nanos from_str t o)
  unfolding Firecracker.snapshot
  snapshot-SameTap none = done_with-Does tt (λ s. refl)
  snapshot-SameTap (some (snap, mem)) =
      bind-Does (patched "{\"state\":\"Paused\"}")
        (λ _.
          bind-Does
            (weaken-Does
              (timed-Adds m.shell now_nanos from_str t "snapshot.create"
                (api_cmd t "PUT" "/snapshot/create" (Firecracker.snapshot_body snap mem)))
              (λ s s' h. h.tap_kept))
            (λ _. patched "{\"state\":\"Resumed\"}") chain_tap)
        chain_tap

  pub reach_steady-SameTap : Does SameTap (Firecracker.reach_steady m.shell now_nanos from_str t)
  unfolding Firecracker.reach_steady
  reach_steady-SameTap =
      bind-Does (call_keeps_tap (on_machine-Kept (run_if m.shell t.readiness)))
        (λ _. bind-Does pin-SameTap (λ _. snapshot-SameTap t.snapshot_out) chain_tap) chain_tap

  -- no tap of its own: a restore, or a target whose network is not a tap
  abbrev pub Untapped : Type 0
  Untapped = ((snapshot : String × String) × (t.from_snapshot ≡ some snapshot)) ⊎ (t.tap ≡ none)

  -- no row of attribution, and so behind any call that keeps the number of the tap
  abbrev pub NoRow : Cells N → Type 0
  NoRow c = attribution m.shell now_nanos from_str t t.tap c.tap_ifindex ≡ []

  abbrev pub Quiet : Cells N × W → Cells N × W → Type 0
  Quiet s s' = NoRow s.0 → NoRow s'.0

  pub same_tap-Quiet :
      {A : Type 0} {act : Action (Cells N × W) A} → Does SameTap act → Does Quiet act
  same_tap-Quiet d =
      weaken-Does d
        λ s s' h row. subst (λ o. attribution m.shell now_nanos from_str t t.tap o ≡ []) (sym h) row

  tapless-Quiet :
      {A : Type 0} {R : Cells N × W → Cells N × W → Type 0} {act : Action (Cells N × W) A}
      → t.tap ≡ none
      → Does R act
      → Does Quiet act
  tapless-Quiet e d = weaken-Does d λ s s' h row.
      subst (λ o. attribution m.shell now_nanos from_str t o s'.0.tap_ifindex ≡ []) (sym e) refl

  pub provision-Quiet : Untapped → Does Quiet (Firecracker.provision m.shell now_nanos from_str t)
  provision-Quiet (inr e) = tapless-Quiet e (provision-Provisioned m.shell now_nanos from_str t)
  provision-Quiet (inl (snapshot, e)) = same_tap-Quiet (
      weaken-Does (provision-Provisioned m.shell now_nanos from_str t)
        λ s s' h. (subst (λ o. Provisioned m.shell now_nanos from_str t o s.0 s'.0) e h).tap_kept)

  Started-SameTap :
      (o : Option (String × String)) (c c' : Cells N)
      → Started m.shell now_nanos from_str t o c c'
      → c'.tap_ifindex ≡ c.tap_ifindex
  Started-SameTap (some snapshot) c c' h = ap (λ x. x.tap_ifindex) h
  Started-SameTap none c c' h = h.tap_kept

  pub start-Quiet : Does Quiet (Firecracker.start m.shell now_nanos from_str t)
  start-Quiet = same_tap-Quiet (
      weaken-Does (start-Started m.shell now_nanos from_str t)
        λ s s' h. Started-SameTap t.from_snapshot s.0 s'.0 h)

  pub sample-Quiet : Does Quiet (sample_meminfo (with_cells {C = Cells N} m).shell)
  unfolding sample_meminfo
  sample-Quiet =
      same_tap-Quiet (record { does = λ s. by_result s.0 (m.shell "cat /proc/meminfo" s.1) })
    where
      by_result :
          (c : Cells N) (x : Exec String × W)
          → Ensures (λ _ s'. s'.0.tap_ifindex ≡ c.tap_ifindex) (λ _. Unit) (sampled (moved c x))
      by_result c (ok out, w) = refl
      by_result c (err e, w) = refl
      by_result c (panic, w) = tt
