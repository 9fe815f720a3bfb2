-- ===== src/Native/Firecracker/Boots.antt =====
-- What a firecracker target of crates/orchestrate/src/native.rs asked of the machine, and what the machine
-- answered, when its `provision` and its `start` succeed.
use mathlib.Core.Path.{subst}
use assayist.Common.{ℕ, ◌^◌, String, [], ◌∷◌, Option, none, some, Exec, ok, ◌≡◌, sym, ap, or_err}
use assayist.Text.{format}
use assayist.Text.Number.{parse_uint}
use assayist.Json.{Value}
use assayist.Platform.{Platform}
use assayist.Effects.{finish, ◌>>◌}
use assayist.Effects.Triples.{Ensures}
use assayist.Adapter.{Shell}
use assayist.Native.{on_machine}
use assayist.Native.Firecracker
use assayist.Native.Firecracker.{
  Cells, iface_body, machine_body, boot_body, drive_body, parse_ifindex,
}
use assayist.Native.Firecracker.Commands.{FirecrackerTarget, api_cmd, launch_cmd, add_tap}
use assayist.Effects.Chains.{same_value, same_result, bind-ok, ok-Ensures}
use assayist.Native.Answers.{on_machine-ok, RanAll, Runs, Runs-append, run-Runs}
use assayist.Native.Firecracker.Timing.{Timed, timed-Timed}
use assayist.Native.Firecracker.Restores.{Restore, restore-Restore}

module _ ⦃p : Platform⦄ {W : Type 0} (sh : Shell W) (now_nanos : W → ℕ × W)
    (from_str : String → Exec (Value p.N)) (t : FirecrackerTarget) where
  open p use {N, trim}

  abbrev pub number_cmd : String → String
  number_cmd tap = format ("cat '/sys/class/net/" ∷ tap ∷ "/ifindex'" ∷ [])

  abbrev pub attach_cmd : String → String
  attach_cmd tap = api_cmd t "PUT" "/network-interfaces/eth0" (iface_body t tap)

  -- the tap was added, its number is what the machine answered, read as a `u32`, and it was attached
  pub record HasTap (tap : String) (s s' : Cells N × W) : Type 0 where
    pub out : String
    pub added : W
    pub answer : String
    pub answered : W
    pub ifindex : ℕ
    pub add_ran : sh (add_tap tap) s.1 ≡ (ok out, added)
    pub was_read : sh (number_cmd tap) added ≡ (ok answer, answered)
    pub parsed : parse_uint (2 ^ 32) (trim answer) ≡ some ifindex
    pub attached : RanAll sh (attach_cmd tap ∷ []) answered s'.1
    pub cells_are :
        s'.0 ≡ record { tap_ifindex = some ifindex; spans = s.0.spans; pinning = s.0.pinning }

  abbrev pub TapIsUp : Option String → Cells N × W → Cells N × W → Type 0
  TapIsUp none s s' = s' ≡ s
  TapIsUp (some tap) s s' = HasTap tap s s'

  parsed-ok : (o : Option ℕ) (e : String) {i : ℕ} → or_err o e ≡ ok i → o ≡ some i
  parsed-ok none e h = cc
  parsed-ok (some j) e h = cc

  set_up_tap-TapIsUp :
      (tap : Option String) (s : Cells N × W) {u : Unit {0}} {s' : Cells N × W}
      → Firecracker.set_up_tap sh now_nanos from_str t tap s ≡ (ok u, s')
      → TapIsUp tap s s'
  unfolding Firecracker.set_up_tap
  set_up_tap-TapIsUp none s h = sym (same_value h).1
  set_up_tap-TapIsUp (some tap) s {s' = s'} h =
      let (_, s1, e1, h1) = bind-ok (Firecracker.run sh now_nanos from_str t (add_tap tap)) _ s h in
      let (answer, s2, e2, h2) = bind-ok (on_machine (sh (number_cmd tap))) _ s1 h1 in
      let (ifindex, s3, e3, h3) = bind-ok (finish (parse_ifindex tap answer)) _ s2 h2 in
      let (k1, (out, mid, ran, m1)) = run-Runs sh (add_tap tap) s e1 in
      let (k2, asked) = on_machine-ok (sh (number_cmd tap)) s1 e2 in
      let (found, at) = same_result e3 in
      let (k4, attached) =
        run-Runs sh (attach_cmd tap) (record s3.0 { tap_ifindex = some ifindex }, s3.1) h3 in
      record {
        out = out;
        added = s1.1;
        answer = answer;
        answered = s2.1;
        ifindex = ifindex;
        add_ran = rw m1 ran;
        was_read = asked;
        parsed = parsed-ok (parse_uint (2 ^ 32) (trim answer)) _ found;
        attached =
            subst (λ w. RanAll sh (attach_cmd tap ∷ []) w s'.1) (ap (λ x. x.1) (sym at)) attached;
        cells_are = cc;
      }

  -- a cold boot: the launch and the settings, the tap, if there is one, and the start of the instance
  pub record ColdBoot (s s' : Cells N × W) : Type 0 where
    pub settled : Cells N × W
    pub wired : Cells N × W
    pub settings :
        Runs sh
          (launch_cmd t
            ∷ api_cmd t "PUT" "/machine-config" (machine_body t)
            ∷ api_cmd t "PUT" "/boot-source" (boot_body t)
            ∷ api_cmd t "PUT" "/drives/rootfs" (drive_body t)
            ∷ [])
          s
          settled
    pub tap_is_up : TapIsUp t.tap settled wired
    pub boots :
        Timed sh now_nanos "boot.vmm_ready"
          (api_cmd t "PUT" "/actions" "{\"action_type\":\"InstanceStart\"}")
          wired
          s'

  cold-ColdBoot :
      (s s1 s2 : Cells N × W) {u v : Unit {0}} {s' : Cells N × W}
      → Runs sh (launch_cmd t ∷ []) s s1
      → Firecracker.configure sh now_nanos from_str t s1 ≡ (ok u, s2)
      → Firecracker.boot sh now_nanos from_str t none s2 ≡ (ok v, s')
      → ColdBoot s s'
  unfolding Firecracker.configure
  cold-ColdBoot s s1 s2 {s' = s'} launched h q =
      let machine = api_cmd t "PUT" "/machine-config" (machine_body t) in
      let source = api_cmd t "PUT" "/boot-source" (boot_body t) in
      let drive = api_cmd t "PUT" "/drives/rootfs" (drive_body t) in
      let (_, a, e1, h1) = bind-ok (Firecracker.run sh now_nanos from_str t machine) _ s1 h in
      let (_, b, e2, h2) = bind-ok (Firecracker.run sh now_nanos from_str t source) _ a h1 in
      let (_, c, e3, h3) = bind-ok (Firecracker.run sh now_nanos from_str t drive) _ b h2 in
      record {
        settled = c;
        wired = s2;
        settings =
            Runs-append sh (launch_cmd t ∷ []) (machine ∷ source ∷ drive ∷ []) s s1 c launched (
              Runs-append sh (machine ∷ []) (source ∷ drive ∷ []) s1 a c (run-Runs sh machine s1 e1)
                (Runs-append sh (source ∷ []) (drive ∷ []) a b c (run-Runs sh source a e2)
                  (run-Runs sh drive b e3)));
        tap_is_up = set_up_tap-TapIsUp t.tap c h3;
        boots = timed-Timed sh now_nanos from_str t _ _ s2 q;
      }

  -- a restore resumes when it is provisioned, a cold boot when it is started
  abbrev pub Booted : Option (String × String) → Cells N × W → Cells N × W → Type 0
  Booted (some (snap, mem)) s s' = Restore sh now_nanos from_str t snap mem s s'
  Booted none s s' = ColdBoot s s'

  prepared-Booted :
      (o : Option (String × String)) (s s1 s2 : Cells N × W) {u v : Unit {0}} {s' : Cells N × W}
      → Runs sh (launch_cmd t ∷ []) s s1
      → Firecracker.prepare sh now_nanos from_str t o s1 ≡ (ok u, s2)
      → Firecracker.boot sh now_nanos from_str t o s2 ≡ (ok v, s')
      → Booted o s s'
  prepared-Booted (some (snap, mem)) s s1 s2 launched h q =
      subst (Restore sh now_nanos from_str t snap mem s) (same_value q).1
        (restore-Restore sh now_nanos from_str t snap mem s s1 launched h)
  prepared-Booted none s s1 s2 launched h q = cold-ColdBoot s s1 s2 launched h q

  -- When the provision and the start of a firecracker target succeed, the machine ran these commands,
  -- each with success, one behind the other and no other between them. For a restore: the launch, the
  -- mount of the stream if there is a source, the `pre_restore` unless it is blank, the prefetch if
  -- there is a source and it is asked for, the handler of a Uffd backend, which is then given, and the
  -- load of the snapshot. For a cold boot: the launch, the machine, boot and drive settings, for a tap
  -- its addition, the reading of its number and its attachment, and the start of the instance. The last
  -- command stands between two readings of the clock, which are the times of a new last span,
  -- `restore.resume_to_steady` or `boot.vmm_ready`; the number that is kept for a tap is what the
  -- machine answered, read as a `u32`; the other cells are as before.
  pub start-Booted :
      (s : Cells N × W)
      → Ensures
          (λ _ s'. Booted t.from_snapshot s s')
          (λ _. Unit)
          ((Firecracker.provision sh now_nanos from_str t
              >> Firecracker.start sh now_nanos from_str t)
            s)
  unfolding Firecracker.provision Firecracker.start
  start-Booted s =
      ok-Ensures (λ _. Booted t.from_snapshot s) _
        λ u s' h.
          let (_, s2, e2, q) = bind-ok (Firecracker.provision sh now_nanos from_str t) _ s h in
          let (_, s1, e1, h1) =
            bind-ok (Firecracker.run sh now_nanos from_str t (launch_cmd t)) _ s e2 in
          prepared-Booted t.from_snapshot s s1 s2 (run-Runs sh (launch_cmd t) s e1) h1 q
