-- ===== src/Native/Firecracker/Timing.antt =====
-- `timed` of crates/orchestrate/src/native.rs: a command between two readings of the clock.
use assayist.Common.{ℕ, String, [], ◌∷◌, ◌++◌, none, Exec, ok, ◌≡◌, refl}
use assayist.Json.{Value}
use assayist.Platform.{Platform}
use assayist.Effects.Chains.{same_value, bind-ok}
use assayist.Adapter.{Shell}
use assayist.Native.{span}
use assayist.Native.Answers.{run-Runs}
use assayist.Native.Firecracker
use assayist.Native.Firecracker.{Cells}
use assayist.Native.Firecracker.Commands.{FirecrackerTarget}

module _ ⦃p : Platform⦄ {W : Type 0} (sh : Shell W) (now_nanos : W → ℕ × W) where
  open p use {N}

  -- a command between two readings of the clock, kept as a span behind those that were there
  pub record Timed (name cmd : String) (s s' : Cells N × W) : Type 0 where
    pub from : ℕ
    pub till : ℕ
    pub out : String
    pub begun : W
    pub ended : W
    pub clock_before : now_nanos s.1 ≡ (from, begun)
    pub ran : sh cmd begun ≡ (ok out, ended)
    pub clock_behind : now_nanos ended ≡ (till, s'.1)
    pub cells_are : s'.0 ≡ record {
      tap_ifindex = s.0.tap_ifindex;
      spans = s.0.spans ++ span name none from till ∷ [];
      pinning = s.0.pinning;
    }

  module _ (from_str : String → Exec (Value N)) (t : FirecrackerTarget) where
    pub timed-Timed :
        (name cmd : String) (s : Cells N × W) {u : Unit {0}} {s' : Cells N × W}
        → Firecracker.timed sh now_nanos from_str t name cmd s ≡ (ok u, s')
        → Timed name cmd s s'
    unfolding Firecracker.timed
    timed-Timed name cmd s h =
        let (_, s2, e2, h2) =
          bind-ok (Firecracker.run sh now_nanos from_str t cmd) _ (s.0, (now_nanos s.1).1) h in
        let (kept, (out, mid, ran, at)) = run-Runs sh cmd (s.0, (now_nanos s.1).1) e2 in
        let same = (same_value h2).1 in
        record {
          from = (now_nanos s.1).0;
          till = (now_nanos s2.1).0;
          out = out;
          begun = (now_nanos s.1).1;
          ended = s2.1;
          clock_before = refl;
          ran = rw at ran;
          clock_behind = cc;
          cells_are = cc;
        }
