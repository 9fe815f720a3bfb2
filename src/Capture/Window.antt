-- ===== src/Capture/Window.antt =====
-- The launches and the waits of a capture.
use mathlib.Core.Path.{subst}
use assayist.Common.{
  List, [], ◌∷◌, ◌++◌, String, ◌≡◌, refl, ap, sym, ◌∙◌, Exec, ok, err, panic, append-nil,
  append_assoc, ◌⊎◌, inl, inr,
}
use assayist.Contract.{Fragment}
use assayist.Effects.{continue, held, after_error}
use assayist.Effects.Triples.{Ensures}
use assayist.Capture.Plan.{GadgetInvocation}
use assayist.Capture.{GadgetRunner, kill_all, killing, spawn_all, wait_all, capture}

module _ {W N : Type 0} (runner : GadgetRunner W N) where
  open runner use {Handle, spawn, wait, kill}

  -- every launch of a plan is started, in order
  pub data Spawned : List GadgetInvocation → W → List Handle → W → Type 0 where
    all_spawned : {w : W} → Spawned [] w [] w
    spawned :
        {inv : GadgetInvocation} {plan : List GadgetInvocation} {h : Handle} {hs : List Handle}
        {w w' w'' : W}
        → spawn inv w ≡ (ok h, w')
        → Spawned plan w' hs w''
        → Spawned (inv ∷ plan) w (h ∷ hs) w''

  -- every gadget is waited on, and its fragment kept
  pub data Waited : List GadgetInvocation → List Handle → W → List (Fragment N) → W → Type 0 where
    all_waited : {w : W} → Waited [] [] w [] w
    waited :
        {inv : GadgetInvocation} {plan : List GadgetInvocation} {h : Handle} {hs : List Handle}
        {f : Fragment N} {fs : List (Fragment N)} {w w' w'' : W}
        → wait inv h w ≡ (ok f, w')
        → Waited plan hs w' fs w''
        → Waited (inv ∷ plan) (h ∷ hs) w (f ∷ fs) w''

  -- a launch fails behind some that were started, and those are killed
  pub record FailedSpawn (plan : List GadgetInvocation) (before : List Handle) (w end : W)
      : Type 0 where
    pub started : List GadgetInvocation
    pub inv : GadgetInvocation
    pub rest : List GadgetInvocation
    pub handles : List Handle
    pub at : W
    pub behind : W
    pub e : String
    pub split : plan ≡ started ++ inv ∷ rest
    pub spawned_before : Spawned started w handles at
    pub failed : spawn inv at ≡ (err e, behind)
    pub killed : kill_all runner (before ++ handles) behind ≡ end

  -- a gadget fails behind some that gave their fragments
  pub record FailedWait (plan : List GadgetInvocation) (handles : List Handle) (w end : W)
      : Type 0 where
    pub done : List GadgetInvocation
    pub inv : GadgetInvocation
    pub rest : List GadgetInvocation
    pub done_handles : List Handle
    pub h : Handle
    pub rest_handles : List Handle
    pub fragments : List (Fragment N)
    pub at : W
    pub e : String
    pub split : plan ≡ done ++ inv ∷ rest
    pub split_handles : handles ≡ done_handles ++ h ∷ rest_handles
    pub waited_before : Waited done done_handles w fragments at
    pub failed : wait inv h at ≡ (err e, end)

  abbrev AfterSpawn : List GadgetInvocation → List Handle → W → List Handle → W → Type 0
  AfterSpawn plan before w all end =
      (hs : List Handle) × Spawned plan w hs end × (all ≡ before ++ hs)

  step_ok :
      (inv : GadgetInvocation) (plan : List GadgetInvocation) (before : List Handle) (h : Handle)
      (w w' : W) (x : Exec (List Handle) × W)
      → spawn inv w ≡ (ok h, w')
      → Ensures (AfterSpawn plan (before ++ h ∷ []) w') (FailedSpawn plan (before ++ h ∷ []) w') x
      → Ensures (AfterSpawn (inv ∷ plan) before w) (FailedSpawn (inv ∷ plan) before w) x
  step_ok inv plan before h w w' (ok all, end) e (hs, s, eq) =
      (h ∷ hs, spawned e s, eq ∙ append_assoc before (h ∷ []) hs)
  step_ok inv plan before h w w' (err m, end) e f = record {
    started = inv ∷ f.started;
    inv = f.inv;
    rest = f.rest;
    handles = h ∷ f.handles;
    at = f.at;
    behind = f.behind;
    e = f.e;
    split = ap (λ l. inv ∷ l) f.split;
    spawned_before = spawned e f.spawned_before;
    failed = f.failed;
    killed =
        ap (λ l. kill_all runner l f.behind) (sym (append_assoc before (h ∷ []) f.handles))
        ∙ f.killed;
  }
  step_ok inv plan before h w w' (panic, end) e f = tt

  spawn_all-Ensures :
      (plan : List GadgetInvocation) (before : List Handle) (w : W)
      → Ensures
          (AfterSpawn plan before w)
          (λ end. FailedSpawn plan before w end)
          (spawn_all runner plan before w)
  unfolding spawn_all
  spawn_all-Ensures [] before w = ([], all_spawned, sym (append-nil before))
  spawn_all-Ensures (inv ∷ plan) before w =
      first (spawn inv w) refl (λ h w'. spawn_all-Ensures plan (before ++ h ∷ []) w')
    where
      first :
          (x : Exec Handle × W)
          → spawn inv w ≡ x
          → ((h : Handle) (w' : W)
              → Ensures
                  (AfterSpawn plan (before ++ h ∷ []) w')
                  (FailedSpawn plan (before ++ h ∷ []) w')
                  (spawn_all runner plan (before ++ h ∷ []) w'))
          → Ensures (AfterSpawn (inv ∷ plan) before w) (FailedSpawn (inv ∷ plan) before w) (
              continue
                (continue (held x) (after_error (killing runner before)))
                (λ h. spawn_all runner plan (before ++ h ∷ [])))
      first (ok h, w') e ih = step_ok inv plan before h w w' _ e (ih h w')
      first (err m, w') e ih = record {
        started = [];
        inv = inv;
        rest = plan;
        handles = [];
        at = w;
        behind = w';
        e = m;
        split = refl;
        spawned_before = all_spawned;
        failed = e;
        killed = ap (λ l. kill_all runner l w') (append-nil before);
      }
      first (panic, w') e ih = tt

  abbrev AfterWait :
      List GadgetInvocation → List Handle → List (Fragment N) → W → List (Fragment N) → W → Type 0
  AfterWait plan hs before w all end =
      (fs : List (Fragment N)) × Waited plan hs w fs end × (all ≡ before ++ fs)

  wait_ok :
      (inv : GadgetInvocation) (plan : List GadgetInvocation) (h : Handle) (hs : List Handle)
      (before : List (Fragment N)) (f : Fragment N) (w w' : W) (x : Exec (List (Fragment N)) × W)
      → wait inv h w ≡ (ok f, w')
      → Ensures (AfterWait plan hs (before ++ f ∷ []) w') (FailedWait plan hs w') x
      → Ensures (AfterWait (inv ∷ plan) (h ∷ hs) before w) (FailedWait (inv ∷ plan) (h ∷ hs) w) x
  wait_ok inv plan h hs before f w w' (ok all, end) e (fs, s, eq) =
      (f ∷ fs, waited e s, eq ∙ append_assoc before (f ∷ []) fs)
  wait_ok inv plan h hs before f w w' (err m, end) e bad = record {
    done = inv ∷ bad.done;
    inv = bad.inv;
    rest = bad.rest;
    done_handles = h ∷ bad.done_handles;
    h = bad.h;
    rest_handles = bad.rest_handles;
    fragments = f ∷ bad.fragments;
    at = bad.at;
    e = bad.e;
    split = ap (λ l. inv ∷ l) bad.split;
    split_handles = ap (λ l. h ∷ l) bad.split_handles;
    waited_before = waited e bad.waited_before;
    failed = bad.failed;
  }
  wait_ok inv plan h hs before f w w' (panic, end) e bad = tt

  wait_all-Ensures :
      {plan : List GadgetInvocation} {hs : List Handle} {w₀ w₁ : W} (before : List (Fragment N))
      (w : W)
      → Spawned plan w₀ hs w₁
      → Ensures
          (AfterWait plan hs before w)
          (FailedWait plan hs w)
          (wait_all runner plan hs before w)
  unfolding wait_all
  wait_all-Ensures before w all_spawned = ([], all_waited, sym (append-nil before))
  wait_all-Ensures before w (spawned {inv = inv} {plan = plan} {h = h} {hs = hs} e s) =
      first (wait inv h w) refl (λ f w'. wait_all-Ensures (before ++ f ∷ []) w' s)
    where
      first :
          (x : Exec (Fragment N) × W)
          → wait inv h w ≡ x
          → ((f : Fragment N) (w' : W)
              → Ensures
                  (AfterWait plan hs (before ++ f ∷ []) w')
                  (FailedWait plan hs w')
                  (wait_all runner plan hs (before ++ f ∷ []) w'))
          → Ensures
              (AfterWait (inv ∷ plan) (h ∷ hs) before w)
              (FailedWait (inv ∷ plan) (h ∷ hs) w)
              (continue x (λ f. wait_all runner plan hs (before ++ f ∷ [])))
      first (ok f, w') e ih = wait_ok inv plan h hs before f w w' _ e (ih f w')
      first (err m, w') e ih = record {
        done = [];
        inv = inv;
        rest = plan;
        done_handles = [];
        h = h;
        rest_handles = hs;
        fragments = [];
        at = w;
        e = m;
        split = refl;
        split_handles = refl;
        waited_before = all_waited;
        failed = e;
      }
      first (panic, w') e ih = tt

  -- the window of a capture that returned its fragments
  abbrev pub Observed : List GadgetInvocation → W → List (Fragment N) → W → Type 0
  Observed plan w fragments end =
      (hs : List Handle) × (open_at : W) × Spawned plan w hs open_at
      × Waited plan hs open_at fragments end

  -- how a capture fails
  abbrev pub Failed : List GadgetInvocation → W → W → Type 0
  Failed plan w end =
      FailedSpawn plan [] w end
      ⊎ ((hs : List Handle) × (open_at : W) × Spawned plan w hs open_at
          × FailedWait plan hs open_at end)

  -- A capture that returns fragments started every gadget of the plan in order and then waited on every
  -- one, with one fragment for each. A capture that returns an error failed at a launch, and then
  -- killed the gadgets that were started before it, or failed at a wait behind the start of every
  -- gadget.
  pub capture-Ensures :
      (plan : List GadgetInvocation) (w : W)
      → Ensures (Observed plan w) (Failed plan w) (capture runner plan w)
  unfolding capture
  capture-Ensures plan w = opened (spawn_all runner plan [] w) (spawn_all-Ensures plan [] w)
    where
      closed :
          (hs : List Handle) (at : W) (x : Exec (List (Fragment N)) × W)
          → Spawned plan w hs at
          → Ensures (AfterWait plan hs [] at) (FailedWait plan hs at) x
          → Ensures (Observed plan w) (Failed plan w) x
      closed hs at (ok all, end) s (fs, t, eq) =
          (hs, at, s, subst (λ l. Waited plan hs at l end) (sym eq) t)
      closed hs at (err m, end) s bad = inr (hs, at, s, bad)
      closed hs at (panic, end) s bad = tt

      opened :
          (x : Exec (List Handle) × W)
          → Ensures (AfterSpawn plan [] w) (FailedSpawn plan [] w) x
          → Ensures
              (Observed plan w)
              (Failed plan w)
              (continue x (λ hs. wait_all runner plan hs []))
      opened (ok all, at) (hs, s, eq) =
          subst (λ l. Ensures (Observed plan w) (Failed plan w) (wait_all runner plan l [] at))
            (sym eq) (closed hs at (wait_all runner plan hs [] at) s (wait_all-Ensures [] at s))
      opened (err m, end) bad = inl bad
      opened (panic, end) bad = tt
