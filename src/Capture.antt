-- ===== src/Capture.antt =====
-- crates/orchestrate/src/capture.rs: the launches of the capture gadgets, and the window that they share.
pub mod Plan
pub mod Window
use assayist.Common.{ok, List, [], ◌∷◌, ◌++◌}
use assayist.Contract.{Fragment}
use assayist.Effects.{Action, done_with, ◌>>=◌, ◌>>◌, or_clean}
use assayist.Capture.Plan.{GadgetInvocation}

-- `GadgetRunner`, over the state `W` of the operating system
pub record GadgetRunner (W N : Type 0) : Type 1 where
  pub Handle : Type 0
  pub spawn : GadgetInvocation → Action W Handle
  pub wait : GadgetInvocation → Handle → Action W (Fragment N)
  pub kill : Handle → W → W

module _ {W N : Type 0} (runner : GadgetRunner W N) where
  open runner use {Handle, spawn, wait, kill}

  abbrev pub kill_all : List Handle → W → W
  kill_all [] w = w
  kill_all (h ∷ hs) w = kill_all hs (kill h w)

  abbrev pub killing : List Handle → Action W (Unit {0})
  killing handles w = (ok tt, kill_all handles w)

  -- the first loop: a failure kills what was started
  unfoldable pub spawn_all : List GadgetInvocation → List Handle → Action W (List Handle)
  spawn_all [] handles = done_with handles
  spawn_all (inv ∷ plan) handles = do
    h ← or_clean (spawn inv) (killing handles)
    spawn_all plan (handles ++ h ∷ [])

  -- the second loop
  unfoldable pub wait_all :
      List GadgetInvocation → List Handle → List (Fragment N) → Action W (List (Fragment N))
  wait_all (inv ∷ plan) (h ∷ handles) fragments = do
    f ← wait inv h
    wait_all plan handles (fragments ++ f ∷ [])
  wait_all plan handles fragments = done_with fragments

  unfoldable pub capture : List GadgetInvocation → Action W (List (Fragment N))
  capture plan = do handles ← spawn_all plan []; wait_all plan handles []
