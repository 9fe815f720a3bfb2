-- ===== src/Native/Cells.antt =====
-- What a call does to the cells of a target of crates/orchestrate/src/native.rs.
use mathlib.Core.Path.{subst}
use assayist.Common.{Exec, ok, err, panic, ◌≡◌, refl, ◌∙◌}
use assayist.Effects.{Action, ◌>>=◌}
use assayist.Effects.Triples.{Ensures}
use assayist.Effects.Frames.{Does, bind-Does}
use assayist.Native.{on_machine, moved, reading, change}

module _ {C W : Type 0} where
  -- the cells are as before
  abbrev pub Kept : C × W → C × W → Type 0
  Kept s s' = s'.0 ≡ s.0

  pub on_machine-Kept : {A : Type 0} (act : Action W A) → Does Kept (on_machine act)
  on_machine-Kept {A = A} act = record { does = λ s. by_result s.0 (act s.1) }
    where
      by_result : (c : C) (x : Exec A × W) → Ensures (λ _ s'. s'.0 ≡ c) (λ _. Unit) (moved c x)
      by_result c (ok a, w) = refl
      by_result c (err e, w) = tt
      by_result c (panic, w) = tt

  pub reading-Kept : {A : Type 0} (read : W → A × W) → Does Kept (reading read)
  reading-Kept read = record { does = λ s. refl }

  -- calls that keep the cells, one behind the other
  pub bind-Kept :
      {A B : Type 0} {act : Action (C × W) A} {next : A → Action (C × W) B}
      → Does Kept act
      → ((a : A) → Does Kept (next a))
      → Does Kept (act >>= next)
  bind-Kept d k = bind-Does d k (λ s s' s'' h q. q ∙ h)

  -- calls that keep the cells in front of others
  pub behind-Kept :
      {A B : Type 0} (R : C → C → Type 0) {act : Action (C × W) A} {next : A → Action (C × W) B}
      → Does Kept act
      → ((a : A) → Does (λ s s'. R s.0 s'.0) (next a))
      → Does (λ s s'. R s.0 s'.0) (act >>= next)
  behind-Kept R d k = bind-Does d k (λ s s' s'' h q. subst (λ c. R c s''.0) h q)

  pub change-Does :
      (R : C → C → Type 0) (f : C → C)
      → ((c : C) → R c (f c))
      → Does (λ s s'. R s.0 s'.0) (change {W = W} f)
  change-Does R f h = record { does = λ s. h s.0 }
