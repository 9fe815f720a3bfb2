-- ===== src/Effects.antt =====
-- Calls that act on a state and return a `Result`: what the orchestrator's functions are made of.
pub mod Triples
pub mod Frames
pub mod Chains
use assayist.Common.{String, Exec, ok, err, panic}

module _ (S : Type 0) where
  abbrev pub Action : Type 0 → Type 0
  Action A = S → Exec A × S

module _ {S : Type 0} where
  abbrev pub done_with : {A : Type 0} → A → Action S A
  done_with a s = (ok a, s)

  abbrev pub fail : {A : Type 0} → String → Action S A
  fail e s = (err e, s)

  abbrev pub continue : {A B : Type 0} → Exec A × S → (A → Action S B) → Exec B × S
  continue (ok a, s) next = next a s
  continue (err e, s) next = (err e, s)
  continue (panic, s) next = (panic, s)

  infixl 5 ◌>>=◌ ◌>>◌
  -- `?`
  abbrev pub ◌>>=◌ : {A B : Type 0} → Action S A → (A → Action S B) → Action S B
  ◌>>=◌ act next s = continue (act s) next

  abbrev pub ◌>>◌ : {A B : Type 0} → Action S A → Action S B → Action S B
  ◌>>◌ act next = act >>= λ _. next

  abbrev pub held : {A : Type 0} → Exec A × S → Exec (Exec A) × S
  held (ok a, s) = (ok (ok a), s)
  held (err e, s) = (ok (err e), s)
  held (panic, s) = (panic, s)

  -- `let r = ..`, with no `?`: the result is kept, and a panic goes on
  abbrev pub attempt : {A : Type 0} → Action S A → Action S (Exec A)
  attempt act s = held (act s)

  -- `let _ = ..`
  abbrev pub ignore : {A : Type 0} → Action S A → Action S (Unit {0})
  ignore act = attempt act >>= λ _. done_with tt

  -- a result as the result of the action
  abbrev pub finish : {A : Type 0} → Exec A → Action S A
  finish r s = (r, s)

  abbrev pub after_error : {A : Type 0} → Action S (Unit {0}) → Exec A → Action S A
  after_error cleanup (ok a) = done_with a
  after_error cleanup (err e) = cleanup >> fail e
  after_error cleanup panic = finish panic

  -- `if let Err(e) = .. { cleanup; return Err(e); }`
  abbrev pub or_clean : {A : Type 0} → Action S A → Action S (Unit {0}) → Action S A
  or_clean act cleanup = attempt act >>= after_error cleanup
