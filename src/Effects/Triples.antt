-- ===== src/Effects/Triples.antt =====
-- What an action ensures, and the rule of each combinator.
use assayist.Common.{String, Exec, ok, err, panic}
use assayist.Effects.{Action, continue, held, after_error, done_with, fail, ◌>>=◌, ignore, or_clean}

module _ {S : Type 0} where
  -- a value and the state behind it satisfy `Q`, an error's state `E`; of a panic nothing is said
  abbrev pub Ensures : {A : Type 0} → (A → S → Type 0) → (S → Type 0) → Exec A × S → Type 0
  Ensures Q E (ok a, s) = Q a s
  Ensures Q E (err e, s) = E s
  Ensures Q E (panic, s) = Unit

  module _ {A B : Type 0} where
    pub bind-Ensures :
        (act : Action S A) (next : A → Action S B) (Q : A → S → Type 0) (R : B → S → Type 0)
        (E : S → Type 0) (s : S)
        → Ensures Q E (act s)
        → ((a : A) (s' : S) → Q a s' → Ensures R E (next a s'))
        → Ensures R E ((act >>= next) s)
    bind-Ensures act next Q R E s h k = bound (act s) h
      where
        bound : (r : Exec A × S) → Ensures Q E r → Ensures R E (continue r next)
        bound (ok a, s') h = k a s' h
        bound (err e, s') h = h
        bound (panic, s') h = tt

  module _ {A : Type 0} where
    pub ignore-Ensures :
        (act : Action S A) (Q E : S → Type 0) (s : S)
        → Ensures (λ _. Q) Q (act s)
        → Ensures (λ _. Q) E (ignore act s)
    ignore-Ensures act Q E s h = ignored (act s) h
      where
        ignored :
            (r : Exec A × S)
            → Ensures (λ _. Q) Q r
            → Ensures (λ _. Q) E (continue (held r) (λ _. done_with tt))
        ignored (ok a, s') h = h
        ignored (err e, s') h = h
        ignored (panic, s') h = tt

    pub or_clean-Ensures :
        (act : Action S A) (cleanup : Action S (Unit {0})) (Q : A → S → Type 0) (F E : S → Type 0)
        (s : S)
        → Ensures Q F (act s)
        → ((s' : S) → F s' → Ensures (λ _. E) E (cleanup s'))
        → Ensures Q E (or_clean act cleanup s)
    or_clean-Ensures act cleanup Q F E s h k = cleaned (act s) h
      where
        failing :
            (e : String) (r : Exec (Unit {0}) × S)
            → Ensures (λ _. E) E r
            → Ensures Q E (continue r (λ _. fail e))
        failing e (ok u, s') h = h
        failing e (err d, s') h = h
        failing e (panic, s') h = tt

        cleaned :
            (r : Exec A × S) → Ensures Q F r → Ensures Q E (continue (held r) (after_error cleanup))
        cleaned (ok a, s') h = h
        cleaned (err e, s') h = failing e (cleanup s') (k s' h)
        cleaned (panic, s') h = tt
