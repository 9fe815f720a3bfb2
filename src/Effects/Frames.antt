-- ===== src/Effects/Frames.antt =====
-- What an action that returns a value does to the state, as a relation of the state before and behind it.
use assayist.Common.{Exec, ok, err, panic}
use assayist.Effects.{Action, continue, done_with, finish, ◌>>=◌}
use assayist.Effects.Triples.{Ensures}

module _ {S : Type 0} where
  -- of an error nothing is said
  pub record Does (R : S → S → Type 0) {A : Type 0} (act : Action S A) : Type 0 where
    pub does : (s : S) → Ensures (λ _ s'. R s s') (λ _. Unit) (act s)

  module _ {A B : Type 0} {R Q P : S → S → Type 0} where
    pub bind-Does :
        {act : Action S A} {next : A → Action S B}
        → Does R act
        → ((a : A) → Does Q (next a))
        → ((s s' s'' : S) → R s s' → Q s' s'' → P s s'')
        → Does P (act >>= next)
    bind-Does {act = act} {next = next} d k compose = record {
      does = λ s. bound s (act s) (d.does s);
    }
      where
        behind :
            (s s' : S) (r : Exec B × S)
            → R s s'
            → Ensures (λ _ s''. Q s' s'') (λ _. Unit) r
            → Ensures (λ _ s''. P s s'') (λ _. Unit) r
        behind s s' (ok b, s'') h q = compose s s' s'' h q
        behind s s' (err e, s'') h q = tt
        behind s s' (panic, s'') h q = tt

        bound :
            (s : S) (r : Exec A × S)
            → Ensures (λ _ s'. R s s') (λ _. Unit) r
            → Ensures (λ _ s''. P s s'') (λ _. Unit) (continue r next)
        bound s (ok a, s') h = behind s s' (next a s') h ((k a).does s')
        bound s (err e, s') h = tt
        bound s (panic, s') h = tt

  module _ {A : Type 0} where
    pub done_with-Does : {R : S → S → Type 0} (a : A) → ((s : S) → R s s) → Does R (done_with a)
    done_with-Does a same = record { does = same }

    pub finish-Does : {R : S → S → Type 0} (r : Exec A) → ((s : S) → R s s) → Does R (finish r)
    finish-Does {R = R} r same = record { does = λ s. by_result s r }
      where
        by_result : (s : S) (r : Exec A) → Ensures (λ _ s'. R s s') (λ _. Unit) (finish r s)
        by_result s (ok a) = same s
        by_result s (err e) = tt
        by_result s panic = tt

    pub weaken-Does :
        {R Q : S → S → Type 0} {act : Action S A}
        → Does R act
        → ((s s' : S) → R s s' → Q s s')
        → Does Q act
    weaken-Does {R = R} {Q = Q} {act = act} d h = record {
      does = λ s. by_result s (act s) (d.does s);
    }
      where
        by_result :
            (s : S) (x : Exec A × S)
            → Ensures (λ _ s'. R s s') (λ _. Unit) x
            → Ensures (λ _ s'. Q s s') (λ _. Unit) x
        by_result s (ok a, s') r = h s s' r
        by_result s (err e, s') r = tt
        by_result s (panic, s') r = tt

    -- under a condition on the state, no value is returned
    pub under-Ensures :
        (H : Type 0) (x : Exec A × S)
        → (H → Ensures (λ _ _. ⊥) (λ _. Unit) x)
        → Ensures (λ _ _. H → ⊥) (λ _. Unit) x
    under-Ensures H (ok a, s) h = h
    under-Ensures H (err e, s) h = tt
    under-Ensures H (panic, s) h = tt
