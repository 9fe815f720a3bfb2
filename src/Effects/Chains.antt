-- ===== src/Effects/Chains.antt =====
-- What is known of each part of a chain of calls that returned a value.
use assayist.Common.{Exec, ok, err, panic, ◌≡◌, refl}
use assayist.Effects.{Action, continue, finish, ◌>>=◌}
use assayist.Effects.Triples.{Ensures}

module _ {S A : Type 0} where
  pub same_value :
      {a b : A} {s s' : S} → ◌≡◌ {A = Exec A × S} (ok a, s) (ok b, s') → (a ≡ b) × (s ≡ s')
  same_value h = (cc, cc)

  pub same_result :
      {r : Exec A} {b : A} {s s' : S} → finish r s ≡ (ok b, s') → (r ≡ ok b) × (s ≡ s')
  same_result h = (cc, cc)

  -- of a chain that returns a value, each part did
  pub bind-ok :
      {B : Type 0} (act : Action S A) (next : A → Action S B) (s : S) {b : B} {s'' : S}
      → (act >>= next) s ≡ (ok b, s'')
      → (a : A) × (s' : S) × (act s ≡ (ok a, s')) × (next a s' ≡ (ok b, s''))
  bind-ok {B = B} act next s {b = b} {s'' = s''} h = by_result (act s) refl h
    where
      by_result :
          (x : Exec A × S)
          → act s ≡ x
          → continue x next ≡ (ok b, s'')
          → (a : A) × (s' : S) × (act s ≡ (ok a, s')) × (next a s' ≡ (ok b, s''))
      by_result (ok a, s') e h = (a, s', e, h)
      by_result (err d, s') e h = cc
      by_result (panic, s') e h = cc

  pub ok-Ensures :
      (Q : A → S → Type 0) (x : Exec A × S)
      → ((a : A) (s : S) → x ≡ (ok a, s) → Q a s)
      → Ensures Q (λ _. Unit) x
  ok-Ensures Q (ok a, s) h = h a s refl
  ok-Ensures Q (err e, s) h = tt
  ok-Ensures Q (panic, s) h = tt
