-- ===== src/Stats/Shuffle.antt =====
-- The Fisher-Yates shuffle inside `permutation_p` of crates/gate/src/stats.rs.
use mathlib.Core.List.{Perm}
use mathlib.Core.List.Perm
use mathlib.Core.Option.{some-injective}
use assayist.Common.{
  ℕ, zero, suc, ◌+◌, ◌-◌, ◌<◌, ◌≡◌, refl, List, [], ◌∷◌, Option, some, arith, length, set,
  get_elem?, length-set, and_then, map_option, ◌∙◌,
}
use assayist.Stats.Rng.{SplitMix64, below, below-lt}

module _ {ℓ} {A : Type ℓ} where
  -- `pool.swap(i, j)`, which panics on an index out of bounds
  unfoldable pub swap : ℕ → ℕ → List A → Option (List A)
  swap i j pool =
      and_then (get_elem? pool i) λ a. map_option (λ b. set (set pool i b) j a) (get_elem? pool j)

  -- `for i in (1..n).rev()`, with `i` the rounds left
  unfoldable pub shuffle_down : ℕ → List A → SplitMix64 → Option (List A × SplitMix64)
  shuffle_down zero pool rng = some (pool, rng)
  shuffle_down (suc i) pool rng =
      let (j, rng') = below (suc i + 1) rng in
      and_then (swap (suc i) j pool) λ pool'. shuffle_down i pool' rng'

  unfoldable pub shuffle : List A → SplitMix64 → Option (List A × SplitMix64)
  shuffle pool rng = shuffle_down (length pool - 1) pool rng

  get_elem?_total : (xs : List A) (i : ℕ) → i < length xs → (a : A) × (get_elem? xs i ≡ some a)
  get_elem?_total [] i h = elim h [ ]
  get_elem?_total (x ∷ xs) zero h = (x, refl)
  get_elem?_total (x ∷ xs) (suc i) h = get_elem?_total xs i (omega arith)

  -- A write takes the old element out of the list, as a bag, and puts the new one in.
  set-perm :
      (xs : List A) (i : ℕ) (a v : A) → get_elem? xs i ≡ some a → Perm (v ∷ xs) (a ∷ set xs i v)
  set-perm [] i a v e = cc
  set-perm (x ∷ xs) zero a v e = rw (some-injective _ _ e) (Perm.swap a v xs)
  set-perm (x ∷ xs) (suc i) a v e =
      Perm.trans (Perm.swap x v xs)
        (Perm.trans (Perm.cons x (set-perm xs i a v e)) (Perm.swap a x (set xs i v)))

  -- The second index still reads the value that the first write has put there or left alone.
  get_elem?-set :
      (xs : List A) (i j : ℕ) (b : A)
      → get_elem? xs j ≡ some b
      → i < length xs
      → get_elem? (set xs i b) j ≡ some b
  get_elem?-set [] i j b e h = cc
  get_elem?-set (x ∷ xs) zero zero b e h = refl
  get_elem?-set (x ∷ xs) zero (suc j) b e h = e
  get_elem?-set (x ∷ xs) (suc i) zero b e h = e
  get_elem?-set (x ∷ xs) (suc i) (suc j) b e h = get_elem?-set xs i j b e (omega arith)

  -- A swap inside the bounds succeeds, and permutes.
  pub swap_lem :
      (i j : ℕ) (pool : List A)
      → i < length pool
      → j < length pool
      → (out : List A) × (swap i j pool ≡ some out) × Perm pool out × (length out ≡ length pool)
  unfolding swap
  swap_lem i j pool hi hj =
      let (a, ea) = get_elem?_total pool i hi in
      let (b, eb) = get_elem?_total pool j hj in
      let first = set-perm pool i a b ea in
      let second = set-perm (set pool i b) j b a (get_elem?-set pool i j b eb hi) in
      (
        set (set pool i b) j a,
        rw (ea, eb),
        Perm.cons_inv (Perm.trans first second),
        length-set (set pool i b) j a ∙ length-set pool i b,
      )

  shuffle_down_lem :
      (i : ℕ) (pool : List A) (rng : SplitMix64)
      → i < suc (length pool - 1)
      → (out : List A) × (rng' : SplitMix64) × (shuffle_down i pool rng ≡ some (out, rng'))
        × Perm pool out
        × (length out ≡ length pool)
  unfolding shuffle_down
  shuffle_down_lem zero pool rng h = (pool, rng, refl, Perm.refl pool, refl)
  shuffle_down_lem (suc i) pool rng h =
      let (j, rng') = below (suc i + 1) rng in
      let (pool', e, perm, len) =
        swap_lem (suc i) j pool (omega arith) (omega (arith, below-lt (suc i + 1) rng)) in
      let (out, last, e', perm', len') = shuffle_down_lem i pool' rng' (omega arith) in
      (out, last, rw e e', Perm.trans perm perm', len' ∙ len)

  -- A shuffle of any pool ends without a panic, in a permutation of the pool.
  pub shuffle-Perm :
      (pool : List A) (rng : SplitMix64)
      → (out : List A) × (rng' : SplitMix64) × (shuffle pool rng ≡ some (out, rng'))
        × Perm pool out
        × (length out ≡ length pool)
  unfolding shuffle
  shuffle-Perm pool rng = shuffle_down_lem (length pool - 1) pool rng (omega arith)
