-- ===== src/Stats/Permutation/Range.antt =====
-- The p-value as a fraction of permutations, and its range.
use mathlib.Core.List.{Perm}
use native.Mathlib.Nat.{zero-add}
use assayist.Common.{
  ℕ, ◌<◌, ◌≡◌, refl, false, ◌||◌, ◌==◌, List, [], ◌∷◌, ◌++◌, some, arith, length, All, is_empty,
}
use assayist.Platform.{Platform}
use assayist.Stats.Rng.{new}
use assayist.Stats.Moments.{mean}
use assayist.Stats.Permutation.{count, resample_lem, permutation_p, is_extreme, smoothed}

module _ ⦃p : Platform⦄ where
  open p use {F, add, sub, div, abs, le, lt, of_ℕ, decimal}

  runs : (a b : List F) → 0 < length a → 0 < length b → (length a == 0 || is_empty b) ≡ false
  runs a [] ha hb = absurd (omega arith)
  runs a (y ∷ b) ha hb = ground arith

  -- The p-value of two groups that are not empty is (k + 1) / (resamples + 1), where k counts the
  -- draws, out of `resamples` permutations of the pooled values, whose groups lie at least as far apart
  -- as the observed ones, up to the epsilon. No index is out of bounds on the way.
  pub permutation_p-fraction :
      (a b : List F) (resamples seed : ℕ)
      → 0 < length a
      → 0 < length b
      → (draws : List (List F)) × (length draws ≡ resamples)
        × All (Perm (a ++ b)) draws
        × (permutation_p a b resamples seed
            ≡ some (
                smoothed
                  (count (is_extreme (length a) (abs (sub (mean b) (mean a)))) draws)
                  resamples))
  unfolding permutation_p
  permutation_p-fraction a b resamples seed ha hb =
      let observed = abs (sub (mean b) (mean a)) in
      let (draws, n, perms, e) = resample_lem (length a) observed resamples (a ++ b) (new seed) 0 in
      let skip = runs a b ha hb in (draws, n, perms, rw (skip, e, zero-add) refl)
