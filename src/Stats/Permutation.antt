-- ===== src/Stats/Permutation.antt =====
-- `permutation_p` of crates/gate/src/stats.rs.
pub mod Range
use mathlib.Core.List.{Perm}
use mathlib.Core.List.Perm
use assayist.Common.{
  ℕ, zero, suc, ◌+◌, ◌≤◌, ◌<◌, ◌≡◌, refl, Bool, true, false, ◌||◌, List, [], ◌∷◌, ◌++◌, Option,
  none, some, arith, length, is_empty, take, drop, All, map_option, and_then, if◌then◌else◌, ◌==◌,
  ap, ◌∙◌, ◌∙◌,
}
use assayist.Platform.{Platform}
use assayist.Stats.Rng.{SplitMix64, new}
use assayist.Stats.Moments.{mean, zero_f, one_f}
use assayist.Stats.Shuffle.{shuffle, shuffle-Perm}

-- how many elements pass a test
abbrev pub count {ℓ} : {A : Type ℓ} → (A → Bool) → List A → ℕ
count test [] = 0
count test (x ∷ xs) = (if test x then 1 else 0) + count test xs

module _ ⦃p : Platform⦄ where
  open p use {F, add, sub, div, abs, le, lt, of_ℕ, decimal}

  abbrev pub eps : F
  eps = decimal 1 12

  -- the distance of the group means when the first `na` values are group A
  unfoldable pub mean_distance : ℕ → List F → F
  mean_distance na pool = abs (sub (mean (drop na pool)) (mean (take na pool)))

  abbrev pub is_extreme : ℕ → F → List F → Bool
  is_extreme na observed pool = le observed (add (mean_distance na pool) eps)

  -- the loop over the resamples, which shuffles one pool again and again
  unfoldable pub resample : ℕ → F → ℕ → List F → SplitMix64 → ℕ → Option ℕ
  resample na observed zero pool rng count = some count
  resample na observed (suc rounds) pool rng count = and_then (shuffle pool rng) λ (pool', rng').
      resample na observed rounds pool' rng'
        (if is_extreme na observed pool' then count + 1 else count)

  abbrev pub smoothed : ℕ → ℕ → F
  smoothed count resamples = div (add (of_ℕ count) one_f) (add (of_ℕ resamples) one_f)

  -- `none` is a panic.
  unfoldable pub permutation_p : List F → List F → ℕ → ℕ → Option F
  permutation_p a b resamples seed =
      let na = length a in
      let observed = abs (sub (mean b) (mean a)) in
      if na == 0 || is_empty b
      then some one_f
      else map_option (λ count. smoothed count resamples)
          (resample na observed resamples (a ++ b) (new seed) 0)

  resample_lem :
      (na : ℕ) (observed : F) (rounds : ℕ) (pool : List F) (rng : SplitMix64) (k : ℕ)
      → (draws : List (List F)) × (length draws ≡ rounds)
        × All (Perm pool) draws
        × (resample na observed rounds pool rng k ≡ some (k + count (is_extreme na observed) draws))
  unfolding resample
  resample_lem na observed zero pool rng k = ([], refl, tt, ap some (omega arith))
  resample_lem na observed (suc rounds) pool rng k =
      let (pool', rng', e, perm, len) = shuffle-Perm pool rng in
      let k' = if is_extreme na observed pool' then k + 1 else k in
      let (draws, n, perms, e') = resample_lem na observed rounds pool' rng' k' in
      (
        pool' ∷ draws,
        ap suc n,
        (perm, All-trans pool perm draws perms),
        rw e (e' ∙ ap some (ground arith)),
      )
    where
      All-trans :
          (pool : List F) {pool' : List F}
          → Perm pool pool'
          → (l : List (List F)) → All (Perm pool') l
          → All (Perm pool) l
      All-trans pool h [] a = tt
      All-trans pool h (x ∷ xs) a = (Perm.trans h a.0, All-trans pool h xs a.1)
