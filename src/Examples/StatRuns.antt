-- ===== src/Examples/StatRuns.antt =====
-- The statistics and the reduction on small inputs.
use mathlib.Core.List.{Perm}
use mathlib.Core.List.Permᴰ.{swap}
use assayist.Common.{
  ℕ, ◌+◌, ◌<◌, List, [], ◌∷◌, ◌++◌, none, some, ◌≡◌, ◌≢◌, ◌↔◌, refl, arith, length, All,
}
use assayist.Json.{object, done, field, string, Fields}
use assayist.Stats.Rng.{new, SplitMix64}
use assayist.Stats.Moments.{mean, sum}
use assayist.Stats.Shuffle.{shuffle, shuffle-Perm}
use assayist.Stats.Permutation.{permutation_p, smoothed, count, is_extreme}
use assayist.Stats.Permutation.Range.{permutation_p-fraction}
use assayist.Stats.Histogram.{total, log2_percentile, log2_mid}
use assayist.Stats.Histogram.Search.{log2_percentile-Selected, Selected}
use assayist.Reduce.Series.{explicit_estimates}
use assayist.Reduce.Explicit.{explicit_estimates_panic_iff}
use assayist.Reduce.Labels.{labels_suffix}
use assayist.Reduce.LabelOrder.{labels_suffix-perm}
use assayist.Examples.Fixed.{Fixed, pos, whole, fixed_platform}

abbrev low : List Fixed
low = whole 1 ∷ whole 2 ∷ []

abbrev high : List Fixed
high = whole 5 ∷ whole 6 ∷ []

permutation_p-fraction_example :
    (draws : List (List Fixed)) × (length draws ≡ 4)
    × All (Perm (low ++ high)) draws
    × (permutation_p low high 4 7 ≡ some (smoothed (count (is_extreme 2 (pos 4000000)) draws) 4))
unfolding mean sum
permutation_p-fraction_example = permutation_p-fraction low high 4 7 (omega arith) (omega arith)

shuffle-Perm_example :
    (out : List ℕ) × (rng' : SplitMix64) × (shuffle (1 ∷ 2 ∷ 3 ∷ []) (new 9) ≡ some (out, rng'))
    × Perm (1 ∷ 2 ∷ 3 ∷ []) out
    × (length out ≡ 3)
shuffle-Perm_example = shuffle-Perm (1 ∷ 2 ∷ 3 ∷ []) (new 9)

log2_percentile-Selected_example :
    (i : ℕ) × (log2_percentile (0 ∷ 3 ∷ 5 ∷ []) (pos 500000) ≡ log2_mid i)
    × Selected (pos 4000000) (0 ∷ 3 ∷ 5 ∷ []) i
log2_percentile-Selected_example =
    log2_percentile-Selected (0 ∷ 3 ∷ 5 ∷ []) (pos 500000) (omega arith) (omega arith)

explicit_estimates_panic_iff_example :
    (explicit_estimates (1 ∷ 2 ∷ 3 ∷ []) (whole 10 ∷ []) ≡ none)
    ↔ ((total (1 ∷ 2 ∷ 3 ∷ []) ≢ 0) × (1 + 1 < 3))
explicit_estimates_panic_iff_example = explicit_estimates_panic_iff (1 ∷ 2 ∷ 3 ∷ []) (whole 10 ∷ [])

abbrev forward : Fields Fixed
forward = field "backend" (string "tap") (field "vm_id" (string "7") done)

abbrev backward : Fields Fixed
backward = field "vm_id" (string "7") (field "backend" (string "tap") done)

labels_suffix-perm_example :
    labels_suffix (some (object forward)) ≡ labels_suffix (some (object backward))
labels_suffix-perm_example =
    labels_suffix-perm forward backward ((λ e. cc, tt), (tt, tt)) ∣ swap refl refl ∣₁
