-- ===== src/Stats/Histogram.antt =====
-- The estimates of crates/gate/src/stats.rs from bucket counts. Counts are `u64`; the arithmetic is that
-- of a release build, which wraps (and masks the shift of `1u64 << i`).
pub mod Search
use assayist.Common.{
  ℕ, zero, suc, ◌+◌, ◌-◌, ◌%◌, ◌^◌, ◌≤◌, ◌<◌, ◌≡◌, refl, Bool, true, false, List, [], ◌∷◌, Option,
  none, some, arith, length, get_elem?, map_option, and_then, unwrap_or, if◌then◌else◌, ◌==◌, ltb,
  ap, foldl,
}
use assayist.Platform.{Platform}
use assayist.Stats.Rng.{u64_mod}
use assayist.Stats.Moments.{zero_f}

-- `buckets.iter().sum()` over `u64`
unfoldable pub total : List ℕ → ℕ
total = foldl (λ s b. (s + b) % u64_mod) 0

-- `1u64 << i`
abbrev pub one_shl : ℕ → ℕ
one_shl i = 2 ^ (i % 64)

module _ ⦃p : Platform⦄ where
  open p use {F, add, mul, div, le, of_ℕ, decimal}

  -- the loop that `log2_percentile` and `explicit_percentile` share: the index of the first bucket, from
  -- `i` on, where the running count `cum` reaches the target
  unfoldable pub find_bucket : F → List ℕ → ℕ → ℕ → Option ℕ
  find_bucket target [] i cum = none
  find_bucket target (b ∷ bs) i cum =
      let cum' = (cum + b) % u64_mod in
      let rest = find_bucket target bs (i + 1) cum' in
      if le target (of_ℕ cum') then some i else rest

  -- the midpoint of bucket i
  abbrev pub log2_mid : ℕ → F
  log2_mid i = mul (decimal 15 1) (of_ℕ (one_shl i))

  unfoldable pub log2_percentile : List ℕ → F → F
  log2_percentile buckets q =
      let n = total buckets in
      let target = mul q (of_ℕ n) in
      if n == 0
      then zero_f
      else log2_mid (unwrap_or (find_bucket target buckets 0 0) (length buckets - 1))

  -- `acc += b as f64 * 1.5 * (1u64 << i) as f64`
  unfoldable pub log2_acc : List ℕ → ℕ → F → F
  log2_acc [] i acc = acc
  log2_acc (b ∷ bs) i acc =
      log2_acc bs (i + 1) (add acc (mul (mul (of_ℕ b) (decimal 15 1)) (of_ℕ (one_shl i))))

  unfoldable pub log2_mean : List ℕ → F
  log2_mean buckets =
      let n = total buckets in if n == 0 then zero_f else div (log2_acc buckets 0 zero_f) (of_ℕ n)

  -- `if i == 0 { 0.0 } else { bounds[i - 1] }`; `none` is the panic of the index
  unfoldable pub lower_edge : List F → ℕ → Option F
  lower_edge bounds zero = some zero_f
  lower_edge bounds (suc i) = get_elem? bounds i

  -- `if i < bounds.len() { bounds[i] } else { lo * 2.0 }`
  unfoldable pub upper_edge : List F → ℕ → F → F
  upper_edge bounds i lo = unwrap_or (get_elem? bounds i) (mul lo (decimal 2 0))

  abbrev pub last : List F → Option F
  last [] = none
  last (x ∷ []) = some x
  last (x ∷ y ∷ xs) = last (y ∷ xs)

  unfoldable pub explicit_percentile : List ℕ → List F → F → Option F
  explicit_percentile buckets bounds q =
      let n = total buckets in
      let target = mul q (of_ℕ n) in
      if n == 0 then some zero_f else elim (find_bucket target buckets 0 0) [
        | some i ↦
            map_option (λ lo. div (add lo (upper_edge bounds i lo)) (decimal 2 0))
              (lower_edge bounds i)
        | none ↦ some (unwrap_or (last bounds) zero_f)
      ]
