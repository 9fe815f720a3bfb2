-- ===== src/Reduce/Explicit.antt =====
-- When `reduce` of crates/gate/src/reduce.rs panics on an explicit histogram.
use assayist.Common.{
  ℕ, zero, suc, ◌+◌, ◌%◌, ◌≤◌, ◌<◌, ◌≡◌, ◌≢◌, ◌↔◌, refl, List, [], ◌∷◌, none, some, arith, length,
  get_elem?, unwrap_or, ◌==◌, Bool-cases, inl, inr, Option-cases, ltb, lt_of_ltb, le_of_not_ltb,
  ◌⊎◌,
}
use assayist.Platform.{Platform}
use assayist.Stats.Moments.{zero_f}
use assayist.Stats.Rng.{u64_mod}
use assayist.Stats.Histogram.{total, find_bucket, lower_edge, upper_edge, explicit_percentile, last}
use assayist.Reduce.Series.{explicit_acc, explicit_mean, explicit_estimates}

module _ ⦃p : Platform⦄ where
  open p use {F, add, mul, div, le, of_ℕ, decimal}

  get_elem?_in :
      {A : Type 0} (xs : List A) (i : ℕ) → i < length xs → (x : A) × (get_elem? xs i ≡ some x)
  get_elem?_in [] i h = elim h [ ]
  get_elem?_in (x ∷ xs) zero h = (x, refl)
  get_elem?_in (x ∷ xs) (suc i) h = get_elem?_in xs i (omega arith)

  get_elem?_out : {A : Type 0} (xs : List A) (i : ℕ) → length xs ≤ i → get_elem? xs i ≡ none
  get_elem?_out [] i h = refl
  get_elem?_out (x ∷ xs) zero h = absurd (omega arith)
  get_elem?_out (x ∷ xs) (suc i) h = get_elem?_out xs i (omega arith)

  lower_edge_in :
      (bounds : List F) (i : ℕ) → i ≤ length bounds → (x : F) × (lower_edge bounds i ≡ some x)
  unfolding lower_edge
  lower_edge_in bounds zero h = (zero_f, refl)
  lower_edge_in bounds (suc i) h = get_elem?_in bounds i h

  lower_edge_out : (bounds : List F) (i : ℕ) → length bounds < i → lower_edge bounds i ≡ none
  unfolding lower_edge
  lower_edge_out bounds zero h = elim h [ ]
  lower_edge_out bounds (suc i) h = get_elem?_out bounds i (omega arith)

  explicit_acc_in :
      (bounds : List F) (bs : List ℕ) (i : ℕ) (acc : F)
      → i + length bs ≤ length bounds + 1
      → (x : F) × (explicit_acc bounds bs i acc ≡ some x)
  unfolding explicit_acc
  explicit_acc_in bounds [] i acc h = (acc, refl)
  explicit_acc_in bounds (b ∷ bs) i acc h =
      let (lo, e) = lower_edge_in bounds i (omega arith) in
      rw e (explicit_acc_in bounds bs (i + 1) _ (omega arith))

  explicit_acc_out :
      (bounds : List F) (bs : List ℕ) (i : ℕ) (acc : F)
      → i ≤ length bounds + 1
      → length bounds + 1 < i + length bs
      → explicit_acc bounds bs i acc ≡ none
  unfolding explicit_acc
  explicit_acc_out bounds [] i acc h h' = absurd (omega arith)
  explicit_acc_out bounds (b ∷ bs) i acc h h' = elim (Option-cases (lower_edge bounds i)) [
    | inl e ↦ rw e
    | inr (lo, e) ↦ rw e (explicit_acc_out bounds bs (i + 1) _ (inside lo e) (omega arith))
  ]
    where
      inside : (lo : F) → lower_edge bounds i ≡ some lo → i + 1 ≤ length bounds + 1
      inside lo e = ground (arith, lower_edge_out bounds i)

  find_bucket-lt :
      (target : F) (bs : List ℕ) (i cum k : ℕ)
      → find_bucket target bs i cum ≡ some k
      → k < i + length bs
  unfolding find_bucket
  find_bucket-lt target [] i cum k e = cc
  find_bucket-lt target (b ∷ bs) i cum k e =
      ground (arith, find_bucket-lt target bs (i + 1) ((cum + b) % u64_mod) k)

  percentile_in :
      (buckets : List ℕ) (bounds : List F) (q : F)
      → length buckets ≤ length bounds + 1
      → (x : F) × (explicit_percentile buckets bounds q ≡ some x)
  unfolding explicit_percentile
  percentile_in buckets bounds q h = elim (Bool-cases (total buckets == 0)) [
    | inl empty ↦ (zero_f, rw empty)
    | inr more ↦
        let found = find_bucket (mul q (of_ℕ (total buckets))) buckets 0 0 in
        elim (Option-cases found) [
          | inl e ↦ (unwrap_or (last bounds) zero_f, rw (more, e))
          | inr (k, e) ↦
              let (lo, edge) =
                lower_edge_in bounds k (omega (arith, find_bucket-lt _ buckets 0 0 k e)) in
              (div (add lo (upper_edge bounds k lo)) (decimal 2 0), rw (more, e, edge))
        ]
  ]

  mean_in :
      (buckets : List ℕ) (bounds : List F)
      → (total buckets ≡ 0) ⊎ (length buckets ≤ length bounds + 1)
      → (x : F) × (explicit_mean buckets bounds ≡ some x)
  unfolding explicit_mean
  mean_in buckets bounds (inl z) = (zero_f, rw z)
  mean_in buckets bounds (inr h) = elim (Bool-cases (total buckets == 0)) [
    | inl empty ↦ (zero_f, rw empty)
    | inr more ↦
        let (x, e) = explicit_acc_in bounds buckets 0 zero_f (omega arith) in
        (div x (of_ℕ (total buckets)), rw (more, e))
  ]

  percentile_zero :
      (buckets : List ℕ) (bounds : List F) (q : F)
      → total buckets ≡ 0
      → explicit_percentile buckets bounds q ≡ some zero_f
  unfolding explicit_percentile
  percentile_zero buckets bounds q z = rw z

  mean_out :
      (buckets : List ℕ) (bounds : List F)
      → total buckets ≢ 0
      → length bounds + 1 < length buckets
      → explicit_mean buckets bounds ≡ none
  unfolding explicit_mean
  mean_out buckets bounds nz h =
      ground (arith, explicit_acc_out bounds buckets 0 zero_f (omega arith) (omega arith))

  estimates_in :
      (buckets : List ℕ) (bounds : List F)
      → (total buckets ≡ 0) ⊎ (length buckets ≤ length bounds + 1)
      → explicit_estimates buckets bounds ≢ none
  unfolding explicit_estimates
  estimates_in buckets bounds (inl z) =
      let (mean, e) = mean_in buckets bounds (inl z) in
      rw
        (
          e,
          percentile_zero buckets bounds (decimal 50 2) z,
          percentile_zero buckets bounds (decimal 99 2) z,
        )
        (λ n. cc n)
  estimates_in buckets bounds (inr h) =
      let (mean, e) = mean_in buckets bounds (inr h) in
      let (p50, e₁) = percentile_in buckets bounds (decimal 50 2) h in
      let (p99, e₂) = percentile_in buckets bounds (decimal 99 2) h in rw (e, e₁, e₂) (λ n. cc n)

  -- The estimates of an explicit histogram panic exactly when the wrapped total of its buckets is not 0
  -- and it has more buckets than its bounds delimit, which is one more than there are bounds.
  pub explicit_estimates_panic_iff :
      (buckets : List ℕ) (bounds : List F)
      → (explicit_estimates buckets bounds ≡ none)
        ↔ ((total buckets ≢ 0) × (length bounds + 1 < length buckets))
  unfolding explicit_estimates
  explicit_estimates_panic_iff buckets bounds = (
    λ e. (λ z. estimates_in buckets bounds (inl z) e, long e),
    λ (nz, h). rw (mean_out buckets bounds nz h),
  )
    where
      long : explicit_estimates buckets bounds ≡ none → length bounds + 1 < length buckets
      long e = elim (Bool-cases (ltb (length bounds + 1) (length buckets))) [
        | inl h ↦ lt_of_ltb _ _ h
        | inr h ↦ absurd (estimates_in buckets bounds (inr (le_of_not_ltb _ _ h)) e)
      ]
