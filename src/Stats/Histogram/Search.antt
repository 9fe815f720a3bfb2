-- ===== src/Stats/Histogram/Search.antt =====
-- Which bucket the percentile estimates of crates/gate/src/stats.rs choose.
use assayist.Common.{
  ℕ, zero, suc, ◌+◌, ◌-◌, ◌%◌, ◌<◌, ◌≡◌, inl, inr, refl, Bool, true, false, List, [], ◌∷◌, Option,
  none, some, arith, length, unwrap_or, foldl, Bool-cases,
}
use native.Mathlib.Nat.{add_assoc, zero-add}
use assayist.Platform.{Platform}
use assayist.Stats.Rng.{u64_mod}
use assayist.Stats.Histogram.{total, find_bucket, log2_mid, log2_percentile}

-- the exact sum, with no wrapping
abbrev pub sum_ℕ : List ℕ → ℕ
sum_ℕ [] = 0
sum_ℕ (b ∷ bs) = b + sum_ℕ bs

-- the exact count of buckets 0 to i
abbrev pub cumulative : List ℕ → ℕ → ℕ
cumulative [] i = 0
cumulative (b ∷ bs) zero = b
cumulative (b ∷ bs) (suc i) = b + cumulative bs i

foldl-total :
    (bs : List ℕ) (s : ℕ)
    → s + sum_ℕ bs < u64_mod
    → foldl (λ s b. (s + b) % u64_mod) s bs ≡ s + sum_ℕ bs
foldl-total [] s h = omega arith
foldl-total (b ∷ bs) s h =
    let e : (s + b) % u64_mod ≡ s + b = omega arith in
    rw e (omega (arith, foldl-total bs (s + b) (omega arith)))

pub total-eq-sum : (bs : List ℕ) → sum_ℕ bs < u64_mod → total bs ≡ sum_ℕ bs
unfolding total
total-eq-sum bs h = omega (arith, foldl-total bs 0 (omega arith))

module _ ⦃p : Platform⦄ where
  open p use {F, mul, le, of_ℕ}

  abbrev pub reaches : F → List ℕ → ℕ → Bool
  reaches target bs i = le target (of_ℕ (cumulative bs i))

  -- `i` is the first bucket at which the running count reaches the target, or the last bucket if none does
  pub data Selected (target : F) (bs : List ℕ) (i : ℕ) : Type 0 where
    first :
        i < length bs
        → reaches target bs i ≡ true
        → ((j : ℕ) → j < i → reaches target bs j ≡ false)
        → Selected target bs i
    fallback :
        i ≡ length bs - 1
        → ((j : ℕ) → j < length bs → reaches target bs j ≡ false)
        → Selected target bs i

  -- the same counts, from a running count on
  abbrev reaches_from : F → ℕ → List ℕ → ℕ → Bool
  reaches_from target cum bs i = le target (of_ℕ (cum + cumulative bs i))

  abbrev Found : F → ℕ → List ℕ → ℕ → Option ℕ → Type 0
  Found target cum bs i none = (j : ℕ) → j < length bs → reaches_from target cum bs j ≡ false
  Found target cum bs i (some k) =
      (d : ℕ) × (k ≡ i + d)
      × (d < length bs)
      × (reaches_from target cum bs d ≡ true)
      × ((j : ℕ) → j < d → reaches_from target cum bs j ≡ false)

  shift :
      (target : F) {m n : ℕ} {b : Bool} → m ≡ n → le target (of_ℕ m) ≡ b → le target (of_ℕ n) ≡ b
  shift target e h = cc

  Found-skip :
      (target : F) (cum b : ℕ) (bs : List ℕ) (i : ℕ) (o : Option ℕ)
      → reaches_from target cum (b ∷ bs) 0 ≡ false
      → Found target (cum + b) bs (i + 1) o
      → Found target cum (b ∷ bs) i o
  Found-skip target cum b bs i none miss f = λ j lt. earlier j lt
    where
      earlier : (j : ℕ) → j < length (b ∷ bs) → reaches_from target cum (b ∷ bs) j ≡ false
      earlier zero lt = miss
      earlier (suc j) lt = shift target (add_assoc cum b (cumulative bs j)) (f j (omega arith))
  Found-skip target cum b bs i (some k) miss (d, e, lt, hit, before) = (
    suc d,
    omega arith,
    omega arith,
    shift target (add_assoc cum b (cumulative bs d)) hit,
    λ j lt'. earlier j lt',
  )
    where
      earlier : (j : ℕ) → j < suc d → reaches_from target cum (b ∷ bs) j ≡ false
      earlier zero lt' = miss
      earlier (suc j) lt' =
          shift target (add_assoc cum b (cumulative bs j)) (before j (omega arith))

  find_bucket-Found :
      (target : F) (bs : List ℕ) (i cum : ℕ)
      → cum + sum_ℕ bs < u64_mod
      → Found target cum bs i (find_bucket target bs i cum)
  unfolding find_bucket
  find_bucket-Found target [] i cum h = λ j lt. elim lt [ ]
  find_bucket-Found target (b ∷ bs) i cum h =
      let e : (cum + b) % u64_mod ≡ cum + b = omega arith in
      rw e (elim (Bool-cases (le target (of_ℕ (cum + b)))) [
        | inl hit ↦ rw hit (0, omega arith, omega arith, hit, λ j lt. elim lt [ ])
        | inr miss ↦ rw miss (
            Found-skip target cum b bs i _ miss
              (find_bucket-Found target bs (i + 1) (cum + b) (omega arith)))
      ])

  Found-Selected :
      (target : F) (bs : List ℕ) (o : Option ℕ)
      → Found target 0 bs 0 o
      → Selected target bs (unwrap_or o (length bs - 1))
  Found-Selected target bs none f =
      fallback refl (λ j lt. shift target (zero-add (cumulative bs j)) (f j lt))
  Found-Selected target bs (some k) (d, e, lt, hit, before) =
      let same : k ≡ d = omega arith in
      rw same (
        first lt (shift target (zero-add (cumulative bs d)) hit)
          (λ j lt'. shift target (zero-add (cumulative bs j)) (before j lt')))

  -- With no overflow of the total, `log2_percentile` of a histogram that is not empty is the midpoint
  -- of the first bucket at which the running count reaches q times the total, or of the last bucket if
  -- none does.
  pub log2_percentile-Selected :
      (buckets : List ℕ) (q : F)
      → 0 < sum_ℕ buckets
      → sum_ℕ buckets < u64_mod
      → (i : ℕ) × (log2_percentile buckets q ≡ log2_mid i)
        × Selected (mul q (of_ℕ (sum_ℕ buckets))) buckets i
  unfolding log2_percentile
  log2_percentile-Selected buckets q pos fits =
      let target = mul q (of_ℕ (sum_ℕ buckets)) in
      let found = find_bucket-Found target buckets 0 0 (omega arith) in
      (
        unwrap_or (find_bucket target buckets 0 0) (length buckets - 1),
        rw (total-eq-sum buckets fits) (ground arith),
        Found-Selected target buckets (find_bucket target buckets 0 0) found,
      )
