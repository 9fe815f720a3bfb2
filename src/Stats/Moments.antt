-- ===== src/Stats/Moments.antt =====
-- The means and spreads of crates/gate/src/stats.rs, over any `f64`.
use assayist.Common.{List, map, foldl, length, is_empty, ltb, if◌then◌else◌}
use assayist.Platform.{Platform}

module _ ⦃p : Platform⦄ where
  open p use {F, add, sub, mul, div, max, abs, sqrt, eq, of_ℕ, decimal, sum_start}

  abbrev pub zero_f : F
  zero_f = decimal 0 0

  abbrev pub one_f : F
  one_f = decimal 1 0

  -- `xs.iter().sum::<f64>()`
  unfoldable pub sum : List F → F
  sum xs = foldl add sum_start xs

  unfoldable pub mean : List F → F
  mean xs = if is_empty xs then zero_f else div (sum xs) (of_ℕ (length xs))

  -- Sample variance (n-1). Returns 0 for fewer than two points.
  unfoldable pub variance : List F → F
  variance xs =
      let n = length xs in
      let m = mean xs in
      let ss = sum (map (λ x. mul (sub x m) (sub x m)) xs) in
      if ltb n 2 then zero_f else div ss (sub (of_ℕ n) one_f)

  unfoldable pub stddev : List F → F
  stddev xs = sqrt (variance xs)

  -- Coefficient of variation of a single group. 0 if mean is 0.
  unfoldable pub cov : List F → F
  cov xs = let m = mean xs in if eq m zero_f then zero_f else div (stddev xs) (abs m)

  unfoldable pub within_cov : List F → List F → F
  within_cov a b = max (cov a) (cov b)
