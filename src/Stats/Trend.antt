-- ===== src/Stats/Trend.antt =====
-- `linreg_slope_stderr` of crates/gate/src/stats.rs.
use assayist.Common.{ℕ, zero, suc, ◌+◌, List, [], ◌∷◌, length, ltb, if◌then◌else◌}
use assayist.Platform.{Platform}
use assayist.Stats.Moments.{mean, zero_f}

module _ ⦃p : Platform⦄ where
  open p use {F, add, sub, mul, div, sqrt, eq, of_ℕ, decimal}

  -- `(0..n).map(|i| i as f64)`, from `i` on
  abbrev pub indices : ℕ → ℕ → List F
  indices i zero = []
  indices i (suc n) = of_ℕ i ∷ indices (i + 1) n

  -- the first loop: sxx and sxy
  unfoldable pub cross_sums : F → F → List F → List F → F × F → F × F
  cross_sums mx my (x ∷ xs) (y ∷ ys) (sxx, sxy) =
      cross_sums mx my xs ys
        (add sxx (mul (sub x mx) (sub x mx)), add sxy (mul (sub x mx) (sub y my)))
  cross_sums mx my _ _ acc = acc

  -- the second loop: the squared residuals
  unfoldable pub residuals : F → F → List F → List F → F → F
  residuals intercept slope (x ∷ xs) (y ∷ ys) sse =
      let r = sub y (add intercept (mul slope x)) in
      residuals intercept slope xs ys (add sse (mul r r))
  residuals intercept slope _ _ sse = sse

  unfoldable pub linreg_slope_stderr : List F → F × F
  linreg_slope_stderr ys =
      let n = length ys in
      let xs = indices 0 n in
      let mx = mean xs in
      let my = mean ys in
      let sums = cross_sums mx my xs ys (zero_f, zero_f) in
      let slope = div sums.1 sums.0 in
      let intercept = sub my (mul slope mx) in
      let sse = residuals intercept slope xs ys zero_f in
      let resid_var = div sse (sub (of_ℕ n) (decimal 2 0)) in
      if ltb n 3
      then (zero_f, zero_f)
      else if eq sums.0 zero_f
      then (zero_f, zero_f)
      else (slope, sqrt (div resid_var sums.0))
