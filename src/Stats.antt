-- ===== src/Stats.antt =====
-- crates/gate/src/stats.rs: the statistics of the gate. `Rng`, `Shuffle` and `Permutation` are the
-- permutation test, `Moments` the means and spreads, `Histogram` the estimates from bucket counts, and
-- `Trend` the regression line.
pub mod Rng
pub mod Moments
pub mod Shuffle
pub mod Permutation
pub mod Histogram
pub mod Trend
