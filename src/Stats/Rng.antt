-- ===== src/Stats/Rng.antt =====
-- `SplitMix64` of crates/gate/src/stats.rs. A `u64` is a number below 2 ^ 64, with the wrapping written
-- out; `usize` has 64 bits.
use Prim.Native.Nat.{bit_xor}
use assayist.Common.{ℕ, ◌+◌, ◌*◌, ◌/◌, ◌%◌, ◌^◌, ◌<◌, arith}

abbrev pub u64_mod : ℕ
u64_mod = 2 ^ 64

abbrev pub gamma : ℕ
gamma = 0x9E37_79B9_7F4A_7C15

pub record SplitMix64 : Type 0 where
  pub state : ℕ

abbrev pub new : ℕ → SplitMix64
new seed = record { state = seed }

-- the three lines that mix a state into an output
abbrev pub mix : ℕ → ℕ
mix s =
    let z = bit_xor s (s / 2 ^ 30) * 0xBF58_476D_1CE4_E5B9 % u64_mod in
    let z' = bit_xor z (z / 2 ^ 27) * 0x94D0_49BB_1331_11EB % u64_mod in bit_xor z' (z' / 2 ^ 31)

unfoldable pub next_u64 : SplitMix64 → ℕ × SplitMix64
next_u64 rng = let state = (rng.state + gamma) % u64_mod in (mix state, record { state = state })

-- Uniform in [0, n).
unfoldable pub below : ℕ → SplitMix64 → ℕ × SplitMix64
below n rng = let (z, rng') = next_u64 rng in (z % n, rng')

pub below-lt : (n : ℕ) (rng : SplitMix64) → 0 < n → (below n rng).0 < n
unfolding below
below-lt n rng h = omega arith
