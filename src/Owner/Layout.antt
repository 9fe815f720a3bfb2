-- ===== src/Owner/Layout.antt =====
-- The layout of a map value: what `as_bytes` writes, `from_bytes` reads, on either byte order.
use assayist.Common.{ℕ, zero, suc, ◌*◌, ◌/◌, ◌^◌, ◌<◌, some, Bool, true, false, ◌≡◌, refl, arith}
use assayist.Owner.{VmCtx, le_bytes, from_le, to_ne_bytes, from_ne_bytes, as_bytes, from_bytes}

shifted : (n m : ℕ) → n < 256 * m → n / 256 < m
shifted n m h = omega (arith, h)

pow_suc : (k n : ℕ) → n < 256 ^ suc k → n < 256 * 256 ^ k
pow_suc k n h = omega (arith, h)

from_le-le_bytes : (k n : ℕ) → n < 256 ^ k → from_le (le_bytes k n) ≡ n
from_le-le_bytes zero n h = omega (arith, h)
from_le-le_bytes (suc k) n h =
    rw (from_le-le_bytes k (n / 256) (shifted n (256 ^ k) (pow_suc k n h))) (omega arith)

from_ne_bytes-8 : (big : Bool) (n : ℕ) → n < 2 ^ 64 → from_ne_bytes big (to_ne_bytes big 8 n) ≡ n
from_ne_bytes-8 true n h = from_le-le_bytes 8 n (omega (arith, h))
from_ne_bytes-8 false n h = from_le-le_bytes 8 n (omega (arith, h))

from_ne_bytes-4 : (big : Bool) (n : ℕ) → n < 2 ^ 32 → from_ne_bytes big (to_ne_bytes big 4 n) ≡ n
from_ne_bytes-4 true n h = from_le-le_bytes 4 n (omega (arith, h))
from_ne_bytes-4 false n h = from_le-le_bytes 4 n (omega (arith, h))

-- On either byte order, a map value whose id is below 2 ^ 64 and whose namespace number is below 2 ^ 32
-- is read back from the bytes it is written as, without an index out of bounds.
pub from_bytes-as_bytes :
    (big : Bool) (v : VmCtx)
    → v.vm_id < 2 ^ 64
    → v.netns_inum < 2 ^ 32
    → from_bytes big (as_bytes big v) ≡ some v
unfolding from_bytes as_bytes
from_bytes-as_bytes true v hv hn =
    rw (from_ne_bytes-8 true v.vm_id hv, from_ne_bytes-4 true v.netns_inum hn) refl
from_bytes-as_bytes false v hv hn =
    rw (from_ne_bytes-8 false v.vm_id hv, from_ne_bytes-4 false v.netns_inum hn) refl
