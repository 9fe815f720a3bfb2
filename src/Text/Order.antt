-- ===== src/Text/Order.antt =====
-- The order of texts, which a `BTreeMap` keeps its keys in, is a strict linear order.
use Prim.Native.Nat.{compare as compare_ℕ, Ordering}
use Prim.Native.Char.{code}
use Prim.Native.String.compare
use Prim.Native.String.{compare, [], ◌∷◌, then}
use text.Mathlib.TextPositions.{compare_refl}
use assayist.Common.{ℕ, String, ◌≡◌, arith}

infix 50 ◌≺◌
abbrev pub ◌≺◌ : String → String → Type 0
s ≺ t = compare s t ≡ Ordering.lt

then_flip :
    (m n : ℕ) (o o' : Ordering)
    → (o ≡ Ordering.gt → o' ≡ Ordering.lt)
    → then (compare_ℕ m n) o ≡ Ordering.gt
    → then (compare_ℕ n m) o' ≡ Ordering.lt
then_flip m n o o' f h = ground arith

pub compare_flip : (s t : String) → compare s t ≡ Ordering.gt → t ≺ s
compare_flip [] [] h = cc
compare_flip [] (d ∷ t) h = cc (compare.nil-cons d t)
compare_flip (c ∷ s) [] h = compare.nil-cons c s
compare_flip (c ∷ s) (d ∷ t) h =
    rw (compare.cons-cons d c t s)
      (then_flip (code c) (code d) _ _ (compare_flip s t) (rw compare.cons-cons at h))

then_trans :
    (a b c : ℕ) (o p q : Ordering)
    → (o ≡ Ordering.lt → p ≡ Ordering.lt → q ≡ Ordering.lt)
    → then (compare_ℕ a b) o ≡ Ordering.lt
    → then (compare_ℕ b c) p ≡ Ordering.lt
    → then (compare_ℕ a c) q ≡ Ordering.lt
then_trans a b c o p q f h k = ground arith

pub ≺_trans : (s t u : String) → s ≺ t → t ≺ u → s ≺ u
≺_trans [] [] u h k = k
≺_trans [] (d ∷ t) [] h k = cc (compare.cons-nil d t)
≺_trans [] (d ∷ t) (e ∷ u) h k = compare.nil-cons e u
≺_trans (c ∷ s) [] u h k = cc (compare.cons-nil c s)
≺_trans (c ∷ s) (d ∷ t) [] h k = cc (compare.cons-nil d t)
≺_trans (c ∷ s) (d ∷ t) (e ∷ u) h k = rw (compare.cons-cons c e s u) (
    then_trans (code c) (code d) (code e) _ _ _ (≺_trans s t u) (rw compare.cons-cons at h)
      (rw compare.cons-cons at k))

pub ≺_irrefl : (s : String) → ¬ (s ≺ s)
≺_irrefl s h = cc (compare_refl s)
