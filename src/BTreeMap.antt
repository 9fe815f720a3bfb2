-- ===== src/BTreeMap.antt =====
-- `BTreeMap<String, V>` of the standard library: entries in ascending order of their keys, which is
-- the order that the code iterates in.
pub mod Laws
use Prim.Native.Nat.{Ordering}
use Prim.Native.String.{compare}
use assayist.Common.{String, List, [], ◌∷◌, Option, none, some, ℕ, length, Bool}
use assayist.Text.{◌==◌}

abbrev pub BTreeMap {ℓ} : Type ℓ → Type ℓ
BTreeMap V = List (String × V)

module _ {ℓ} {V : Type ℓ} where
  -- `map.get(k)`
  unfoldable pub get : String → BTreeMap V → Option V
  get k [] = none
  get k ((j, v) ∷ m) = elim (j == k) [ Bool.true ↦ some v | Bool.false ↦ get k m ]

  -- `map.insert(k, v)`
  unfoldable pub insert : String → V → BTreeMap V → BTreeMap V
  insert k v [] = (k, v) ∷ []
  insert k v ((j, w) ∷ m) = elim (compare k j) [
    | Ordering.lt ↦ (k, v) ∷ (j, w) ∷ m
    | Ordering.eq ↦ (k, v) ∷ m
    | Ordering.gt ↦ (j, w) ∷ insert k v m
  ]

  abbrev pub or_else : V → Option V → V
  or_else d none = d
  or_else d (some v) = v

  -- `map.entry(k).or_insert(d)`, and `f` on the value that it refers to
  unfoldable pub update : String → V → (V → V) → BTreeMap V → BTreeMap V
  update k d f m = insert k (f (or_else d (get k m))) m
