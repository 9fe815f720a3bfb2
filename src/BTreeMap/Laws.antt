-- ===== src/BTreeMap/Laws.antt =====
-- Lookup after insertion, and the order of the keys.
use text.Mathlib.TextEquality.{eq_iff, path_by_compare}
use assayist.Common.{String, [], ◌∷◌, some, ◌≡◌, arith, if◌then◌else◌, All, refl, is_empty, false}
use assayist.Text.{◌==◌}
use assayist.Text.Order.{◌≺◌, compare_flip, ≺_trans}
use assayist.BTreeMap.{BTreeMap, get, insert, update, or_else}

module _ {ℓ} {V : Type ℓ} where
  pub get-insert :
      (k j : String) (v : V) (m : BTreeMap V)
      → get j (insert k v m) ≡ (if k == j then some v else get j m)
  unfolding get insert
  get-insert k j v [] = ground arith
  get-insert k j v ((i, w) ∷ m) =
      ground (arith, eq_iff k j, eq_iff i k, eq_iff i j, eq_iff k i, get-insert k j v m)

  pub get-update :
      (k j : String) (d : V) (f : V → V) (m : BTreeMap V)
      → get j (update k d f m) ≡ (if k == j then some (f (or_else d (get k m))) else get j m)
  unfolding update
  get-update k j d f m = get-insert k j _ m

  pub insert-not-empty : (k : String) (v : V) (m : BTreeMap V) → is_empty (insert k v m) ≡ false
  unfolding insert
  insert-not-empty k v [] = refl
  insert-not-empty k v ((j, w) ∷ m) = ground arith

  -- the keys ascend strictly, so each key stands once
  abbrev pub Above : String → BTreeMap V → Type 0
  Above k = All (λ (e : String × V). k ≺ e.0)

  abbrev pub IsSorted : BTreeMap V → Type 0
  IsSorted [] = Unit
  IsSorted ((k, v) ∷ m) = Above k m × IsSorted m

  Above-trans : (k j : String) (m : BTreeMap V) → k ≺ j → Above j m → Above k m
  Above-trans k j [] h a = tt
  Above-trans k j ((i, w) ∷ m) h a = (≺_trans k j i h a.0, Above-trans k j m h a.1)

  Above-insert :
      (l k : String) (v : V) (m : BTreeMap V) → l ≺ k → Above l m → Above l (insert k v m)
  unfolding insert
  Above-insert l k v [] h a = (h, tt)
  Above-insert l k v ((j, w) ∷ m) h a = ground (arith, Above-insert l k v m)

  pub insert-IsSorted : (k : String) (v : V) (m : BTreeMap V) → IsSorted m → IsSorted (insert k v m)
  unfolding insert
  insert-IsSorted k v [] s = (tt, tt)
  insert-IsSorted k v ((j, w) ∷ m) s = ground (
    arith,
    Above-trans k j m,
    path_by_compare k j,
    compare_flip k j,
    Above-insert j k v m,
    insert-IsSorted k v m,
  )
