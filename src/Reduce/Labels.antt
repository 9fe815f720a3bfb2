-- ===== src/Reduce/Labels.antt =====
-- `scalar_to_string` and `labels_suffix` of crates/gate/src/reduce.rs.
use Prim.Native.Nat.{Ordering}
use Prim.Native.String.{compare}
use assayist.Common.{String, List, [], ◌∷◌, Option, none, some, map, and_then}
use assayist.Text.{format}
use assayist.Json.{Value, string, Fields, fields, as_object}
use assayist.Platform.{Platform}

-- a stable sort by key
unfoldable pub insert_pair : String × String → List (String × String) → List (String × String)
insert_pair e [] = e ∷ []
insert_pair e (d ∷ l) = elim (compare d.0 e.0) [ Ordering.lt ↦ d ∷ insert_pair e l | _ ↦ e ∷ d ∷ l ]

unfoldable pub sort_pairs : List (String × String) → List (String × String)
sort_pairs [] = []
sort_pairs (e ∷ l) = insert_pair e (sort_pairs l)

-- the loop that pushes `|k=v`
unfoldable pub push_pairs : List (String × String) → String
push_pairs [] = ""
push_pairs ((k, v) ∷ l) = format ("|" ∷ k ∷ "=" ∷ v ∷ push_pairs l ∷ [])

module _ ⦃p : Platform⦄ where
  open p use {N, print}

  unfoldable pub scalar_to_string : Value N → String
  scalar_to_string (string s) = s
  scalar_to_string other = print other

  abbrev pub label_pairs : Fields N → List (String × String)
  label_pairs fs = map (λ e. (e.0, scalar_to_string e.1)) (fields fs)

  -- An object with no labels gives the empty suffix too, as the source's early return does.
  unfoldable pub labels_suffix : Option (Value N) → String
  labels_suffix labels = elim (and_then labels as_object) [
    | none ↦ ""
    | some o ↦ push_pairs (sort_pairs (label_pairs o))
  ]
