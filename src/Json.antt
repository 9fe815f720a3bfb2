-- ===== src/Json.antt =====
-- `serde_json::Value` as the code matches on it and builds it, over any type `N` of JSON numbers.
-- `serde_json::Map` is its default, a `BTreeMap`: the fields of an object ascend by their keys.
pub mod Equality
pub mod Laws
use Prim.Native.Nat.{Ordering}
use Prim.Native.String.{compare}
use assayist.Common.{String, List, [], ◌∷◌, Option, none, some, Bool, true, false, and_then}
use assayist.Text.{◌==◌}

mutual
  pub data Value (N : Type 0) : Type 0 where
    null : Value N
    bool : Bool → Value N
    number : N → Value N
    string : String → Value N
    array : Items N → Value N
    object : Fields N → Value N

  pub data Items (N : Type 0) : Type 0 where
    end : Items N
    item : Value N → Items N → Items N

  pub data Fields (N : Type 0) : Type 0 where
    done : Fields N
    field : String → Value N → Fields N → Fields N

module _ {N : Type 0} where
  abbrev pub items : Items N → List (Value N)
  items end = []
  items (item v vs) = v ∷ items vs

  abbrev pub of_items : List (Value N) → Items N
  of_items [] = end
  of_items (v ∷ vs) = item v (of_items vs)

  abbrev pub fields : Fields N → List (String × Value N)
  fields done = []
  fields (field k v fs) = (k, v) ∷ fields fs

  unfoldable pub get_field : String → Fields N → Option (Value N)
  get_field k done = none
  get_field k (field j v fs) = elim (j == k) [ true ↦ some v | false ↦ get_field k fs ]

  -- `map.insert(k, v)`
  unfoldable pub insert_field : String → Value N → Fields N → Fields N
  insert_field k v done = field k v done
  insert_field k v (field j w fs) = elim (compare k j) [
    | Ordering.lt ↦ field k v (field j w fs)
    | Ordering.eq ↦ field k v fs
    | Ordering.gt ↦ field j w (insert_field k v fs)
  ]

  -- `v.get(k)`: only an object has fields
  unfoldable pub get : String → Value N → Option (Value N)
  get k (object fs) = get_field k fs
  get k _ = none

  -- `o.and_then(|v| v.get(k))`
  abbrev pub get_in : String → Option (Value N) → Option (Value N)
  get_in k o = and_then o (get k)

  abbrev pub as_str : Value N → Option String
  as_str (string s) = some s
  as_str _ = none

  abbrev pub as_bool : Value N → Option Bool
  as_bool (bool b) = some b
  as_bool _ = none

  abbrev pub as_array : Value N → Option (List (Value N))
  as_array (array vs) = some (items vs)
  as_array _ = none

  abbrev pub as_object : Value N → Option (Fields N)
  as_object (object fs) = some fs
  as_object _ = none

  abbrev pub is_null : Value N → Bool
  is_null null = true
  is_null _ = false
