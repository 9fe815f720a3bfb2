-- ===== src/Otlp.antt =====
-- crates/otlp/src/lib.rs: the attributes that the export writes, and the readers that the import uses.
pub mod Export
pub mod Spans
pub mod Import
pub mod RoundTrip
use assayist.Common.{
  ℕ, ◌%◌, ◌^◌, String, List, [], ◌∷◌, Option, none, some, Bool, true, false, if◌then◌else◌,
  and_then, map_option, unwrap_or, map,
}
use assayist.Text.{◌==◌}
use assayist.Text.Number.{show_ℕ, parse_uint}
use assayist.Text.Number.Signed.{parse_i64, show_i64}
use assayist.Json.{
  Value, Items, Fields, null, bool, number, string, array, object, done, field, end, item, items,
  of_items, fields, insert_field, get, as_str, as_bool, as_array,
}
use assayist.Platform.{Platform}

-- `or_else`
abbrev pub or_other {ℓ} : {A : Type ℓ} → Option A → Option A → Option A
or_other none o = o
or_other (some a) o = some a

module _ {N : Type 0} where
  -- `v[k]`
  abbrev pub index : String → Value N → Value N
  index k v = unwrap_or (get k v) null

  abbrev pub first_item : Items N → Option (Value N)
  first_item end = none
  first_item (item v vs) = some v

  -- `v.get(0)`
  abbrev pub get_first : Value N → Option (Value N)
  get_first (array vs) = first_item vs
  get_first _ = none

  -- `json!({ "key": key, "value": { kind: v } })`
  abbrev pub key_value : String → String → Value N → Value N
  key_value key kind v =
      object (field "key" (string key) (field "value" (object (field kind v done)) done))

  abbrev pub kv_str : String → String → Value N
  kv_str key v = key_value key "stringValue" (string v)

  -- for an `i64`, by its bit pattern
  abbrev pub kv_int : String → ℕ → Value N
  kv_int key v = key_value key "intValue" (string (show_i64 v))

  abbrev pub kv_bool : String → Bool → Value N
  kv_bool key v = key_value key "boolValue" (bool v)

  -- whether `a["key"] == key`
  abbrev pub is_key : String → Value N → Bool
  is_key key (string s) = s == key
  is_key key _ = false

  abbrev pub find_key : String → List (Value N) → Option (Value N)
  find_key key [] = none
  find_key key (a ∷ attrs) =
      let later = find_key key attrs in
      if is_key key (index "key" a) then some (index "value" a) else later

  unfoldable pub attr_val : Value N → String → Option (Value N)
  attr_val attrs key = and_then (as_array attrs) (find_key key)

  abbrev pub attr_str : Value N → String → Option String
  attr_str attrs key = and_then (and_then (attr_val attrs key) (get "stringValue")) as_str

  abbrev pub attr_bool : Value N → String → Option Bool
  attr_bool attrs key = and_then (and_then (attr_val attrs key) (get "boolValue")) as_bool

module _ ⦃p : Platform⦄ where
  open p use {N, print, as_u64, as_i64, as_f64, is_f64, of_f64, of_i64}

  abbrev pub value_u64 : Value N → Option ℕ
  value_u64 (number n) = as_u64 n
  value_u64 _ = none

  abbrev pub value_i64 : Value N → Option ℕ
  value_i64 (number n) = as_i64 n
  value_i64 _ = none

  abbrev pub value_f64 : Value N → Option p.F
  value_f64 (number n) = as_f64 n
  value_f64 _ = none

  -- a missing number is 0
  abbrev pub u64_str : Option (Value N) → Value N
  u64_str v = string (show_ℕ (unwrap_or (and_then v value_u64) 0))

  abbrev pub read_u64 : Value N → Option ℕ
  read_u64 x = or_other (and_then (as_str x) (parse_uint (2 ^ 64))) (value_u64 x)

  unfoldable pub str_u64 : Option (Value N) → ℕ
  str_u64 v = unwrap_or (and_then v read_u64) 0

  abbrev pub str_array_u64 : Option (Value N) → List ℕ
  str_array_u64 v = unwrap_or (map_option (map (λ x. str_u64 (some x))) (and_then v as_array)) []

  abbrev pub attr_int : Value N → String → Option ℕ
  attr_int attrs key =
      and_then (and_then (attr_val attrs key) (get "intValue"))
        (λ v. or_other (and_then (as_str v) parse_i64) (value_i64 v))

  abbrev pub any_value : Value N → Value N
  any_value (string s) = object (field "stringValue" (string s) done)
  any_value (bool b) = object (field "boolValue" (bool b) done)
  any_value (number n) =
      if is_f64 n
      then object (field "doubleValue" (double (as_f64 n)) done)
      else object (field "intValue" (string (print (number n))) done)
    where
      double : Option p.F → Value N
      double (some x) = number (of_f64 x)
      double none = null
  any_value other = object (field "stringValue" (string (print other)) done)

  abbrev pub any_kv : String → Value N → Value N
  any_kv key v = object (field "key" (string key) (field "value" (any_value v) done))

  abbrev pub any_kvs : Fields N → List (Value N)
  any_kvs done = []
  any_kvs (field k v fs) = any_kv k v ∷ any_kvs fs

  -- `attributes_from`
  abbrev pub attributes_from : Option (Value N) → List (Value N)
  attributes_from (some (object fs)) = any_kvs fs
  attributes_from _ = []
