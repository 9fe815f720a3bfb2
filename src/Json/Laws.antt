-- ===== src/Json/Laws.antt =====
-- The fields of an object, written and read back.
use text.Mathlib.TextEquality.{eq_iff, path_by_compare}
use assayist.Common.{String, some, ◌≡◌, arith}
use assayist.Text.Order.{compare_flip}
use assayist.Json.{Value, Fields, done, field, get_field, insert_field}

module _ {N : Type 0} where
  pub get_field-insert_field :
      (k : String) (v : Value N) (fs : Fields N) → get_field k (insert_field k v fs) ≡ some v
  unfolding get_field insert_field
  get_field-insert_field k v done = ground (arith, eq_iff k k)
  get_field-insert_field k v (field j w fs) = ground (
    arith,
    eq_iff k k,
    eq_iff j k,
    path_by_compare k j,
    compare_flip k j,
    get_field-insert_field k v fs,
  )
