-- ===== src/Json/Equality.antt =====
-- `PartialEq` of `serde_json::Value`, for a test `number_eq` of its numbers.
use text.Mathlib.TextEquality.{eq_iff}
use assayist.Common.{String, Bool, true, false, ◌&&◌, ◌≡◌, refl, ap, ◌∙◌, &&-true, arith}
use assayist.Text.{◌==◌}
use assayist.Json.{
  Value, Items, Fields, null, bool, number, string, array, object, end, item, done, field,
}

abbrev same_bool : Bool → Bool → Bool
same_bool true b = b
same_bool false true = false
same_bool false false = true

module _ {N : Type 0} (number_eq : N → N → Bool) where
  unfoldable mutual
    pub value_eq : Value N → Value N → Bool
    value_eq null null = true
    value_eq (bool b) (bool c) = same_bool b c
    value_eq (number n) (number m) = number_eq n m
    value_eq (string s) (string t) = s == t
    value_eq (array vs) (array ws) = items_eq vs ws
    value_eq (object fs) (object gs) = fields_eq fs gs
    value_eq _ _ = false

    pub items_eq : Items N → Items N → Bool
    items_eq end end = true
    items_eq (item v vs) (item w ws) = value_eq v w && items_eq vs ws
    items_eq _ _ = false

    pub fields_eq : Fields N → Fields N → Bool
    fields_eq done done = true
    fields_eq (field k v fs) (field j w gs) = k == j && value_eq v w && fields_eq fs gs
    fields_eq _ _ = false

  key_eq : (k j : String) → (k == j) ≡ true → k ≡ j
  key_eq k j h = ground (arith, eq_iff k j)

  same_bool_sound : (b c : Bool) → same_bool b c ≡ true → b ≡ c
  same_bool_sound b c h = ground arith

  module _ (number_sound : (n m : N) → number_eq n m ≡ true → n ≡ m) where
    mutual
      unfolding value_eq items_eq fields_eq

      pub value_eq_sound : (v w : Value N) → value_eq v w ≡ true → v ≡ w
      value_eq_sound null null h = refl
      value_eq_sound (bool b) (bool c) h = ap bool (same_bool_sound b c h)
      value_eq_sound (number n) (number m) h = ap number (number_sound n m h)
      value_eq_sound (string s) (string t) h = ground (arith, eq_iff s t)
      value_eq_sound (array vs) (array ws) h = ap array (items_eq_sound vs ws h)
      value_eq_sound (object fs) (object gs) h = ap object (fields_eq_sound fs gs h)
      value_eq_sound _ _ h = cc

      items_eq_sound : (v w : Items N) → items_eq v w ≡ true → v ≡ w
      items_eq_sound end end h = refl
      items_eq_sound (item v vs) (item w ws) h =
          let (hv, hs) = &&-true (value_eq v w) _ h in
          ap (item v) (items_eq_sound vs ws hs) ∙ ap (λ u. item u ws) (value_eq_sound v w hv)
      items_eq_sound _ _ h = cc

      fields_eq_sound : (v w : Fields N) → fields_eq v w ≡ true → v ≡ w
      fields_eq_sound done done h = refl
      fields_eq_sound (field k v fs) (field j w gs) h =
          let (hr, hs) = &&-true (k == j && value_eq v w) _ h in
          let (hk, hv) = &&-true (k == j) _ hr in
          ap (field k v) (fields_eq_sound fs gs hs)
          ∙ ap (λ u. field k u gs) (value_eq_sound v w hv)
          ∙ ap (λ l. field l w gs) (key_eq k j hk)
      fields_eq_sound _ _ h = cc
