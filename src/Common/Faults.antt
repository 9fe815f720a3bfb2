-- ===== src/Common/Faults.antt =====
-- What a call of the program comes to: a value, an `Err` with its text, or a panic.
use Prim.Native.String.{String}
use mathlib.Core.Path.{◌≡◌, refl}
use mathlib.Core.Option.{Option, none, some}

-- `Result<A, String>`, with the panics that the code can raise as a third case.
pub data Exec {ℓ} (A : Type ℓ) : Type ℓ where
  panic : Exec A
  err : String → Exec A
  ok : A → Exec A

module _ {ℓ κ} {A : Type ℓ} {B : Type κ} where
  infixl 5 ◌>>=◌
  -- `?`
  abbrev pub ◌>>=◌ : Exec A → (A → Exec B) → Exec B
  panic >>= next = panic
  err text >>= next = err text
  ok value >>= next = next value

  -- the parts of a call that ended well
  pub >>=-ok :
      (first : Exec A) (next : A → Exec B) {result : B}
      → (first >>= next) ≡ ok result
      → (value : A) × (first ≡ ok value) × (next value ≡ ok result)
  >>=-ok panic next e = cc
  >>=-ok (err text) next e = cc
  >>=-ok (ok value) next e = (value, refl, e)

module _ {ℓ} {A : Type ℓ} where
  -- A partial computation of the standard library, such as an index out of bounds.
  abbrev pub or_panic : Option A → Exec A
  or_panic (some value) = ok value
  or_panic none = panic

  -- `ok_or_else`
  abbrev pub or_err : Option A → String → Exec A
  or_err (some value) text = ok value
  or_err none text = err text

  pub ok-injective : {x y : A} → ok x ≡ ok y → x ≡ y
  ok-injective e = cc
