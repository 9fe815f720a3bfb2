-- ===== src/Text/Number/Decimal.antt =====
-- The decimal text of a number, read back.
use Prim.Native.Char.{Char, code}
use Prim.Native.String.{[], ◌∷◌, ◌++◌ as append}
use text.Mathlib.TextLemmas.{nil-append, cons-append, append_assoc, append-nil}
use assayist.Common.{
  ℕ, zero, suc, ◌+◌, ◌-◌, ◌*◌, ◌/◌, ◌%◌, ◌<◌, ◌≤◌, String, some, true, false, ◌≡◌, refl, ap, sym,
  ◌∙◌, arith, ltb, ◌==◌, Bool-cases, inl, inr, lt_of_ltb, le_of_not_ltb,
}
use assayist.Text.Words.{is_whitespace, NoSpace, NoSpace-append, IsWord}
use mathlib.Core.Path.{subst}
use assayist.Text.Number.{digit, show_fuel, show_ℕ, is_digit, parse_digits, parse_uint}

-- the text of a digit is one character
digit_cons : (d : ℕ) → d < 10 → (c : Char) × (digit d ≡ c ∷ []) × (code c ≡ 48 + d)
digit_cons zero h = ("0", refl, refl)
digit_cons (suc zero) h = ("1", refl, refl)
digit_cons (suc (suc zero)) h = ("2", refl, refl)
digit_cons (suc (suc (suc zero))) h = ("3", refl, refl)
digit_cons (suc (suc (suc (suc zero)))) h = ("4", refl, refl)
digit_cons (suc (suc (suc (suc (suc zero))))) h = ("5", refl, refl)
digit_cons (suc (suc (suc (suc (suc (suc zero)))))) h = ("6", refl, refl)
digit_cons (suc (suc (suc (suc (suc (suc (suc zero))))))) h = ("7", refl, refl)
digit_cons (suc (suc (suc (suc (suc (suc (suc (suc zero)))))))) h = ("8", refl, refl)
digit_cons (suc (suc (suc (suc (suc (suc (suc (suc (suc zero))))))))) h = ("9", refl, refl)
digit_cons (suc (suc (suc (suc (suc (suc (suc (suc (suc (suc (n))))))))))) h =
    absurd (omega (arith, h))

ltb_of_lt : (a b : ℕ) → a < b → ltb a b ≡ true
ltb_of_lt a b h = ground arith

parse_digit :
    (limit a d : ℕ) (c : Char) (rest : String)
    → code c ≡ 48 + d
    → d < 10
    → a * 10 + d < limit
    → parse_digits limit a (c ∷ rest) ≡ parse_digits limit (a * 10 + d) rest
unfolding parse_digits
parse_digit limit a d c rest e h fits =
    let minus : code c - 48 ≡ d = omega (arith, e) in
    let decimal : is_digit c ≡ true = ground (arith, e, h) in
    rw (minus, decimal, ltb_of_lt (a * 10 + d) limit fits) refl

append-digit :
    (limit a d : ℕ) (rest : String)
    → d < 10
    → a * 10 + d < limit
    → parse_digits limit a (append (digit d) rest) ≡ parse_digits limit (a * 10 + d) rest
append-digit limit a d rest h fits =
    let (c, ec, en) = digit_cons d h in
    rw (ec, cons-append c [] rest, nil-append rest) (parse_digit limit a d c rest en h fits)

append-show :
    (limit fuel n : ℕ) (rest : String)
    → n < fuel
    → n < limit
    → parse_digits limit 0 (append (show_fuel fuel n) rest) ≡ parse_digits limit n rest
unfolding show_fuel
append-show limit zero n rest h fits = absurd (omega (arith, h))
append-show limit (suc fuel) n rest h fits = elim (Bool-cases (ltb n 10)) [
  | inl small ↦ rw small (
      append-digit limit 0 n rest (lt_of_ltb n 10 small) (omega (arith, fits))
      ∙ ap (λ m. parse_digits limit m rest) (omega arith))
  | inr large ↦
      let big : 10 ≤ n = le_of_not_ltb n 10 large in
      rw (large, append_assoc (show_fuel fuel (n / 10)) (digit (n % 10)) rest)
        (append-show limit fuel (n / 10) (append (digit (n % 10)) rest) (omega (arith, h, big))
            (omega (arith, fits))
          ∙ append-digit limit (n / 10) (n % 10) rest (omega arith) (omega (arith, fits))
          ∙ ap (λ m. parse_digits limit m rest) (omega arith))
]

-- the first character of a number
show_cons :
    (fuel n : ℕ) → n < fuel → (c : Char) × (s : String) × (show_fuel fuel n ≡ c ∷ s) × (48 ≤ code c)
unfolding show_fuel
show_cons zero n h = absurd (omega (arith, h))
show_cons (suc fuel) n h = elim (Bool-cases (ltb n 10)) [
  | inl small ↦
      let (c, ec, en) = digit_cons n (lt_of_ltb n 10 small) in
      (c, [], rw (small, ec) refl, omega (arith, en))
  | inr large ↦
      let big : 10 ≤ n = le_of_not_ltb n 10 large in
      let (c, s, e, en) = show_cons fuel (n / 10) (omega (arith, h, big)) in
      (c, append s (digit (n % 10)), rw (large, e, cons-append c s (digit (n % 10))) refl, en)
]

parse_uint-cons :
    (limit : ℕ) (c : Char) (s : String)
    → 48 ≤ code c
    → parse_uint limit (c ∷ s) ≡ parse_digits limit 0 (c ∷ s)
unfolding parse_uint
parse_uint-cons limit c s h =
    let plain : (code c == 43) ≡ false = ground (arith, h) in rw plain refl

parse_digits-nil : (limit n : ℕ) → parse_digits limit n [] ≡ some n
unfolding parse_digits
parse_digits-nil limit n = refl

-- a number below the limit of a type is read back
pub parse_uint-show_ℕ : (limit n : ℕ) → n < limit → parse_uint limit (show_ℕ n) ≡ some n
parse_uint-show_ℕ limit n fits =
    let (c, s, e, h) = show_cons (suc n) n (omega arith) in
    ap (parse_uint limit) e
    ∙ parse_uint-cons limit c s h
    ∙ ap (parse_digits limit 0) (sym e ∙ sym (append-nil (show_ℕ n)))
    ∙ append-show limit (suc n) n [] (omega arith) fits
    ∙ parse_digits-nil limit n

digit_is_word : (c : Char) → 48 ≤ code c → code c ≤ 57 → is_whitespace c ≡ false
digit_is_word c h k = ground (arith, h, k)

digit-NoSpace : (d : ℕ) → d < 10 → NoSpace (digit d)
digit-NoSpace d h =
    let (c, ec, en) = digit_cons d h in
    rw ec (digit_is_word c (omega (arith, en)) (omega (arith, en, h)), tt)

show_fuel-NoSpace : (fuel n : ℕ) → NoSpace (show_fuel fuel n)
unfolding show_fuel
show_fuel-NoSpace zero n = tt
show_fuel-NoSpace (suc fuel) n = elim (Bool-cases (ltb n 10)) [
  | inl small ↦ rw small (digit-NoSpace n (lt_of_ltb n 10 small))
  | inr large ↦ rw large (
      NoSpace-append (show_fuel fuel (n / 10)) (digit (n % 10)) (show_fuel-NoSpace fuel (n / 10))
        (digit-NoSpace (n % 10) (omega arith)))
]

-- a number is one word
pub show_ℕ-IsWord : (n : ℕ) → IsWord (show_ℕ n)
show_ℕ-IsWord n =
    let (c, s, e, h) = show_cons (suc n) n (omega arith) in
    subst IsWord (sym e) (subst NoSpace e (show_fuel-NoSpace (suc n) n))
