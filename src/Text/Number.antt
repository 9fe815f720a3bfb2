-- ===== src/Text/Number.antt =====
-- Decimal printing of unsigned integers, and `str::parse` to them.
pub mod Decimal
pub mod Signed
use Prim.Native.Char.{Char, code}
use Prim.Native.String.{[], ◌∷◌, ◌++◌ as append}
use assayist.Common.{
  ℕ, zero, suc, ◌+◌, ◌-◌, ◌*◌, ◌/◌, ◌%◌, ◌^◌, String, Option, none, some, Bool, ◌&&◌, ◌≡◌, refl,
  if◌then◌else◌, ltb, leb, ◌==◌,
}

abbrev pub digit : ℕ → String
digit zero = "0"
digit (suc zero) = "1"
digit (suc (suc zero)) = "2"
digit (suc (suc (suc zero))) = "3"
digit (suc (suc (suc (suc zero)))) = "4"
digit (suc (suc (suc (suc (suc zero))))) = "5"
digit (suc (suc (suc (suc (suc (suc zero)))))) = "6"
digit (suc (suc (suc (suc (suc (suc (suc zero))))))) = "7"
digit (suc (suc (suc (suc (suc (suc (suc (suc zero)))))))) = "8"
digit (suc (suc (suc (suc (suc (suc (suc (suc (suc n))))))))) = "9"

abbrev pub hex_digit : ℕ → String
hex_digit n =
    if ltb n 10
    then digit n
    else if n == 10
    then "a"
    else if n == 11
    then "b"
    else if n == 12
    then "c"
    else if n == 13
    then "d"
    else if n == 14
    then "e"
    else "f"

-- `{b:02x}` of a byte
abbrev pub show_byte : ℕ → String
show_byte b = append (hex_digit (b / 16)) (hex_digit (b % 16))

-- the digits, most significant first; a number has fewer digits than the fuel
unfoldable pub show_fuel : ℕ → ℕ → String
show_fuel zero n = ""
show_fuel (suc fuel) n =
    let front = show_fuel fuel (n / 10) in
    if ltb n 10 then digit n else append front (digit (n % 10))

-- `format!("{n}")`
abbrev pub show_ℕ : ℕ → String
show_ℕ n = show_fuel (suc n) n

abbrev pub is_digit : Char → Bool
is_digit c = leb 48 (code c) && leb (code c) 57

-- the digits of a text behind a number that is read; `none` on another character or past `limit`
unfoldable pub parse_digits : ℕ → ℕ → String → Option ℕ
parse_digits limit n [] = some n
parse_digits limit n (c ∷ s) =
    let n' = n * 10 + (code c - 48) in
    let rest = parse_digits limit n' s in if is_digit c && ltb n' limit then rest else none

abbrev strip_plus : String → String
strip_plus [] = []
strip_plus (c ∷ s) = if code c == 43 then s else c ∷ s

abbrev pub parse_unsigned : ℕ → String → Option ℕ
parse_unsigned limit [] = none
parse_unsigned limit (c ∷ s) = parse_digits limit 0 (c ∷ s)

-- `text.parse::<u64>()` for the limit 2 ^ 64, `u32` for 2 ^ 32: one `+` may stand in front, and an empty text, or
-- a sign alone, is an error
unfoldable pub parse_uint : ℕ → String → Option ℕ
parse_uint limit text = parse_unsigned limit (strip_plus text)

shows : show_ℕ 18446744073709551615 ≡ "18446744073709551615"
unfolding show_fuel
shows = refl

parses : parse_uint (2 ^ 64) "18446744073709551615" ≡ some 18446744073709551615
unfolding parse_uint parse_digits
parses = refl

overflows : parse_uint (2 ^ 64) "18446744073709551616" ≡ none
unfolding parse_uint parse_digits
overflows = refl

signed : parse_uint (2 ^ 64) "+07" ≡ some 7
unfolding parse_uint parse_digits
signed = refl
