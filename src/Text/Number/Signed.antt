-- ===== src/Text/Number/Signed.antt =====
-- `i64` as its bit pattern, below 2 ^ 64, and `str::parse` to it.
use Prim.Native.Char.{code}
use Prim.Native.String.{[] as empty, ◌∷◌ as cons_char}
use assayist.Common.{
  ℕ, ◌+◌, ◌-◌, ◌%◌, ◌^◌, String, Option, none, some, if◌then◌else◌, ◌==◌, ltb, map_option, ◌≡◌,
  refl, [], ◌∷◌,
}
use assayist.Text.{format}
use assayist.Text.Number.{show_ℕ, parse_uint, parse_unsigned, parse_digits}

abbrev pub sub_i64 : ℕ → ℕ → ℕ
sub_i64 a b = (a + 2 ^ 64 - b) % 2 ^ 64

abbrev pub parse_i64 : String → Option ℕ
parse_i64 empty = none
parse_i64 (cons_char c s) =
    if code c == 45
    then map_option (λ n. sub_i64 0 n) (parse_unsigned (2 ^ 63 + 1) s)
    else parse_uint (2 ^ 63) (cons_char c s)

abbrev pub show_i64 : ℕ → String
show_i64 n = if ltb n (2 ^ 63) then show_ℕ n else format ("-" ∷ show_ℕ (2 ^ 64 - n) ∷ [])

reads_negative : parse_i64 "-2" ≡ some (2 ^ 64 - 2)
unfolding parse_uint parse_digits
reads_negative = refl
