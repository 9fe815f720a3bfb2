-- ===== src/Examples/Fixed.antt =====
-- A platform for tests: numbers with six decimal places, truncated.
use assayist.Common.{
  ℕ, zero, suc, ◌+◌, ◌-◌, ◌*◌, ◌/◌, ◌%◌, ◌^◌, String, [], ◌∷◌, Option, none, some, Bool, true,
  false, if◌then◌else◌, ltb, leb, ◌==◌, map_option,
}
use assayist.Text.{format}
use assayist.Text.Number.{show_ℕ, parse_uint}
use assayist.Json.{Value, null, bool, number, string}
use assayist.Platform.{Platform}

pub data Fixed : Type 0 where
  pos : ℕ → Fixed
  neg : ℕ → Fixed

abbrev scale : ℕ
scale = 1000000

abbrev pub whole : ℕ → Fixed
whole n = pos (n * scale)

abbrev difference : ℕ → ℕ → Fixed
difference a b = if leb b a then pos (a - b) else neg (b - a)

abbrev negate : Fixed → Fixed
negate (pos a) = neg a
negate (neg a) = pos a

abbrev plus : Fixed → Fixed → Fixed
plus (pos a) (pos b) = pos (a + b)
plus (pos a) (neg b) = difference a b
plus (neg a) (pos b) = difference b a
plus (neg a) (neg b) = neg (a + b)

abbrev magnitude : Fixed → ℕ
magnitude (pos a) = a
magnitude (neg a) = a

abbrev signed : Fixed → Fixed → ℕ → Fixed
signed (pos a) (pos b) n = pos n
signed (neg a) (neg b) n = pos n
signed _ _ n = neg n

abbrev below : Fixed → Fixed → Bool
below (pos a) (pos b) = ltb a b
below (neg a) (neg b) = ltb b a
below (neg a) (pos b) = ltb 0 (a + b)
below (pos a) (neg b) = false

abbrev at_most : Fixed → Fixed → Bool
at_most x y = if below y x then false else true

abbrev same : Fixed → Fixed → Bool
same x y = if below x y then false else at_most x y

-- the root of a number, between two bounds
abbrev root : ℕ → ℕ → ℕ → ℕ → ℕ
root zero n low high = low
root (suc fuel) n low high =
    let middle = (low + high + 1) / 2 in
    elim (leb (middle * middle) n) [
      | true ↦ root fuel n middle high
      | false ↦ root fuel n low (middle - 1)
    ]

abbrev print_value : Value Fixed → String
print_value (string s) = format ("\"" ∷ s ∷ "\"" ∷ [])
print_value (number (pos n)) = show_ℕ (n / scale)
print_value (bool true) = "true"
print_value (bool false) = "false"
print_value null = "null"
print_value _ = "..."

abbrev whole_part : Fixed → Option ℕ
whole_part (pos n) = if n % scale == 0 then some (n / scale) else none
whole_part (neg n) = none

instance abbrev pub fixed_platform : Platform
fixed_platform = record {
  F = Fixed;
  add = plus;
  sub = λ x y. plus x (negate y);
  mul = λ x y. signed x y (magnitude x * magnitude y / scale);
  div = λ x y. signed x y (magnitude x * scale / magnitude y);
  max = λ x y. if below x y then y else x;
  abs = λ x. pos (magnitude x);
  sqrt = λ x. pos (root 40 (magnitude x * scale) 0 (2 ^ 40));
  lt = below;
  le = at_most;
  eq = same;
  of_ℕ = whole;
  is_finite = λ x. true;
  decimal = λ m k. pos (m * scale / 10 ^ k);
  sum_start = pos 0;
  parse_f64 = λ s. map_option whole (parse_uint (2 ^ 64) s);
  show_f64 = λ x. show_ℕ (magnitude x / scale);
  N = Fixed;
  as_f64 = some;
  as_u64 = whole_part;
  as_i64 = whole_part;
  is_f64 = λ x. false;
  number_eq = same;
  of_u64 = whole;
  of_f64 = λ x. x;
  of_i64 = λ n. if ltb n (2 ^ 63) then whole n else neg ((2 ^ 64 - n) * scale);
  print = print_value;
  to_lowercase = λ s. s;
  int_error = λ limit s. "invalid digit found in string";
  sha256 = λ s. 171 ∷ 205 ∷ [];
  sha256_bytes = λ b. b;
  trim = λ s. s;
  trim_quotes = λ s. s;
  debug_text = λ s. format ("\"" ∷ s ∷ "\"" ∷ []);
  debug_texts = format;
}
