-- ===== src/Platform.antt =====
-- What the program takes from outside its own source: `f64`, the numbers and the printing of
-- `serde_json`, and the Unicode tables of the standard library. A model's definitions take a `Platform`
-- as an instance argument, and a theorem names the laws that it needs of one.
use assayist.Common.{ℕ, String, Bool, Option, List, if◌then◌else◌}
use assayist.Json.{Value, null, number}

pub record Platform : Type 1 where
  -- `f64`
  pub F : Type 0
  pub add : F → F → F
  pub sub : F → F → F
  pub mul : F → F → F
  pub div : F → F → F
  pub max : F → F → F
  pub abs : F → F
  pub sqrt : F → F
  pub lt : F → F → Bool
  pub le : F → F → Bool
  pub eq : F → F → Bool
  -- `n as f64`
  pub of_ℕ : ℕ → F
  -- `x.is_finite()`
  pub is_finite : F → Bool
  -- the literal m / 10 ^ k
  pub decimal : ℕ → ℕ → F
  -- where `Iterator::sum` over `f64` starts
  pub sum_start : F
  -- `text.parse::<f64>()`
  pub parse_f64 : String → Option F
  -- `x.to_string()`
  pub show_f64 : F → String
  -- `serde_json::Number`
  pub N : Type 0
  pub as_f64 : N → Option F
  pub as_u64 : N → Option ℕ
  -- an `i64` is given by its bit pattern
  pub as_i64 : N → Option ℕ
  pub is_f64 : N → Bool
  pub number_eq : N → N → Bool
  -- the numbers of a `u64` and of an `f64`
  pub of_u64 : ℕ → N
  pub of_f64 : F → N
  -- the number of an `i64`
  pub of_i64 : ℕ → N
  -- `Value::to_string`, which is compact JSON
  pub print : Value N → String
  -- `str::to_lowercase`
  pub to_lowercase : String → String
  -- the text of `ParseIntError`, for a type's limit and the text that did not parse
  pub int_error : ℕ → String → String
  -- the digest of `sha2::Sha256`, as bytes
  pub sha256 : String → List ℕ
  -- the same of the bytes that `update` was fed
  pub sha256_bytes : List ℕ → List ℕ
  -- `str::trim`
  pub trim : String → String
  -- `trim_matches` of double quotes
  pub trim_quotes : String → String
  -- `{:?}` of a text, and of a vector of texts
  pub debug_text : String → String
  pub debug_texts : List String → String

module _ ⦃p : Platform⦄ where
  open p use {F, N, is_finite, of_f64}

  -- `json!` of an `f64`, for which a number that is not finite is null
  abbrev pub json_f64 : F → Value N
  json_f64 x = if is_finite x then number (of_f64 x) else null
