-- ===== src/Text.antt =====
-- What the code uses of Rust's `str`, over the native `String`: comparison, searching, and the texts
-- that `format!` puts together.
pub mod Order
pub mod Number
pub mod Utf8
pub mod Words
pub mod Lines
use Prim.Native.String.{len, slice, find, ◌++◌ as append}
use text.Mathlib.Text
use assayist.Common.{ℕ, ◌-◌, Bool, false, ◌&&◌, ◌||◌, String, List, [], ◌∷◌, leb}

infix 50 ◌==◌
abbrev pub ◌==◌ : String → String → Bool
◌==◌ = Text.◌==◌

-- `s.contains(pat)`
abbrev pub contains : String → String → Bool
contains s pat = leb (find s pat) (len s)

-- `s.starts_with(pat)`
abbrev pub starts_with : String → String → Bool
starts_with = Text.starts_with

-- `s.ends_with(pat)`: the last bytes of `s` are `pat`
abbrev pub ends_with : String → String → Bool
ends_with s pat = leb (len pat) (len s) && slice s (len s - len pat) (len s) == pat

-- `format!` of texts
abbrev pub format : List String → String
format [] = ""
format (s ∷ []) = s
format (s ∷ rest) = append s (format rest)

-- `list.contains(&s)`
unfoldable pub mem : String → List String → Bool
mem s [] = false
mem s (x ∷ xs) = x == s || mem s xs
