-- ===== src/Text/Lines.antt =====
-- `lines`, `split_once`, `strip_prefix`, `strip_suffix` and `replace` of Rust's `str`.
use Prim.Native.Char.{code}
use Prim.Native.String.{len, slice, find, [] as empty, ◌∷◌ as cons_char, ◌++◌ as append}
use assayist.Common.{
  ℕ, zero, suc, ◌+◌, ◌-◌, String, List, [], ◌∷◌, Option, none, some, if◌then◌else◌, ◌==◌, ◌≡◌, refl,
}
use assayist.Text.{starts_with, ends_with, contains}

abbrev pub strip_prefix : String → String → Option String
strip_prefix s prefix = if starts_with s prefix then some (slice s (len prefix) (len s)) else none

abbrev pub strip_suffix : String → String → Option String
strip_suffix s suffix = if ends_with s suffix then some (slice s 0 (len s - len suffix)) else none

abbrev pub split_once : String → String → Option (String × String)
split_once s pat =
    let i = find s pat in
    if contains s pat then some (slice s 0 i, slice s (i + len pat) (len s)) else none

-- a line without the carriage return before its line feed
abbrev pub strip_cr : String → String
strip_cr s = if ends_with s "\r" then slice s 0 (len s - 1) else s

-- the lines of a text behind a line that has begun; a last line that is empty does not count
unfoldable pub lines_from : String → String → List String
lines_from empty empty = []
lines_from (cons_char d w) empty = cons_char d w ∷ []
lines_from w (cons_char c s) =
    let next_line = strip_cr w ∷ lines_from "" s in
    let same_line = lines_from (append w (cons_char c empty)) s in
    if code c == 10 then next_line else same_line

abbrev pub lines : String → List String
lines s = lines_from "" s

-- the count of the characters
unfoldable pub chars : String → ℕ
chars empty = 0
chars (cons_char c s) = suc (chars s)

-- `s.replace(pat, with)` behind the characters of a match that are still to be skipped, for a
-- pattern that is not empty
unfoldable pub replace_from : String → String → ℕ → String → String
replace_from pat text skip empty = ""
replace_from pat text (suc skip) (cons_char c s) = replace_from pat text skip s
replace_from pat text zero (cons_char c s) =
    let matched = append text (replace_from pat text (chars pat - 1) s) in
    let other = cons_char c (replace_from pat text 0 s) in
    if starts_with (cons_char c s) pat then matched else other

abbrev pub replace : String → String → String → String
replace s pat text = replace_from pat text 0 s

three_lines : lines "a\r\n\nb" ≡ "a" ∷ "" ∷ "b" ∷ []
unfolding lines_from
three_lines = refl

replaces : replace "x{k}{k}y{" "{k}" "ab" ≡ "xababy{"
unfolding replace_from chars
replaces = refl
