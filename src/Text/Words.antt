-- ===== src/Text/Words.antt =====
-- `split_whitespace` and `to_ascii_uppercase`.
use Prim.Native.Char.{Char, code}
use Prim.Native.String.{[], ◌∷◌, ◌++◌ as append}
use text.Mathlib.TextLemmas.{nil-append, cons-append, append_assoc, append-nil}
use assayist.Common.{
  ℕ, ◌-◌, String, List, Bool, true, false, ◌&&◌, ◌||◌, ◌≡◌, refl, ap, sym, ◌∙◌, if◌then◌else◌, leb,
  ◌==◌,
}
use assayist.Common

-- `char::is_whitespace`: the characters with the property White_Space
abbrev pub is_whitespace : Char → Bool
is_whitespace c =
    let n = code c in
    (leb 9 n && leb n 13)
    || n == 32
    || n == 133
    || n == 160
    || n == 5760
    || (leb 8192 n && leb n 8202)
    || n == 8232
    || n == 8233
    || n == 8239
    || n == 8287
    || n == 12288

-- a word, unless it is empty
abbrev pub flush : String → List String → List String
flush [] rest = rest
flush (c ∷ w) rest = Common.◌∷◌ (c ∷ w) rest

-- the words of a text behind a word that has begun
unfoldable pub words_from : String → String → List String
words_from w [] = flush w Common.[]
words_from w (c ∷ s) =
    if is_whitespace c then flush w (words_from [] s) else words_from (append w (c ∷ [])) s

abbrev pub split_whitespace : String → List String
split_whitespace s = words_from [] s

abbrev pub NoSpace : String → Type 0
NoSpace [] = Unit
NoSpace (c ∷ s) = (is_whitespace c ≡ false) × NoSpace s

pub NoSpace-append : (s t : String) → NoSpace s → NoSpace t → NoSpace (append s t)
NoSpace-append [] t hs ht = rw (nil-append t) ht
NoSpace-append (c ∷ s) t hs ht = rw (cons-append c s t) (hs.0, NoSpace-append s t hs.1 ht)

word_on : (w u t : String) → NoSpace u → words_from w (append u t) ≡ words_from (append w u) t
unfolding words_from
word_on w [] t h = rw (nil-append t, append-nil w) refl
word_on w (c ∷ u) t h =
    rw (cons-append c u t, h.0)
      (word_on (append w (c ∷ [])) u t h.1
        ∙ ap (λ x. words_from x t)
            (append_assoc w (c ∷ []) u
              ∙ ap (append w) (cons-append c [] u ∙ ap (λ x. c ∷ x) (nil-append u))))

word-then :
    (c : Char) (u t : String)
    → NoSpace (c ∷ u)
    → split_whitespace (append (c ∷ u) (append " " t)) ≡ Common.◌∷◌ (c ∷ u) (split_whitespace t)
unfolding words_from
word-then c u t h =
    word_on [] (c ∷ u) (append " " t) h
    ∙ ap (λ w. words_from w (append " " t)) (nil-append (c ∷ u))
    ∙ ap (words_from (c ∷ u)) (cons-append " " [] t ∙ ap (λ x. " " ∷ x) (nil-append t))

last_word :
    (c : Char) (u : String)
    → NoSpace (c ∷ u)
    → split_whitespace (c ∷ u) ≡ Common.◌∷◌ (c ∷ u) Common.[]
unfolding words_from
last_word c u h =
    ap split_whitespace (sym (append-nil (c ∷ u)))
    ∙ word_on [] (c ∷ u) [] h
    ∙ ap (λ w. words_from w []) (nil-append (c ∷ u))

-- a text that is not empty and has no white space
abbrev pub IsWord : String → Type 0
IsWord [] = ⊥
IsWord (c ∷ s) = NoSpace (c ∷ s)

pub split-word :
    (u t : String)
    → IsWord u
    → split_whitespace (append u (append " " t)) ≡ Common.◌∷◌ u (split_whitespace t)
split-word [] t h = absurd h
split-word (c ∷ u) t h = word-then c u t h

pub split-last : (u : String) → IsWord u → split_whitespace u ≡ Common.◌∷◌ u Common.[]
split-last [] h = absurd h
split-last (c ∷ u) h = last_word c u h
