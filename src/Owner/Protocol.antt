-- ===== src/Owner/Protocol.antt =====
-- The lines of the client (crates/orchestrate/src/netattrib.rs) against the parser of the owner.
use Prim.Native.String.{◌++◌ as append}
use text.Mathlib.TextLemmas.{append_assoc}
use assayist.Common.{
  ℕ, zero, suc, ◌^◌, ◌<◌, String, [], ◌∷◌, some, ◌≡◌, refl, ap, ◌∙◌, arith, ok, some,
}
use assayist.Text.Number.{show_ℕ}
use assayist.Text.Number.Decimal.{parse_uint-show_ℕ, show_ℕ-IsWord}
use assayist.Text.Words.{split_whitespace, split-word, split-last, IsWord}
use assayist.Platform.{Platform}
use assayist.NetAttrib.Client.{add_line, state_line, remove_line, state_name}
use assayist.Owner.{Command, add, state, remove, parse_command, state_from_name}

-- a verb is the first word of its line
verb_lem :
    (verb rest : String)
    → IsWord verb
    → split_whitespace (append (append verb " ") rest) ≡ verb ∷ split_whitespace rest
verb_lem verb rest h = ap split_whitespace (append_assoc verb " " rest) ∙ split-word verb rest h

number-first :
    (n : ℕ) (rest : String)
    → split_whitespace (append (show_ℕ n) (append " " rest)) ≡ show_ℕ n ∷ split_whitespace rest
number-first n rest = split-word (show_ℕ n) rest (show_ℕ-IsWord n)

number-last : (n : ℕ) → split_whitespace (show_ℕ n) ≡ show_ℕ n ∷ []
number-last n = split-last (show_ℕ n) (show_ℕ-IsWord n)

words_of_add :
    (i h n : ℕ) → split_whitespace (add_line i h n) ≡ "add" ∷ show_ℕ i ∷ show_ℕ h ∷ show_ℕ n ∷ []
words_of_add i h n =
    verb_lem "add" (append (show_ℕ i) (append " " (append (show_ℕ h) (append " " (show_ℕ n)))))
      (refl, (refl, (refl, tt)))
    ∙ ap (λ ws. "add" ∷ ws)
        (number-first i (append (show_ℕ h) (append " " (show_ℕ n)))
          ∙ ap (λ ws. show_ℕ i ∷ ws)
              (number-first h (show_ℕ n) ∙ ap (λ ws. show_ℕ h ∷ ws) (number-last n)))

words_of_remove : (h : ℕ) → split_whitespace (remove_line h) ≡ "remove" ∷ show_ℕ h ∷ []
words_of_remove h =
    verb_lem "remove" (show_ℕ h) (refl, (refl, (refl, (refl, (refl, (refl, tt))))))
    ∙ ap (λ ws. "remove" ∷ ws) (number-last h)

-- the line that the client sends for a command
abbrev pub line_of : Command → String
line_of (add i h n) = add_line i h n
line_of (state h st) = state_line h st
line_of (remove h) = remove_line h

-- the fields fit the types of the code, and the state is one of the four
abbrev pub Fits : Command → Type 0
Fits (add i h n) = (i < 2 ^ 32) × ((h < 2 ^ 64) × (n < 2 ^ 32))
Fits (state h st) = (h < 2 ^ 64) × (st < 4)
Fits (remove h) = h < 2 ^ 64

state_name_lem :
    (st : ℕ) → st < 4 → IsWord (state_name st) × (state_from_name (state_name st) ≡ some st)
unfolding state_from_name
state_name_lem zero h = ((refl, (refl, (refl, (refl, (refl, (refl, (refl, tt))))))), refl)
state_name_lem (suc zero) h = ((refl, (refl, (refl, (refl, (refl, (refl, (refl, tt))))))), refl)
state_name_lem (suc (suc zero)) h = ((refl, (refl, (refl, (refl, (refl, (refl, tt)))))), refl)
state_name_lem (suc (suc (suc zero))) h =
    ((refl, (refl, (refl, (refl, (refl, (refl, (refl, (refl, tt)))))))), refl)
state_name_lem (suc (suc (suc (suc n)))) h = absurd (omega (arith, h))

words_of_state :
    (h st : ℕ)
    → st < 4
    → split_whitespace (state_line h st) ≡ "state" ∷ show_ℕ h ∷ state_name st ∷ []
words_of_state h st fits =
    verb_lem "state" (append (show_ℕ h) (append " " (state_name st)))
      (refl, (refl, (refl, (refl, (refl, tt)))))
    ∙ ap (λ ws. "state" ∷ ws)
        (number-first h (state_name st)
          ∙ ap (λ ws. show_ℕ h ∷ ws) (split-last (state_name st) ((state_name_lem st fits).0)))

module _ ⦃p : Platform⦄ where
  parse_command-add_line :
      (i h n : ℕ)
      → i < 2 ^ 32
      → h < 2 ^ 64
      → n < 2 ^ 32
      → parse_command (add_line i h n) ≡ ok (add i h n)
  unfolding parse_command
  parse_command-add_line i h n hi hh hn =
      rw
        (
          words_of_add i h n,
          parse_uint-show_ℕ (2 ^ 32) i hi,
          parse_uint-show_ℕ (2 ^ 64) h hh,
          parse_uint-show_ℕ (2 ^ 32) n hn,
        )
        refl

  parse_command-remove_line : (h : ℕ) → h < 2 ^ 64 → parse_command (remove_line h) ≡ ok (remove h)
  unfolding parse_command
  parse_command-remove_line h hh = rw (words_of_remove h, parse_uint-show_ℕ (2 ^ 64) h hh) refl

  parse_command-state_line :
      (h st : ℕ) → h < 2 ^ 64 → st < 4 → parse_command (state_line h st) ≡ ok (state h st)
  unfolding parse_command
  parse_command-state_line h st hh hs =
      rw (words_of_state h st hs, parse_uint-show_ℕ (2 ^ 64) h hh, (state_name_lem st hs).1) refl

  -- The owner reads each line that the client sends for a command as that command: for an interface
  -- index and a namespace number below 2 ^ 32, a handle below 2 ^ 64, and one of the four lifecycle
  -- states.
  pub parse_command-line_of : (c : Command) → Fits c → parse_command (line_of c) ≡ ok c
  parse_command-line_of (add i h n) fits = parse_command-add_line i h n fits.0 fits.1.0 fits.1.1
  parse_command-line_of (state h st) fits = parse_command-state_line h st fits.0 fits.1
  parse_command-line_of (remove h) fits = parse_command-remove_line h fits
