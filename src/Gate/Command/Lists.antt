-- ===== src/Gate/Command/Lists.antt =====
-- How `parse_args` of crates/gate/src/main.rs collects the files of a comparison.
use text.Mathlib.TextEquality.{eq_iff}
use assayist.Common.{
  String, List, [], ◌∷◌, ◌++◌, Option, none, some, true, false, ◌≡◌, refl, ap, sym, ◌∙◌, arith, ok,
  ◌>>=◌, All, append_assoc, append-nil,
}
use assayist.Text.{◌==◌, starts_with}
use assayist.Platform.{Platform}
use assayist.Gate.Command.{
  Args, default_args, plain_flag, value_flag, bare, parse_one, head, parse_from, parse_args,
}

abbrev pub IsBare : String → Type 0
IsBare arg = starts_with arg "--" ≡ false

not_flag : (arg flag : String) → starts_with flag "--" ≡ true → IsBare arg → (arg == flag) ≡ false
not_flag arg flag hf ha = ground (arith, eq_iff arg flag)

module _ ⦃p : Platform⦄ where
  plain_flag-bare : (arg : String) (s : Args) → IsBare arg → plain_flag arg s ≡ none
  plain_flag-bare arg s h =
      rw
        (
          not_flag arg "--a" refl h,
          not_flag arg "--b" refl h,
          not_flag arg "--baseline" refl h,
          not_flag arg "--candidate" refl h,
          not_flag arg "--allow-ungraded" refl h,
          not_flag arg "--strict-single-cell" refl h,
        )
        refl

  value_flag-bare : (arg : String) (s : Args) → IsBare arg → value_flag arg s ≡ none
  value_flag-bare arg s h =
      rw
        (
          not_flag arg "--mode" refl h,
          not_flag arg "--out" refl h,
          not_flag arg "--p-threshold" refl h,
          not_flag arg "--noise-threshold" refl h,
          not_flag arg "--min-effect" refl h,
          not_flag arg "--resamples" refl h,
          not_flag arg "--drift-k" refl h,
          not_flag arg "--seed" refl h,
          not_flag arg "--ignore" refl h,
        )
        refl

  parse_one-bare :
      (s : Args) (cur : Option String) (arg : String) (next : Option String)
      → IsBare arg
      → parse_one s cur arg next
        ≡ (bare arg cur s >>= λ s'. ok (record { args = s'; cur = cur; taken = false }))
  unfolding parse_one
  parse_one-bare s cur arg next h = rw (plain_flag-bare arg s h, value_flag-bare arg s h) refl

  parse_a :
      (s : Args) (arg : String) (rest : List String)
      → IsBare arg
      → parse_from s (some "a") false (arg ∷ rest)
        ≡ parse_from (record s { a = s.a ++ arg ∷ [] }) (some "a") false rest
  unfolding parse_from
  parse_a s arg rest h = rw (parse_one-bare s (some "a") arg (head rest) h, h) refl

  parse_b :
      (s : Args) (arg : String) (rest : List String)
      → IsBare arg
      → parse_from s (some "b") false (arg ∷ rest)
        ≡ parse_from (record s { b = s.b ++ arg ∷ [] }) (some "b") false rest
  unfolding parse_from
  parse_b s arg rest h = rw (parse_one-bare s (some "b") arg (head rest) h, h) refl

  pub feed_a :
      (s : Args) (files rest : List String)
      → All IsBare files
      → parse_from s (some "a") false (files ++ rest)
        ≡ parse_from (record s { a = s.a ++ files }) (some "a") false rest
  feed_a s [] rest h =
      ap (λ l. parse_from (record s { a = l }) (some "a") false rest) (sym (append-nil s.a))
  feed_a s (x ∷ files) rest h =
      parse_a s x (files ++ rest) h.0
      ∙ feed_a (record s { a = s.a ++ x ∷ [] }) files rest h.1
      ∙ ap (λ l. parse_from (record s { a = l }) (some "a") false rest)
          (append_assoc s.a (x ∷ []) files)

  pub feed_b :
      (s : Args) (files rest : List String)
      → All IsBare files
      → parse_from s (some "b") false (files ++ rest)
        ≡ parse_from (record s { b = s.b ++ files }) (some "b") false rest
  feed_b s [] rest h =
      ap (λ l. parse_from (record s { b = l }) (some "b") false rest) (sym (append-nil s.b))
  feed_b s (x ∷ files) rest h =
      parse_b s x (files ++ rest) h.0
      ∙ feed_b (record s { b = s.b ++ x ∷ [] }) files rest h.1
      ∙ ap (λ l. parse_from (record s { b = l }) (some "b") false rest)
          (append_assoc s.b (x ∷ []) files)

  pub start_a :
      (s : Args) (rest : List String) (cur : Option String)
      → parse_from s cur false ("--a" ∷ rest) ≡ parse_from s (some "a") false rest
  unfolding parse_from parse_one
  start_a s rest cur = refl

  pub start_b :
      (s : Args) (rest : List String) (cur : Option String)
      → parse_from s cur false ("--b" ∷ rest) ≡ parse_from s (some "b") false rest
  unfolding parse_from parse_one
  start_b s rest cur = refl

  pub parse_end : (s : Args) (cur : Option String) → parse_from s cur false [] ≡ ok s
  unfolding parse_from
  parse_end s cur = refl

  -- If no file name starts with `--`, then `--a` with one list of files and `--b` with another parses
  -- to arguments that hold those two lists, in order, and the defaults otherwise.
  pub parse_args-groups :
      (a b : List String)
      → All IsBare a
      → All IsBare b
      → parse_args ("--a" ∷ a ++ "--b" ∷ b) ≡ ok (record default_args { a = a; b = b })
  unfolding parse_args
  parse_args-groups a b ha hb =
      start_a default_args (a ++ "--b" ∷ b) none
      ∙ feed_a default_args a ("--b" ∷ b) ha
      ∙ start_b (record default_args { a = a }) b (some "a")
      ∙ ap (parse_from (record default_args { a = a }) (some "b") false) (sym (append-nil b))
      ∙ feed_b (record default_args { a = a }) b [] hb
      ∙ parse_end (record default_args { a = a; b = b }) (some "b")
