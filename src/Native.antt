-- ===== src/Native.antt =====
-- crates/orchestrate/src/native.rs: what the native targets and workloads share.
pub mod Cells
pub mod Answers
pub mod Vmm
pub mod Firecracker
pub mod Fio
pub mod Wrk
use Prim.Native.String.{slice, [] as empty, ◌∷◌ as cons_char, ◌++◌ as append}
use assayist.Common.{
  ℕ, zero, suc, ◌+◌, ◌/◌, ◌%◌, String, List, [], ◌∷◌, Option, none, some, Bool, false,
  if◌then◌else◌, ◌==◌, Exec, ok, unwrap_or, map_option, ◌≡◌, refl,
}
use assayist.Text.{format}
use assayist.Text
use assayist.Text.Number.{show_ℕ, is_digit}
use assayist.Text.Lines.{lines, strip_prefix}
use assayist.Text.Words.{split_whitespace}
use assayist.Json.{Value, Fields, number, string, object, done, insert_field}
use assayist.BTreeMap.{BTreeMap, get}
use assayist.Platform.{Platform}
use assayist.Effects.{Action, done_with, ◌>>=◌, ◌>>◌}
use assayist.Capture.Plan.{render}
use assayist.Adapter.{Shell}

abbrev digits : String
digits = "0123456789abcdefghijklmnopqrstuvwxyz"

-- the loop of `base36`: the digits in front of those that are written already
unfoldable pub base36_loop : ℕ → ℕ → String → String
base36_loop zero n out = out
base36_loop (suc fuel) n out =
    let rest = base36_loop fuel (n / 36) (append (slice digits (n % 36) (n % 36 + 1)) out) in
    if n == 0 then out else rest

-- `base36`
unfoldable pub base36 : ℕ → String
base36 n = if n == 0 then "0" else base36_loop (suc n) n ""

pid_text : base36 4194303 ≡ "2hwcf"
unfolding base36 base36_loop
pid_text = refl

-- the first character, if there is one, is a digit
abbrev pub starts_digit : String → Bool
starts_digit empty = false
starts_digit (cons_char c s) = is_digit c

abbrev pub is_version : String → Bool
is_version t = starts_digit (unwrap_or (strip_prefix t "v") t)

abbrev pub find_version : List String → Option String
find_version [] = none
find_version (t ∷ ts) = if is_version t then some t else find_version ts

abbrev pub first_line : List String → String
first_line [] = ""
first_line (l ∷ ls) = l

module _ ⦃p : Platform⦄ where
  open p use {N, trim, print, of_u64}

  abbrev pub cfg_value : BTreeMap String → String → Option (Value N) → String
  cfg_value vars default (some (string s)) = render s vars
  cfg_value vars default (some other) = print other
  cfg_value vars default none = default

  -- `cfg`
  unfoldable pub cfg : BTreeMap (Value N) → BTreeMap String → String → String → String
  cfg config vars key default = cfg_value vars default (get key config)

  -- a setting that has no default
  abbrev pub setting : BTreeMap (Value N) → BTreeMap String → String → Option String
  setting config vars key = map_option (λ v. cfg config vars key "") (get key config)

  -- a parameter of the cell, or the setting
  abbrev pub param_or : BTreeMap (Value N) → BTreeMap String → String → String → String
  param_or config vars key default = unwrap_or (get key vars) (cfg config vars key default)

  -- the instance in a default socket's name
  abbrev pub instance_suffix : BTreeMap String → String
  instance_suffix vars =
      unwrap_or (map_option (λ i. format ("-" ∷ i ∷ [])) (get "instance" vars)) ""

  abbrev pub default_sock : String → ℕ → BTreeMap String → String
  default_sock vmm pid vars =
      format ("/tmp/assayist-" ∷ vmm ∷ "-" ∷ show_ℕ pid ∷ instance_suffix vars ∷ ".sock" ∷ [])

  abbrev insert_parent : Option String → Fields N → Fields N
  insert_parent none m = m
  insert_parent (some parent) m = insert_field "parent" (string parent) m

  -- `span`
  unfoldable pub span : String → Option String → ℕ → ℕ → Value N
  span name parent start end = object (
      insert_field "end_unix_nano" (number (of_u64 end)) (
        insert_field "start_unix_nano" (number (of_u64 start))
          (insert_parent parent (insert_field "name" (string name) done))))

  -- `version_token`
  unfoldable pub version_token : String → String
  version_token out =
      let first = trim (first_line (lines out)) in
      unwrap_or (find_version (split_whitespace first)) first

  abbrev pub version_of : String → Exec String → String
  version_of default (ok out) = version_token out
  version_of default _ = default

  module _ {W : Type 0} (sh : Shell W) where
    -- `'{bin} --version'`, and a default if it fails
    abbrev pub tool_version : String → String → W → String × W
    tool_version bin default w =
        let (r, w') = sh (format ("'" ∷ bin ∷ "' --version" ∷ [])) w in (version_of default r, w')

    -- `sh.run(..).map(|_| ())`
    abbrev pub run_only : String → Action W (Unit {0})
    run_only cmd = sh cmd >> done_with tt

    -- an optional command, unless it is blank
    abbrev pub run_if : Option String → Action W (Unit {0})
    run_if none = done_with tt
    run_if (some cmd) = if Text.◌==◌ (trim cmd) "" then done_with tt else run_only cmd

module _ {C W : Type 0} where
  -- a call on the machine, which leaves the cells alone
  abbrev pub moved : {A : Type 0} → C → A × W → A × (C × W)
  moved c (r, w) = (r, (c, w))

  abbrev pub on_machine : {A : Type 0} → Action W A → Action (C × W) A
  on_machine act (c, w) = moved c (act w)

  abbrev pub reading : {A : Type 0} → (W → A × W) → Action (C × W) A
  reading read (c, w) = let (a, w') = read w in (ok a, (c, w'))

  -- a cell is written
  abbrev pub change : (C → C) → Action (C × W) (Unit {0})
  change f (c, w) = (ok tt, (f c, w))
