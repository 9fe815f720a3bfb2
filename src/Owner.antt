-- ===== src/Owner.antt =====
-- capture/netattrib/src/main.rs: the owner of the attribution map, without its sockets.
pub mod Layout
pub mod Protocol
pub mod Apply
use assayist.Common.{
  ℕ, zero, suc, ◌+◌, ◌-◌, ◌*◌, ◌/◌, ◌%◌, ◌^◌, String, List, [], ◌∷◌, ◌++◌, Option, none, some, Bool,
  true, false, ◌&&◌, if◌then◌else◌, Exec, ok, err, panic, ◌>>=◌, or_err, or_panic, get_elem?, take,
  drop, length, reverse, leb, ltb, ◌==◌, map_option, and_then,
}
use Prim.Native.Char.{code}
use Prim.Native.String.{[] as empty, ◌∷◌ as cons_char}
use assayist.Text
use assayist.Text.{format}
use assayist.Text.Number.{show_ℕ, parse_uint}
use assayist.Text.Words.{split_whitespace}
use assayist.Json.{Value, string, number, array, object, done, field, end}
use assayist.Platform.{Platform}

-- `VmCtx`; its padding is always zero
pub record VmCtx : Type 0 where
  pub vm_id : ℕ
  pub netns_inum : ℕ
  pub lifecycle_state : ℕ

-- the bytes of an integer of `k` bytes, least significant first, and back
abbrev pub le_bytes : ℕ → ℕ → List ℕ
le_bytes zero n = []
le_bytes (suc k) n = n % 256 ∷ le_bytes k (n / 256)

abbrev pub from_le : List ℕ → ℕ
from_le [] = 0
from_le (b ∷ bs) = b + 256 * from_le bs

module _ (big_endian : Bool) where
  -- `to_ne_bytes`, `from_ne_bytes`
  abbrev pub to_ne_bytes : ℕ → ℕ → List ℕ
  to_ne_bytes k n = if big_endian then reverse (le_bytes k n) else le_bytes k n

  abbrev pub from_ne_bytes : List ℕ → ℕ
  from_ne_bytes bs = if big_endian then from_le (reverse bs) else from_le bs

  unfoldable pub as_bytes : VmCtx → List ℕ
  as_bytes v =
      to_ne_bytes 8 v.vm_id ++ to_ne_bytes 4 v.netns_inum ++ v.lifecycle_state ∷ 0 ∷ 0 ∷ 0 ∷ []

  -- a slice that is too short is a panic
  unfoldable pub from_bytes : List ℕ → Option VmCtx
  from_bytes b =
      map_option
        (λ state. record {
          vm_id = from_ne_bytes (take 8 b);
          netns_inum = from_ne_bytes (take 4 (drop 8 b));
          lifecycle_state = state;
        })
        (get_elem? b 12)

pub data Command : Type 0 where
  add : ℕ → ℕ → ℕ → Command
  state : ℕ → ℕ → Command
  remove : ℕ → Command

-- the code of a character in ASCII upper case
abbrev pub upper : ℕ → ℕ
upper n = if leb 97 n && leb n 122 then n - 32 else n

-- `name.to_ascii_uppercase() == text`
abbrev pub eq_upper : String → String → Bool
eq_upper empty empty = true
eq_upper (cons_char c s) (cons_char d t) = upper (code c) == code d && eq_upper s t
eq_upper _ _ = false

unfoldable pub state_from_name : String → Option ℕ
state_from_name name =
    if eq_upper name "RUNNING"
    then some 0
    else if eq_upper name "PAUSING"
    then some 1
    else if eq_upper name "PAUSED"
    then some 2
    else if eq_upper name "RESUMING"
    then some 3
    else none

-- `f.next()` of the words that are left
abbrev pub next : List String → Option (String × List String)
next [] = none
next (w ∷ ws) = some (w, ws)

module _ ⦃p : Platform⦄ where
  open p use {N, of_u64, int_error}

  -- `f.next().ok_or_else(..)?.parse()?`, and the words behind it
  abbrev pub next_uint : ℕ → String → List String → Exec (ℕ × List String)
  next_uint limit missing [] = err missing
  next_uint limit missing (w ∷ ws) = do
    n ← or_err (parse_uint limit w) (int_error limit w)
    ok (n, ws)

  abbrev pub parse_add : List String → Exec Command
  parse_add ws = do
    i ← next_uint (2 ^ 32) "add needs an ifindex" ws
    h ← next_uint (2 ^ 64) "add needs a handle" i.1
    n ← next_uint (2 ^ 32) "add needs a netns_inum" h.1
    ok (add i.0 h.0 n.0)

  abbrev pub parse_state : List String → Exec Command
  parse_state ws = do
    h ← next_uint (2 ^ 64) "state needs a handle" ws
    name ← or_err (next h.1) "state needs a state name"
    st ← or_err (state_from_name name.0) (format ("unknown state '" ∷ name.0 ∷ "'" ∷ []))
    ok (state h.0 st)

  abbrev pub parse_remove : List String → Exec Command
  parse_remove ws = do h ← next_uint (2 ^ 64) "remove needs a handle" ws; ok (remove h.0)

  abbrev pub parse_words : List String → Exec Command
  parse_words [] = err "empty command"
  parse_words (verb ∷ ws) =
      if Text.◌==◌ verb "add"
      then parse_add ws
      else if Text.◌==◌ verb "state"
      then parse_state ws
      else if Text.◌==◌ verb "remove"
      then parse_remove ws
      else err (format ("unknown command '" ∷ verb ∷ "'" ∷ []))

  -- trailing words are ignored
  unfoldable pub parse_command : String → Exec Command
  parse_command line = parse_words (split_whitespace line)

  pub record Stats : Type 0 where
    pub peak_live : ℕ
    pub final_live : ℕ
    pub adds : ℕ
    pub states : ℕ
    pub removes : ℕ
    pub errors : ℕ

  -- `fragment`: the keys of the objects ascend
  unfoldable pub fragment : Stats → ℕ → Value N
  fragment stats window_ns = object (
      field "capture_meta"
        (object (
          field "command_errors" (number (of_u64 stats.errors)) (
            field "commands"
              (object (
                field "add" (number (of_u64 stats.adds)) (
                  field "remove" (number (of_u64 stats.removes))
                    (field "state" (number (of_u64 stats.states)) done))))
              (field "final_live" (number (of_u64 stats.final_live)) (
                field "gadget" (string "assayist-capture-netattrib") (
                  field "peak_live" (number (of_u64 stats.peak_live))
                    (field "window_ns" (number (of_u64 window_ns)) done)))))))
        (field "self_metrics" (array end) (field "series" (array end) done)))
