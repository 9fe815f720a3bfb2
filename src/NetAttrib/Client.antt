-- ===== src/NetAttrib/Client.antt =====
-- `ControlClient` of crates/orchestrate/src/netattrib.rs: one request and one reply at a time.
pub mod Poison
use Prim.Native.String.{len, slice}
use assayist.Common.{
  ℕ, ◌-◌, String, List, [], ◌∷◌, Option, none, some, Bool, true, false, if◌then◌else◌, Exec, ok,
  err, panic, ◌==◌,
}
use assayist.Text
use assayist.Text.{format, starts_with}
use assayist.Text.Lines.{strip_prefix}
use assayist.Text.Number.{show_ℕ}
use assayist.Platform.{Platform}

-- the stream to the owner: each call may fail with the text of its error, and moves the stream on
pub record Wire : Type 1 where
  pub S : Type 0
  pub write_all : String → S → Option String × S
  pub flush : S → Option String × S
  pub read_line : S → Exec String × S

-- `LIFECYCLE_RUNNING` and the other state bytes, and their names on the wire
abbrev pub state_name : ℕ → String
state_name state =
    if state == 1
    then "PAUSING"
    else if state == 2
    then "PAUSED"
    else if state == 3
    then "RESUMING"
    else "RUNNING"

pub record ControlClient (S : Type 0) : Type 0 where
  pub reader : S
  pub poisoned : Bool

-- the texts of the commands
abbrev pub add_line : ℕ → ℕ → ℕ → String
add_line ifindex handle netns_inum =
    format ("add " ∷ show_ℕ ifindex ∷ " " ∷ show_ℕ handle ∷ " " ∷ show_ℕ netns_inum ∷ [])

abbrev pub state_line : ℕ → ℕ → String
state_line handle state = format ("state " ∷ show_ℕ handle ∷ " " ∷ state_name state ∷ [])

abbrev pub remove_line : ℕ → String
remove_line handle = format ("remove " ∷ show_ℕ handle ∷ [])

module _ ⦃p : Platform⦄ where
  open p use {trim, debug_text}

  -- what a reply means, from its text behind the prefix `err`, if it has that prefix
  abbrev pub interpret : Option String → String → String → Exec (Unit {0})
  interpret (some msg) line reply =
      err (format ("attribution owner rejected '" ∷ line ∷ "':" ∷ msg ∷ []))
  interpret none line reply =
      if Text.◌==◌ reply "ok"
      then ok tt
      else err (format ("unexpected reply to '" ∷ line ∷ "': " ∷ debug_text reply ∷ []))

  abbrev pub read_reply : String → String → Exec (Unit {0})
  read_reply line reply = interpret (strip_prefix reply "err") line reply

  module _ (w : Wire) where
    open w use {S, write_all, flush, read_line}

    abbrev pub poison : S → String → List String → Exec (Unit {0}) × ControlClient S
    poison s e context = (err (format context), record { reader = s; poisoned = true })

    abbrev pub receive : String → Exec String × S → Exec (Unit {0}) × ControlClient S
    receive line (ok reply, s) =
        (read_reply line (trim reply), record { reader = s; poisoned = false })
    receive line (err e, s) = poison s e ("reading reply to '" ∷ line ∷ "': " ∷ e ∷ [])
    receive line (panic, s) = (panic, record { reader = s; poisoned = true })

    abbrev pub flushed : String → Option String × S → Exec (Unit {0}) × ControlClient S
    flushed line (none, s) = receive line (read_line s)
    flushed line (some e, s) = poison s e ("flushing '" ∷ line ∷ "': " ∷ e ∷ [])

    abbrev pub written : String → Option String × S → Exec (Unit {0}) × ControlClient S
    written line (none, s) = flushed line (flush s)
    written line (some e, s) = poison s e ("sending '" ∷ line ∷ "': " ∷ e ∷ [])

    -- `command`
    unfoldable pub command : String → ControlClient S → Exec (Unit {0}) × ControlClient S
    command line c =
        if c.poisoned
        then (
          err (
              format (
                "attribution control channel is desynchronised after an earlier I/O error, refusing '"
                ∷ line ∷ "'" ∷ [])),
          c,
        )
        else written line (write_all (format (line ∷ "\n" ∷ [])) c.reader)

    abbrev pub add : ℕ → ℕ → ℕ → ControlClient S → Exec (Unit {0}) × ControlClient S
    add ifindex handle netns_inum = command (add_line ifindex handle netns_inum)

    abbrev pub state : ℕ → ℕ → ControlClient S → Exec (Unit {0}) × ControlClient S
    state handle st = command (state_line handle st)

    abbrev pub remove : ℕ → ControlClient S → Exec (Unit {0}) × ControlClient S
    remove handle = command (remove_line handle)
