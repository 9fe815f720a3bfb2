-- ===== src/NetAttrib/Client/Poison.antt =====
-- What an `Ok` of `command` in crates/orchestrate/src/netattrib.rs rests on, and what a failing stream leaves.
use text.Mathlib.TextEquality.{eq_iff}
use assayist.Common.{
  String, List, [], ◌∷◌, Option, none, some, true, false, ◌≡◌, refl, ap, sym, arith, Exec, ok, err,
  panic, All, Bool-cases, inl, inr,
}
use assayist.Text.{format}
use assayist.Text.Lines.{strip_prefix}
use assayist.Platform.{Platform}
use assayist.NetAttrib.Client.{Wire, ControlClient, interpret, receive, flushed, written, command}

abbrev pub IsErr : Exec (Unit {0}) → Type 0
IsErr r = (e : String) × (r ≡ err e)

module _ ⦃p : Platform⦄ where
  open p use {trim}

  interpret-ok :
      (o : Option String) (line reply : String) {u : Unit {0}}
      → interpret o line reply ≡ ok u
      → reply ≡ "ok"
  interpret-ok none line reply h = ground (arith, eq_iff reply "ok")
  interpret-ok (some msg) line reply h = cc

  module _ (w : Wire) where
    open w use {S, write_all, flush, read_line}

    -- an exchange in which every call on the stream succeeds and the owner answers `ok`
    pub record IsAcknowledged (line : String) (s s' : S) : Type 0 where
      pub sent : S
      pub pushed : S
      pub reply : String
      pub write_ok : write_all (format (line ∷ "\n" ∷ [])) s ≡ (none, sent)
      pub flush_ok : flush sent ≡ (none, pushed)
      pub read_ok : read_line pushed ≡ (ok reply, s')
      pub reply_ok : trim reply ≡ "ok"

    receive-ok :
        (line : String) (r : Exec String × S) {u : Unit {0}} {c : ControlClient S}
        → receive w line r ≡ (ok u, c)
        → (reply : String) × (r ≡ (ok reply, c.reader)) × (trim reply ≡ "ok") × (c.poisoned ≡ false)
    receive-ok line (ok reply, s) h = (
      reply,
      ap (λ (e : Exec (Unit {0}) × ControlClient S). (ok reply, e.1.reader)) h,
      interpret-ok (strip_prefix (trim reply) "err") line (trim reply)
          (ap (λ (e : Exec (Unit {0}) × ControlClient S). e.0) h),
      sym (ap (λ (e : Exec (Unit {0}) × ControlClient S). e.1.poisoned) h),
    )
    receive-ok line (err e, s) h = cc
    receive-ok line (panic, s) h = cc

    flushed-ok :
        (line : String) (r : Option String × S) {u : Unit {0}} {c : ControlClient S}
        → flushed w line r ≡ (ok u, c)
        → (pushed : S) × (reply : String) × (r ≡ (none, pushed))
          × (read_line pushed ≡ (ok reply, c.reader))
          × (trim reply ≡ "ok")
          × (c.poisoned ≡ false)
    flushed-ok line (none, s) h =
        let (reply, hr, ht, hp) = receive-ok line (read_line s) h in (s, reply, refl, hr, ht, hp)
    flushed-ok line (some e, s) h = cc

    written-ok :
        (line : String) (r : Option String × S) {u : Unit {0}} {c : ControlClient S}
        → written w line r ≡ (ok u, c)
        → (sent : S) × (pushed : S) × (reply : String) × (r ≡ (none, sent))
          × (flush sent ≡ (none, pushed))
          × (read_line pushed ≡ (ok reply, c.reader))
          × (trim reply ≡ "ok")
          × (c.poisoned ≡ false)
    written-ok line (none, s) h =
        let (pushed, reply, hf, hr, ht, hp) = flushed-ok line (flush s) h in
        (s, pushed, reply, refl, hf, hr, ht, hp)
    written-ok line (some e, s) h = cc

    -- A command that returns `Ok` ran on a channel that was not poisoned and left it so, and it was
    -- written, flushed and answered without an error, by a line that trims to `ok`.
    pub command-ok :
        (line : String) (c : ControlClient S) {c' : ControlClient S} {u : Unit {0}}
        → command w line c ≡ (ok u, c')
        → (c.poisoned ≡ false) × (c'.poisoned ≡ false) × IsAcknowledged line c.reader c'.reader
    unfolding command
    command-ok line c h = elim (Bool-cases c.poisoned) [
      | inl bad ↦ cc (rw bad at h)
      | inr good ↦
          let (sent, pushed, reply, hw, hf, hr, ht, hp) =
            written-ok line (write_all (format (line ∷ "\n" ∷ [])) c.reader) (rw good at h) in
          (
            good,
            hp,
            record {
              sent = sent;
              pushed = pushed;
              reply = reply;
              write_ok = hw;
              flush_ok = hf;
              read_ok = hr;
              reply_ok = ht;
            },
          )
    ]

    -- the commands of a run, one after another
    abbrev pub command_all :
        List String → ControlClient S → List (Exec (Unit {0})) × ControlClient S
    command_all [] c = ([], c)
    command_all (line ∷ lines) c =
        let (r, c') = command w line c in let (rs, c'') = command_all lines c' in (r ∷ rs, c'')

    poisoned_stays :
        (lines : List String) (s : S)
        → let c : ControlClient S = record { reader = s; poisoned = true } in
          ((command_all lines c).1 ≡ c) × All IsErr (command_all lines c).0
    unfolding command
    poisoned_stays [] s = (refl, tt)
    poisoned_stays (line ∷ lines) s =
        let (same, refused) = poisoned_stays lines s in (same, ((_, refl), refused))

    -- an exchange in which a call on the stream fails, and the stream that it leaves
    pub data Breaks (line : String) (s s' : S) : Type 0 where
      at_write :
          (e : String) → write_all (format (line ∷ "\n" ∷ [])) s ≡ (some e, s') → Breaks line s s'
      at_flush :
          (sent : S) (e : String)
          → write_all (format (line ∷ "\n" ∷ [])) s ≡ (none, sent)
          → flush sent ≡ (some e, s')
          → Breaks line s s'
      at_read :
          (sent pushed : S) (e : String)
          → write_all (format (line ∷ "\n" ∷ [])) s ≡ (none, sent)
          → flush sent ≡ (none, pushed)
          → read_line pushed ≡ (err e, s')
          → Breaks line s s'

    broken-IsPoisoned :
        (line : String) (c : ControlClient S) {s' : S}
        → c.poisoned ≡ false
        → Breaks line c.reader s'
        → (e : String) × (command w line c ≡ (err e, record { reader = s'; poisoned = true }))
    unfolding command
    broken-IsPoisoned line c good (at_write e hw) = rw (good, hw) (_, refl)
    broken-IsPoisoned line c good (at_flush sent e hw hf) = rw (good, hw, hf) (_, refl)
    broken-IsPoisoned line c good (at_read sent pushed e hw hf hr) = rw (good, hw, hf, hr) (_, refl)

    -- When the write, the flush or the read of a command fails on a channel that is not poisoned, that
    -- command and every later one return an error, and behind them the channel is poisoned and its
    -- stream as the failed call left it, so that nothing more was written or read.
    pub broken_stays :
        (line : String) (lines : List String) (c : ControlClient S) {s' : S}
        → c.poisoned ≡ false
        → Breaks line c.reader s'
        → ((command_all (line ∷ lines) c).1 ≡ record { reader = s'; poisoned = true })
          × All IsErr (command_all (line ∷ lines) c).0
    broken_stays line lines c {s' = s'} good b =
        let (e, hc) = broken-IsPoisoned line c good b in
        let (same, refused) = poisoned_stays lines s' in rw hc (same, ((e, refl), refused))
