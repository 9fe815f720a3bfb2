-- ===== src/Owner/Apply.antt =====
-- capture/netattrib/src/main.rs: commands applied to the BPF map, and the replies of `serve`.
pub mod Accounts
use assayist.Common.{
  ℕ, ◌+◌, ◌%◌, ◌^◌, String, List, [], ◌∷◌, Option, none, some, Bool, false, Exec, ok, err, panic,
  ◌>>=◌, or_err, or_panic, if◌then◌else◌, length, ltb, ◌==◌,
}
use assayist.Text.{format}
use assayist.Text.Number.{show_ℕ}
use assayist.Platform.{Platform}
use assayist.Owner.{
  VmCtx, as_bytes, from_bytes, to_ne_bytes, Command, add, state, remove, parse_command, Stats,
}

-- `MapHandle`: each call may fail with the text of its error, and an update changes the map
pub record BpfMap : Type 1 where
  pub M : Type 0
  pub keys : M → List (List ℕ)
  pub lookup : List ℕ → M → Exec (Option (List ℕ))
  pub update : List ℕ → List ℕ → M → Exec (Unit {0}) × M
  pub delete : List ℕ → M → Exec (Unit {0}) × M

-- `+= 1` on a u64
abbrev pub increment : ℕ → ℕ
increment n = (n + 1) % 2 ^ 64

abbrev pub max : ℕ → ℕ → ℕ
max a b = if ltb a b then b else a

module _ ⦃p : Platform⦄ where
  open p use {trim}

  abbrev pub count_add : Stats → Stats
  count_add s = record {
    peak_live = s.peak_live;
    final_live = s.final_live;
    adds = increment s.adds;
    states = s.states;
    removes = s.removes;
    errors = s.errors;
  }

  abbrev pub count_state : Stats → Stats
  count_state s = record {
    peak_live = s.peak_live;
    final_live = s.final_live;
    adds = s.adds;
    states = increment s.states;
    removes = s.removes;
    errors = s.errors;
  }

  abbrev pub count_remove : Stats → Stats
  count_remove s = record {
    peak_live = s.peak_live;
    final_live = s.final_live;
    adds = s.adds;
    states = s.states;
    removes = increment s.removes;
    errors = s.errors;
  }

  abbrev pub count_error : Stats → Stats
  count_error s = record {
    peak_live = s.peak_live;
    final_live = s.final_live;
    adds = s.adds;
    states = s.states;
    removes = s.removes;
    errors = increment s.errors;
  }

  -- the occupancy behind a command that was applied
  abbrev pub note_live : ℕ → Stats → Stats
  note_live live s = record {
    peak_live = max s.peak_live live;
    final_live = live;
    adds = s.adds;
    states = s.states;
    removes = s.removes;
    errors = s.errors;
  }

  module _ (big_endian : Bool) (w : BpfMap) where
    open w use {M, keys, lookup, update, delete}

    -- whether a looked-up value carries `handle`; a lookup that fails or finds nothing does not
    abbrev pub carries : ℕ → Exec (Option (List ℕ)) → Exec Bool
    carries handle (ok (some v)) = do
      ctx ← or_panic (from_bytes big_endian v)
      ok (ctx.vm_id == handle)
    carries handle (ok none) = ok false
    carries handle (err e) = ok false
    carries handle panic = panic

    unfoldable pub key_among : ℕ → M → List (List ℕ) → Exec (Option (List ℕ))
    key_among handle m [] = ok none
    key_among handle m (key ∷ rest) =
        let later = key_among handle m rest in
        do here ← carries handle (lookup key m); if here then ok (some key) else later

    abbrev pub key_for_handle : ℕ → M → Exec (Option (List ℕ))
    key_for_handle handle m = key_among handle m (keys m)

    abbrev pub entry_key : ℕ → M → Exec (List ℕ)
    entry_key handle m = do
      key ← key_for_handle handle m
      or_err key (format ("no entry for handle " ∷ show_ℕ handle ∷ []))

    -- the key of a handle, and its value with a new state
    abbrev pub restated : ℕ → ℕ → M → Exec (List ℕ × List ℕ)
    restated handle st m = do
      key ← entry_key handle m
      cur ← lookup key m
      bytes ← or_err cur (format ("entry for handle " ∷ show_ℕ handle ∷ " vanished" ∷ []))
      v ← or_panic (from_bytes big_endian bytes)
      ok (
        key,
        as_bytes big_endian
            (record { vm_id = v.vm_id; netns_inum = v.netns_inum; lifecycle_state = st }),
      )

    -- a change that was prepared, or the failure of its preparation
    abbrev pub put : Exec (List ℕ × List ℕ) → M → Exec (Unit {0}) × M
    put (ok (key, value)) m = update key value m
    put (err e) m = (err e, m)
    put panic m = (panic, m)

    abbrev pub take_out : Exec (List ℕ) → M → Exec (Unit {0}) × M
    take_out (ok key) m = delete key m
    take_out (err e) m = (err e, m)
    take_out panic m = (panic, m)

    -- `with_context`
    abbrev pub with_context : String → Exec (Unit {0}) × M → Exec (Unit {0}) × M
    with_context text (err e, m) = (err text, m)
    with_context text (ok u, m) = (ok u, m)
    with_context text (panic, m) = (panic, m)

    -- the bookkeeping behind a change; an early return skips it
    abbrev pub counted : (Stats → Stats) → Exec (Unit {0}) × M → Stats → Exec (Unit {0}) × M × Stats
    counted count (ok u, m) stats = (ok u, m, note_live (length (keys m)) (count stats))
    counted count (err e, m) stats = (err e, m, stats)
    counted count (panic, m) stats = (panic, m, stats)

    unfoldable pub apply : Command → M → Stats → Exec (Unit {0}) × M × Stats
    apply (add ifindex handle netns_inum) m stats =
        counted count_add
          (with_context (format ("adding ifindex " ∷ show_ℕ ifindex ∷ [])) (
            update (to_ne_bytes big_endian 4 ifindex)
              (as_bytes big_endian
                (record { vm_id = handle; netns_inum = netns_inum; lifecycle_state = 0 }))
              m))
          stats
    apply (state handle st) m stats = counted count_state (put (restated handle st m) m) stats
    apply (remove handle) m stats = counted count_remove (take_out (entry_key handle m) m) stats

    -- the reply to a command, and an error counted
    abbrev pub reply_to : Exec (Unit {0}) × M × Stats → Exec String × M × Stats
    reply_to (ok u, m, stats) = (ok "ok\n", m, stats)
    reply_to (err e, m, stats) = (ok (format ("err " ∷ e ∷ "\n" ∷ [])), m, count_error stats)
    reply_to (panic, m, stats) = (panic, m, stats)

    abbrev pub obey : Exec Command → M → Stats → Exec (Unit {0}) × M × Stats
    obey (ok cmd) m stats = apply cmd m stats
    obey (err e) m stats = (err e, m, stats)
    obey panic m stats = (panic, m, stats)

    unfoldable pub serve_line : String → M → Stats → Exec String × M × Stats
    serve_line line m stats = reply_to (obey (parse_command (trim line)) m stats)

    -- a panic ends the owner
    abbrev pub served :
        Exec String × M × Stats → Exec (List String) × M × Stats → Exec (List String) × M × Stats
    served (ok reply, m, stats) (rest, m', stats') =
        (do replies ← rest; ok (reply ∷ replies), m', stats')
    served (err e, m, stats) rest = (err e, m, stats)
    served (panic, m, stats) rest = (panic, m, stats)

    -- the lines of the peers, in the order in which `serve` reads them
    unfoldable pub serve_lines : List String → M → Stats → Exec (List String) × M × Stats
    serve_lines [] m stats = (ok [], m, stats)
    serve_lines (line ∷ lines) m stats =
        let (reply, m', stats') = serve_line line m stats in
        let rest = serve_lines lines m' stats' in served (reply, m', stats') rest
