-- ===== src/Owner/Apply/Accounts.antt =====
-- The statistics of the owner against the replies that it gives.
use Prim.Native.Char.{code}
use Prim.Native.String.{[] as empty, ◌∷◌ as cons_char, ◌++◌ as append}
use text.Mathlib.TextLemmas.{cons-append}
use assayist.Common.{
  ℕ, suc, ◌+◌, ◌^◌, ◌<◌, ◌≤◌, String, List, [], ◌∷◌, Exec, ok, err, panic, Bool-cases, inl, inr,
  Bool, false, ◌≡◌, refl, arith, if◌then◌else◌, length, ◌==◌,
}
use assayist.Text.{format}
use mathlib.Core.Path.{subst}
use assayist.Platform.{Platform}
use assayist.Owner.{Command, add, state, remove, parse_command, Stats}
use assayist.Owner.Apply.{
  BpfMap, max, count_add, count_state, count_remove, apply, serve_line, serve_lines, reply_to, obey,
  counted, served,
}

-- whether a reply says `ok`, and not `err`: its first letter tells
abbrev pub says_ok : String → Bool
says_ok empty = false
says_ok (cons_char c s) = code c == 111

abbrev pub count_ok : List String → ℕ
count_ok [] = 0
count_ok (r ∷ rs) = if says_ok r then suc (count_ok rs) else count_ok rs

says_ok-error : (e : String) → says_ok (format ("err " ∷ e ∷ "\n" ∷ [])) ≡ false
says_ok-error e = rw (cons-append "e" "rr " (append e "\n")) refl

count_ok-cons :
    (r : String) (rs : List String) → count_ok (r ∷ rs) ≡ count_ok (r ∷ []) + count_ok rs
count_ok-cons r rs = elim (Bool-cases (says_ok r)) [
  | inl e ↦ rw e (omega arith)
  | inr e ↦ rw e (omega arith)
]

max-bound : (a b : ℕ) → b ≤ max a b
max-bound a b = ground arith

module _ ⦃p : Platform⦄ where
  open p use {trim}

  abbrev pub applied : Stats → ℕ
  applied s = s.adds + s.states + s.removes

  -- a command that was applied is counted once, and one that failed is not
  record Applies (r : Exec (Unit {0})) (s s' : Stats) : Type 0 where
    counts : ok tt ≡ r → applied s' ≡ applied s + 1
    fails : (e : String) → err e ≡ r → applied s' ≡ applied s
    same_errors : s'.errors ≡ s.errors
    occupied : s.final_live ≤ s.peak_live → s'.final_live ≤ s'.peak_live

  -- what the statistics say of the replies that were given
  pub record Balances (replies : List String) (s s' : Stats) : Type 0 where
    pub ok_replies : applied s' ≡ applied s + count_ok replies
    pub all_replies : applied s' + s'.errors ≡ applied s + s.errors + length replies
    pub occupancy : s.final_live ≤ s.peak_live → s'.final_live ≤ s'.peak_live

  abbrev AreBalanced : Exec (List String) → Stats → Stats → Type 0
  AreBalanced (ok replies) s s' = Balances replies s s'
  AreBalanced (err e) s s' = Unit
  AreBalanced panic s s' = Unit

  abbrev IsBalanced : Exec String → Stats → Stats → Type 0
  IsBalanced (ok reply) s s' = Balances (reply ∷ []) s s'
  IsBalanced (err e) s s' = Unit
  IsBalanced panic s s' = Unit

  module _ (big_endian : Bool) (w : BpfMap) where
    open w use {M}

    counted-Applies :
        (count : Stats → Stats) (change : Exec (Unit {0}) × M) (s : Stats)
        → applied (count s) ≡ applied s + 1
        → (count s).errors ≡ s.errors
        → let (r, m, s') = counted big_endian w count change s in Applies r s s'
    counted-Applies count (ok u, m) s h k = record {
      counts = λ e. h;
      fails = λ e q. cc;
      same_errors = k;
      occupied = λ o. max-bound _ _;
    }
    counted-Applies count (err e, m) s h k = record {
      counts = λ e. cc;
      fails = λ e q. refl;
      same_errors = refl;
      occupied = λ o. o;
    }
    counted-Applies count (panic, m) s h k = record {
      counts = λ e. cc;
      fails = λ e q. refl;
      same_errors = refl;
      occupied = λ o. o;
    }

    apply-Applies :
        (cmd : Command) (m : M) (s : Stats)
        → applied s + 1 < 2 ^ 64
        → let (r, m', s') = apply big_endian w cmd m s in Applies r s s'
    unfolding apply
    apply-Applies (add i h n) m s room = counted-Applies count_add _ s (omega (arith, room)) refl
    apply-Applies (state h st) m s room = counted-Applies count_state _ s (omega (arith, room)) refl
    apply-Applies (remove h) m s room = counted-Applies count_remove _ s (omega (arith, room)) refl

    obey-Applies :
        (cmd : Exec Command) (m : M) (s : Stats)
        → applied s + 1 < 2 ^ 64
        → let (r, m', s') = obey big_endian w cmd m s in Applies r s s'
    obey-Applies (ok cmd) m s room = apply-Applies cmd m s room
    obey-Applies (err e) m s room = record {
      counts = λ e. cc;
      fails = λ e q. refl;
      same_errors = refl;
      occupied = λ o. o;
    }
    obey-Applies panic m s room = record {
      counts = λ e. cc;
      fails = λ e q. refl;
      same_errors = refl;
      occupied = λ o. o;
    }

    reply_to-IsBalanced :
        (r : Exec (Unit {0})) (m : M) (s s' : Stats)
        → Applies r s s'
        → s.errors + 1 < 2 ^ 64
        → let (reply, m', s'') = reply_to big_endian w (r, m, s') in IsBalanced reply s s''
    reply_to-IsBalanced (ok u) m s s' h room =
        let one = h.counts refl in
        let same = h.same_errors in
        record { ok_replies = one; all_replies = omega (arith, one, same); occupancy = h.occupied }
    reply_to-IsBalanced (err e) m s s' h room =
        let none_more = h.fails e refl in
        let same = h.same_errors in
        record {
          ok_replies = rw (says_ok-error e) (omega (arith, none_more));
          all_replies = omega (arith, none_more, same, room);
          occupancy = h.occupied;
        }
    reply_to-IsBalanced panic m s s' h room = tt

    serve_line-IsBalanced :
        (line : String) (m : M) (s : Stats)
        → applied s + s.errors + 1 < 2 ^ 64
        → let (reply, m', s') = serve_line big_endian w line m s in IsBalanced reply s s'
    unfolding serve_line
    serve_line-IsBalanced line m s room =
        let (r, m', s') = obey big_endian w (parse_command (trim line)) m s in
        reply_to-IsBalanced r m' s s'
          (obey-Applies (parse_command (trim line)) m s (omega (arith, room))) (omega (arith, room))

    served-AreBalanced :
        (reply : Exec String) (m m' : M) (rest : Exec (List String)) (s s' s'' : Stats)
        → IsBalanced reply s s'
        → (applied s' + s'.errors ≡ applied s + s.errors + 1 → AreBalanced rest s' s'')
        → let (r, m₂, s₂) = served big_endian w (reply, m, s') (rest, m', s'') in AreBalanced r s s₂
    served-AreBalanced (ok reply) m m' (ok replies) s s' s'' h k =
        let later = k h.all_replies in
        let split = count_ok-cons reply replies in
        let before = h.ok_replies in
        let after = later.ok_replies in
        let all_before = h.all_replies in
        let all_after = later.all_replies in
        record {
          ok_replies = omega (arith, split, before, after);
          all_replies = omega (arith, all_before, all_after);
          occupancy = λ o. later.occupancy (h.occupancy o);
        }
    served-AreBalanced (ok reply) m m' (err e) s s' s'' h k = tt
    served-AreBalanced (ok reply) m m' panic s s' s'' h k = tt
    served-AreBalanced (err e) m m' rest s s' s'' h k = tt
    served-AreBalanced panic m m' rest s s' s'' h k = tt

    serve_lines-AreBalanced :
        (lines : List String) (m : M) (s : Stats)
        → applied s + s.errors + length lines < 2 ^ 64
        → let (replies, m', s') = serve_lines big_endian w lines m s in AreBalanced replies s s'
    unfolding serve_lines
    serve_lines-AreBalanced [] m s room = record {
      ok_replies = omega arith;
      all_replies = omega arith;
      occupancy = λ o. o;
    }
    serve_lines-AreBalanced (line ∷ lines) m s room =
        let (reply, m', s') = serve_line big_endian w line m s in
        let (rest, m'', s'') = serve_lines big_endian w lines m' s' in
        served-AreBalanced reply m' m'' rest s s' s''
          (serve_line-IsBalanced line m s (omega (arith, room)))
          (λ e. serve_lines-AreBalanced lines m' s' (omega (arith, room, e)))

    -- Over any BPF map, when the owner answers lines without a panic and its counters cannot reach 2 ^
    -- 64, its counts of additions, state changes and removals grow together by the number of replies
    -- that say ok, these counts and the errors grow together by the number of replies, and a live count
    -- that is at most its peak stays so.
    pub serve_lines-Balances :
        (lines : List String) (m m' : M) (s s' : Stats) (replies : List String)
        → applied s + s.errors + length lines < 2 ^ 64
        → serve_lines big_endian w lines m s ≡ (ok replies, m', s')
        → Balances replies s s'
    serve_lines-Balances lines m m' s s' replies room e =
        subst (λ x. AreBalanced x.0 s x.2) e (serve_lines-AreBalanced lines m s room)
