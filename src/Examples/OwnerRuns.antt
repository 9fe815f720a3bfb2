-- ===== src/Examples/OwnerRuns.antt =====
-- A map value, a line of the owner's protocol, and a map in memory that serves four lines.
use assayist.Common.{
  ℕ, List, [], ◌∷◌, Option, none, some, Bool, true, false, ◌&&◌, ◌≡◌, refl, arith, ok,
  if◌then◌else◌, ◌==◌, map, String,
}
use assayist.Owner.{VmCtx, add, as_bytes, from_bytes, parse_command, Stats, state_from_name}
use assayist.Text.Words.{words_from}
use assayist.Text.Number.{parse_uint, parse_digits, show_fuel}
use assayist.Owner.Apply.{BpfMap, serve_lines, serve_line, apply, key_among}
use assayist.Owner.Apply.Accounts.{Balances, serve_lines-Balances}
use assayist.Owner.Layout.{from_bytes-as_bytes}
use assayist.Owner.Protocol.{line_of, parse_command-line_of}
use assayist.Examples.Fixed.{fixed_platform}

abbrev guest : VmCtx
guest = record { vm_id = 4294967297; netns_inum = 4026531840; lifecycle_state = 2 }

from_bytes-as_bytes_example : from_bytes true (as_bytes true guest) ≡ some guest
from_bytes-as_bytes_example = from_bytes-as_bytes true guest (omega arith) (omega arith)

parse_command-line_of_example :
    parse_command ⦃p = fixed_platform⦄ (line_of (add 7 4294967297 4026531840))
    ≡ ok (add 7 4294967297 4026531840)
parse_command-line_of_example =
    parse_command-line_of ⦃p = fixed_platform⦄ (add 7 4294967297 4026531840)
      (omega arith, (omega arith, omega arith))

-- a map in memory
abbrev same_bytes : List ℕ → List ℕ → Bool
same_bytes [] [] = true
same_bytes (a ∷ more) (b ∷ rest) = a == b && same_bytes more rest
same_bytes _ _ = false

abbrev find_key : List ℕ → List (List ℕ × List ℕ) → Option (List ℕ)
find_key key [] = none
find_key key (e ∷ m) = let later = find_key key m in if same_bytes key e.0 then some e.1 else later

abbrev without : List ℕ → List (List ℕ × List ℕ) → List (List ℕ × List ℕ)
without key [] = []
without key (e ∷ m) = let rest = without key m in if same_bytes key e.0 then rest else e ∷ rest

abbrev memory_map : BpfMap
memory_map = record {
  M = List (List ℕ × List ℕ);
  keys = λ m. map (λ e. e.0) m;
  lookup = λ key m. ok (find_key key m);
  update = λ key value m. (ok tt, (key, value) ∷ without key m);
  delete = λ key m. (ok tt, without key m);
}

abbrev no_stats : Stats ⦃p = fixed_platform⦄
no_stats = record { peak_live = 0; final_live = 0; adds = 0; states = 0; removes = 0; errors = 0 }

abbrev lines : List String
lines = "add 7 1 9" ∷ "state 1 paused" ∷ "remove 5" ∷ "remove 1" ∷ []

abbrev replies : List String
replies = "ok\n" ∷ "ok\n" ∷ "err no entry for handle 5\n" ∷ "ok\n" ∷ []

abbrev four_stats : Stats ⦃p = fixed_platform⦄
four_stats = record { peak_live = 1; final_live = 0; adds = 1; states = 1; removes = 1; errors = 1 }

serves :
    serve_lines ⦃p = fixed_platform⦄ false memory_map lines [] no_stats
    ≡ (ok replies, [], four_stats)
unfolding serve_lines serve_line apply key_among parse_command as_bytes from_bytes words_from
    parse_uint parse_digits state_from_name show_fuel
serves = refl

serve_lines-Balances_example : Balances ⦃p = fixed_platform⦄ replies no_stats four_stats
serve_lines-Balances_example =
    serve_lines-Balances ⦃p = fixed_platform⦄ false memory_map lines [] [] no_stats four_stats
      replies (omega arith) serves
