-- ===== src/HostPrep/Linux/Cpus.antt =====
-- The fields of /proc/cpuinfo, and the counts of its processors and cores.
use assayist.Common.{
  ℕ, suc, ◌%◌, ◌^◌, String, List, [], ◌∷◌, Option, none, some, Bool, true, false, if◌then◌else◌,
  length, is_empty, ltb,
}
use assayist.Text.{◌==◌, format, mem}
use assayist.Text.Lines.{lines, split_once}
use assayist.Platform.{Platform}

-- what the walk over the lines keeps; `cores` holds each name once
pub record CoreScan : Type 0 where
  pub cores : List String
  pub phys : Option String
  pub core : Option String

abbrev pub scan_start : CoreScan
scan_start = record { cores = []; phys = none; core = none }

-- `cores.insert(..)` of a `HashSet`
abbrev pub insert_core : String → List String → List String
insert_core c cores = if mem c cores then cores else c ∷ cores

-- the core of a processor whose two ids were seen
abbrev pub commit : Option String → Option String → List String → List String
commit (some p) (some c) cores = insert_core (format (p ∷ ":" ∷ c ∷ [])) cores
commit _ _ cores = cores

module _ ⦃plat : Platform⦄ where
  open plat use {trim}

  unfoldable pub cpuinfo_field : List String → String → Option String
  cpuinfo_field [] key = none
  cpuinfo_field (l ∷ ls) key =
      let later = cpuinfo_field ls key in
      elim (split_once l ":") [
        | none ↦ later
        | some (k, v) ↦ if trim k == key then some (trim v) else later
      ]

  abbrev pub is_processor : Option (String × String) → Bool
  is_processor none = false
  is_processor (some (k, v)) = trim k == "processor"

  unfoldable pub count_processors : List String → ℕ
  count_processors [] = 0
  count_processors (l ∷ ls) =
      let n = count_processors ls in if is_processor (split_once l ":") then suc n else n

  abbrev pub note_field : Option (String × String) → CoreScan → CoreScan
  note_field none s = s
  note_field (some (k, v)) s =
      if trim k == "physical id"
      then record s { phys = some (trim v) }
      else if trim k == "core id"
      then record s { core = some (trim v) }
      else if trim k == "processor"
      then record s { phys = none; core = none }
      else s

  -- a blank line ends a processor
  abbrev pub end_block : Bool → CoreScan → CoreScan
  end_block true s = record s { cores = commit s.phys s.core s.cores }
  end_block false s = s

  unfoldable pub scan_cores : List String → CoreScan → CoreScan
  scan_cores [] s = s
  scan_cores (l ∷ ls) s = scan_cores ls (end_block (trim l == "") (note_field (split_once l ":") s))

  abbrev pub at_least_one : ℕ → ℕ
  at_least_one n = if ltb n 1 then 1 else n

  -- `cpu_counts`, in u32
  unfoldable pub cpu_counts : String → ℕ × ℕ
  cpu_counts cpuinfo =
      let logical = count_processors (lines cpuinfo) % 2 ^ 32 in
      let s = scan_cores (lines cpuinfo) scan_start in
      let cores = commit s.phys s.core s.cores in
      let physical = if is_empty cores then logical else length cores % 2 ^ 32 in
      (at_least_one logical, at_least_one physical)
