-- ===== src/HostPrep/Linux/Governor.antt =====
-- `write_sysfs` and `set_governor` of crates/orchestrate/src/hostprep.rs.
pub mod Writes
use Prim.Native.String.{[] as empty, ◌∷◌ as cons_char}
use assayist.Common.{
  ℕ, zero, suc, String, List, [], ◌∷◌, Option, none, some, Bool, true, false, not, ◌&&◌,
  if◌then◌else◌, Exec, ok, err, panic, ◌==◌,
}
use assayist.Text
use assayist.Text.{format}
use assayist.Text.Lines.{strip_prefix}
use assayist.Text.Number.{is_digit}
use assayist.Effects.{Action, done_with, fail, finish, ◌>>=◌, ◌>>◌}

-- the file system: what a read finds, and what a write leaves
pub record Files : Type 1 where
  pub D : Type 0
  pub read_to_string : String → D → Option String
  pub write : String → String → Action D (Unit {0})
  pub exists : String → D → Bool
  -- the names of the entries, or the error's text
  pub read_dir : String → D → Exec (List String)

abbrev pub is_digits : String → Bool
is_digits empty = true
is_digits (cons_char c s) = is_digit c && is_digits s

-- `cpu`, and then a digit or more
abbrev pub is_cpu_rest : Option String → Bool
is_cpu_rest none = false
is_cpu_rest (some n) = not (Text.◌==◌ n "") && is_digits n

abbrev pub is_cpu_n : String → Bool
is_cpu_n name = is_cpu_rest (strip_prefix name "cpu")

abbrev pub governor_path : String → String
governor_path name = format ("/sys/devices/system/cpu/" ∷ name ∷ "/cpufreq/scaling_governor" ∷ [])

module _ (files : Files) where
  open files use {D, write, exists, read_dir}

  abbrev pub wrapped : String → String → Exec (Unit {0}) × D → Exec (Unit {0}) × D
  wrapped path value (err e, d) =
      (err (format ("writing '" ∷ value ∷ "' to " ∷ path ∷ ": " ∷ e ∷ [])), d)
  wrapped path value (ok u, d) = (ok u, d)
  wrapped path value (panic, d) = (panic, d)

  abbrev pub write_sysfs : String → String → Action D (Unit {0})
  write_sysfs path value d = wrapped path value (write path value d)

  -- whether an entry is a CPU with a governor
  abbrev pub is_governed : String → D → Bool
  is_governed name d = is_cpu_n name && exists (governor_path name) d

  abbrev pub write_governor : String → String → ℕ → Action D ℕ
  write_governor gov name wrote = write_sysfs (governor_path name) gov >> done_with (suc wrote)

  abbrev pub visit_if : Bool → String → String → ℕ → Action D ℕ
  visit_if true gov name wrote = write_governor gov name wrote
  visit_if false gov name wrote = done_with wrote

  abbrev pub visit : String → String → ℕ → Action D ℕ
  visit gov name wrote d = visit_if (is_governed name d) gov name wrote d

  -- the loop over the entries, with the count of what was written
  unfoldable pub write_all : String → List String → ℕ → Action D ℕ
  write_all gov [] wrote = done_with wrote
  write_all gov (name ∷ names) wrote = visit gov name wrote >>= write_all gov names

  abbrev pub some_written : ℕ → Action D (Unit {0})
  some_written zero = fail "no cpufreq scaling_governor present; cannot set the CPU governor"
  some_written (suc wrote) = done_with tt

  abbrev pub listed : Exec (List String) → Exec (List String)
  listed (err e) = err (format ("listing cpus: " ∷ e ∷ []))
  listed r = r

  unfoldable pub set_governor : String → Action D (Unit {0})
  set_governor gov d =
      (finish (listed (read_dir "/sys/devices/system/cpu" d)) >>= λ names.
      write_all gov names 0 >>= some_written)
        d
