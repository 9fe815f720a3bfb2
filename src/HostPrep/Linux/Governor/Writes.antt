-- ===== src/HostPrep/Linux/Governor/Writes.antt =====
-- What a governor that was set has written.
use mathlib.Core.Path.{subst}
use assayist.Common.{
  ℕ, zero, suc, ◌+◌, ◌<◌, String, List, [], ◌∷◌, Bool, true, false, ◌≡◌, refl, arith, Exec, ok, err,
  panic,
}
use assayist.Effects.{continue, ◌>>=◌}
use assayist.Effects.Triples.{Ensures, bind-Ensures}
use assayist.HostPrep.Linux.Governor.{
  Files, governor_path, is_governed, wrapped, visit, visit_if, write_all, some_written,
  set_governor, listed,
}

module _ (files : Files) (gov : String) where
  open files use {D, write, exists, read_dir}

  -- the entries in order: each CPU that has a governor at its turn was written, and no other file
  pub data Visited : List String → D → ℕ → D → Type 0 where
    over : {d : D} → Visited [] d 0 d
    wrote :
        {name : String} {names : List String} {d d' d'' : D} {n : ℕ}
        → is_governed files name d ≡ true
        → write (governor_path name) gov d ≡ (ok tt, d')
        → Visited names d' n d''
        → Visited (name ∷ names) d (suc n) d''
    skipped :
        {name : String} {names : List String} {d d'' : D} {n : ℕ}
        → is_governed files name d ≡ false
        → Visited names d n d''
        → Visited (name ∷ names) d n d''

  abbrev Counts : List String → ℕ → D → ℕ → D → Type 0
  Counts names before d total end = (n : ℕ) × Visited names d n end × (total ≡ before + n)

  visit-Ensures :
      (name : String) (names : List String) (before : ℕ) (d : D)
      → ((k : ℕ) (d' : D)
          → Ensures (Counts names k d') (λ _. Unit) (write_all files gov names k d'))
      → Ensures
          (Counts (name ∷ names) before d)
          (λ _. Unit)
          (continue (visit files gov name before d) (write_all files gov names))
  visit-Ensures name names before d rest = by_test (is_governed files name d) refl
    where
      tallied :
          (d' : D) (x : Exec ℕ × D)
          → is_governed files name d ≡ true
          → write (governor_path name) gov d ≡ (ok tt, d')
          → Ensures (Counts names (suc before) d') (λ _. Unit) x
          → Ensures (Counts (name ∷ names) before d) (λ _. Unit) x
      tallied d' (ok total, end) g e (n, v, t) = (suc n, wrote g e v, omega (arith, t))
      tallied d' (err m, end) g e h = tt
      tallied d' (panic, end) g e h = tt

      written :
          (x : Exec (Unit {0}) × D)
          → is_governed files name d ≡ true
          → write (governor_path name) gov d ≡ x
          → Ensures
              (Counts (name ∷ names) before d)
              (λ _. Unit)
              (continue
                (continue (wrapped files (governor_path name) gov x) (λ _ s. (ok (suc before), s)))
                (write_all files gov names))
      written (ok u, d') g e =
          tallied d' (write_all files gov names (suc before) d') g e (rest (suc before) d')
      written (err m, d') g e = tt
      written (panic, d') g e = tt

      passed :
          is_governed files name d ≡ false
          → (x : Exec ℕ × D) → Ensures (Counts names before d) (λ _. Unit) x
          → Ensures (Counts (name ∷ names) before d) (λ _. Unit) x
      passed f (ok total, end) (n, v, t) = (n, skipped f v, t)
      passed f (err m, end) h = tt
      passed f (panic, end) h = tt

      by_test :
          (b : Bool)
          → is_governed files name d ≡ b
          → Ensures
              (Counts (name ∷ names) before d)
              (λ _. Unit)
              (continue (visit_if files b gov name before d) (write_all files gov names))
      by_test true g = written (write (governor_path name) gov d) g refl
      by_test false g = passed g (write_all files gov names before d) (rest before d)

  write_all-Ensures :
      (names : List String) (before : ℕ) (d : D)
      → Ensures (Counts names before d) (λ _. Unit) (write_all files gov names before d)
  unfolding write_all
  write_all-Ensures [] before d = (0, over, omega arith)
  write_all-Ensures (name ∷ names) before d =
      visit-Ensures name names before d (λ k d'. write_all-Ensures names k d')

  -- the entries of the directory, and how many governors were written
  abbrev pub IsGoverned : D → D → Type 0
  IsGoverned d end =
      (names : List String) × (n : ℕ) × (read_dir "/sys/devices/system/cpu" d ≡ ok names)
      × Visited names d n end
      × (0 < n)

  -- When `set_governor` reports success, it listed the CPUs, and it wrote the governor, without an
  -- error, to each entry that is `cpu` and digits and has a governor file at its turn, in order, and to
  -- no other, and to at least one.
  pub set_governor-IsGoverned :
      (d end : D) → set_governor files gov d ≡ (ok tt, end) → IsGoverned d end
  unfolding set_governor
  set_governor-IsGoverned d end e =
      subst (Ensures (λ _. IsGoverned d) (λ _. Unit)) e
        (from_listing (read_dir "/sys/devices/system/cpu" d) refl)
    where
      checked :
          (names : List String) (total : ℕ) (d' : D)
          → read_dir "/sys/devices/system/cpu" d ≡ ok names
          → Counts names 0 d total d'
          → Ensures (λ _. IsGoverned d) (λ _. Unit) (some_written files total d')
      checked names zero d' r (n, v, t) = tt
      checked names (suc total) d' r (n, v, t) = (names, n, r, v, omega (arith, t))

      from_listing :
          (x : Exec (List String))
          → read_dir "/sys/devices/system/cpu" d ≡ x
          → Ensures
              (λ _. IsGoverned d)
              (λ _. Unit)
              (continue
                (listed files x, d)
                (λ names. write_all files gov names 0 >>= some_written files))
      from_listing (ok names) r =
          bind-Ensures (write_all files gov names 0) (some_written files) (Counts names 0 d)
            (λ _. IsGoverned d) (λ _. Unit) d (write_all-Ensures names 0 d)
            λ total d' h. checked names total d' r h
      from_listing (err m) r = tt
      from_listing panic r = tt
