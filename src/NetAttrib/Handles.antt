-- ===== src/NetAttrib/Handles.antt =====
-- How the handle table of crates/orchestrate/src/netattrib.rs grows: its keys ascend with the counter.
use assayist.Common.{ℕ, ◌+◌, ◌<◌, List, [], ◌∷◌, ◌++◌, some, ◌≡◌, refl, arith, All}
use assayist.NetAttrib.{VmProvenance, insert_handle, find_handle}

module _ {A : Type 0} where
  -- the handles of all entries are below a bound
  abbrev pub Below : ℕ → List (ℕ × A) → Type 0
  Below n = All (λ (e : ℕ × A). e.0 < n)

  abbrev pub IsAscending : List (ℕ × A) → Type 0
  IsAscending [] = Unit
  IsAscending ((h, a) ∷ l) = All (λ (e : ℕ × A). h < e.0) l × IsAscending l

  pub Below-suc : (n : ℕ) (l : List (ℕ × A)) → Below n l → Below (n + 1) l
  Below-suc n [] h = tt
  Below-suc n ((j, a) ∷ l) h = (omega (arith, h.0), Below-suc n l h.1)

  pub Below-snoc : (n : ℕ) (l : List (ℕ × A)) (a : A) → Below n l → Below (n + 1) (l ++ (n, a) ∷ [])
  Below-snoc n [] a h = (omega arith, tt)
  Below-snoc n ((j, b) ∷ l) a h = (omega (arith, h.0), Below-snoc n l a h.1)

  above-snoc :
      (j n : ℕ) (l : List (ℕ × A)) (a : A)
      → j < n
      → All (λ (e : ℕ × A). j < e.0) l
      → All (λ (e : ℕ × A). j < e.0) (l ++ (n, a) ∷ [])
  above-snoc j n [] a h hl = (h, tt)
  above-snoc j n ((i, b) ∷ l) a h hl = (hl.0, above-snoc j n l a h hl.1)

  pub IsAscending-snoc :
      (n : ℕ) (l : List (ℕ × A)) (a : A)
      → Below n l
      → IsAscending l
      → IsAscending (l ++ (n, a) ∷ [])
  IsAscending-snoc n [] a h s = (tt, tt)
  IsAscending-snoc n ((j, b) ∷ l) a h s =
      (above-snoc j n l a h.0 s.0, IsAscending-snoc n l a h.1 s.1)

pub insert_handle-last :
    (k : ℕ) (v : VmProvenance) (m : List (ℕ × VmProvenance))
    → Below k m
    → insert_handle k v m ≡ m ++ (k, v) ∷ []
unfolding insert_handle
insert_handle-last k v [] h = refl
insert_handle-last k v ((j, w) ∷ m) h = ground (arith, insert_handle-last k v m, h.0, h.1)

pub find-insert_handle :
    (k j : ℕ) (v : VmProvenance) (m : List (ℕ × VmProvenance))
    → find_handle k (insert_handle k v m) ≡ some v
unfolding insert_handle find_handle
find-insert_handle k j v [] = ground arith
find-insert_handle k j v ((i, w) ∷ m) = ground (arith, find-insert_handle k j v m)
