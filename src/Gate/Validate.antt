-- ===== src/Gate/Validate.antt =====
-- `validate` of crates/gate/src/gate.rs.
pub mod Admission
use Prim.Native.Nat.{Ordering}
use Prim.Native.String.{compare}
use assayist.Common.{
  ℕ, String, List, [], ◌∷◌, ◌++◌, Option, none, some, Bool, true, false, not, ◌&&◌, if◌then◌else◌,
  Exec, ok, err, ◌>>=◌, length, ltb,
}
use assayist.Text.{◌==◌, format}
use assayist.Json.{Value}
use assayist.Platform.{Platform}
use assayist.Gate.Run.{Config, grade_of, tenancy_of}

-- `tenancies.sort()`
unfoldable pub insert_text : String → List String → List String
insert_text t [] = t ∷ []
insert_text t (u ∷ l) = elim (compare u t) [ Ordering.lt ↦ u ∷ insert_text t l | _ ↦ t ∷ u ∷ l ]

unfoldable pub sort_texts : List String → List String
sort_texts [] = []
sort_texts (t ∷ l) = insert_text t (sort_texts l)

-- `tenancies.dedup()`, behind a text that is kept
unfoldable pub dedup_after : String → List String → List String
dedup_after t [] = []
dedup_after t (u ∷ l) = if u == t then dedup_after t l else u ∷ dedup_after u l

unfoldable pub dedup : List String → List String
dedup [] = []
dedup (t ∷ l) = t ∷ dedup_after t l

pub record Admitted : Type 0 where
  pub notes : List String
  pub tenancies : List String

abbrev pub add_text : Option String → List String → List String
add_text none l = l
add_text (some t) l = l ++ t ∷ []

module _ ⦃p : Platform⦄ where
  open p use {N, debug_texts}

  abbrev pub is_reproducible : Value N → Bool
  is_reproducible run = grade_of run == "reproducible"

  abbrev pub refusal : String → String → String
  refusal label g = format (
      label ∷ " run grade is '" ∷ g ∷ "', not 'reproducible'; pass --allow-ungraded to override"
      ∷ [])

  abbrev pub admission_note : String → String → String
  admission_note label g =
      format (label ∷ " run admitted at grade '" ∷ g ∷ "' (--allow-ungraded)" ∷ [])

  abbrev pub admit : String → Value N → Admitted → Admitted
  admit label run s = record {
    notes =
        if is_reproducible run
        then s.notes
        else s.notes ++ admission_note label (grade_of run) ∷ [];
    tenancies = add_text (tenancy_of run) s.tenancies;
  }

  -- the inner loop over one group
  unfoldable pub admit_all : Bool → String → List (Value N) → Admitted → Exec Admitted
  admit_all allow_ungraded label [] s = ok s
  admit_all allow_ungraded label (run ∷ rest) s =
      if not (is_reproducible run) && not allow_ungraded
      then err (refusal label (grade_of run))
      else admit_all allow_ungraded label rest (admit label run s)

  -- `sort`, `dedup` and the refusal
  unfoldable pub compare_tenancies : Admitted → Exec (List String)
  compare_tenancies s =
      let tenancies = dedup (sort_texts s.tenancies) in
      if ltb 1 (length tenancies)
      then err
          (format ("refusing to compare across tenancy classes: " ∷ debug_texts tenancies ∷ []))
      else ok s.notes

  unfoldable pub validate : List (Value N) → List (Value N) → Config → Exec (List String)
  validate a b cfg = do
    s ← admit_all cfg.allow_ungraded "A" a (record { notes = []; tenancies = [] })
    s' ← admit_all cfg.allow_ungraded "B" b s
    compare_tenancies s'
