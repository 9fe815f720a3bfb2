-- ===== src/Gate/Validate/Admission.antt =====
-- Which groups `validate` lets through.
use mathlib.Core.Path.{subst}
use mathlib.Core.List.{append_assoc, append-nil}
use text.Mathlib.TextEquality.{eq_iff}
use assayist.Common.{
  String, List, [], ◌∷◌, ◌++◌, Option, none, some, Bool, true, not, ◌&&◌, ◌||◌, ◌≡◌, ◌↔◌, ◌≤◌, refl,
  arith, All, All-append, Exec, ok, err, panic, ◌>>=◌, length, ltb, ap, sym, ◌∙◌, Bool-cases, inl,
  inr,
}
use assayist.Json.{Value}
use assayist.Platform.{Platform}
use assayist.Gate.Run.{Config, tenancy_of}
use assayist.Gate.Validate.{
  insert_text, sort_texts, dedup_after, dedup, Admitted, add_text, is_reproducible, admit,
  admit_all, compare_tenancies, validate,
}

-- all texts of a list are one text
abbrev pub Same : String → List String → Type 0
Same t = All (λ u. u ≡ t)

abbrev pub AllSame : List String → Type 0
AllSame [] = Unit
AllSame (t ∷ l) = Same t l

Same-insert : (t u : String) (l : List String) → (Same t (insert_text u l)) ↔ Same t (u ∷ l)
unfolding insert_text
Same-insert t u [] = (λ h. h, λ h. h)
Same-insert t u (v ∷ l) = ground (arith, Same-insert t u l)

Same-sort : (t : String) (l : List String) → Same t (sort_texts l) ↔ Same t l
unfolding sort_texts
Same-sort t [] = (λ h. h, λ h. h)
Same-sort t (u ∷ l) = ground (arith, Same-insert t u (sort_texts l), Same-sort t l)

dedup_after-nil : (t : String) (l : List String) → (length (dedup_after t l) ≡ 0) ↔ Same t l
unfolding dedup_after
dedup_after-nil t [] = (λ h. tt, λ h. refl)
dedup_after-nil t (u ∷ l) = ground (arith, eq_iff u t, dedup_after-nil t l)

dedup-le-one : (l : List String) → (length (dedup l) ≤ 1) ↔ AllSame l
unfolding dedup
dedup-le-one [] = (λ h. tt, λ h. omega arith)
dedup-le-one (t ∷ l) = ground (arith, dedup_after-nil t l)

Same-other : (t u : String) (l : List String) → u ≡ t → Same t l → Same u l
Same-other t u [] e h = tt
Same-other t u (v ∷ l) e h = (h.0 ∙ sym e, Same-other t u l e h.1)

AllSame-of_Same : (t : String) (l : List String) → Same t l → AllSame l
AllSame-of_Same t [] h = tt
AllSame-of_Same t (u ∷ l) h = Same-other t u l h.0 h.1

AllSame-sort : (t : String) (l : List String) → AllSame (sort_texts (t ∷ l)) → Same t l
AllSame-sort t l h = first (sort_texts (t ∷ l)) refl h
  where
    first : (s : List String) → s ≡ sort_texts (t ∷ l) → AllSame s → Same t l
    first [] e h = ((Same-sort t (t ∷ l)).0 (subst (Same t) e tt)).1
    first (u ∷ s) e h =
        let all = (Same-sort u (t ∷ l)).0 (subst (Same u) e (refl, h)) in
        Same-other u t l all.0 all.1

-- the order and the duplicates do not matter to the tenancy check
agree : (l : List String) → (length (dedup (sort_texts l)) ≤ 1) ↔ AllSame l
unfolding sort_texts
agree [] = dedup-le-one []
agree (t ∷ l) = (
  λ h. AllSame-sort t l ((dedup-le-one (sort_texts (t ∷ l))).0 h),
  λ h.
      (dedup-le-one (sort_texts (t ∷ l))).1
        (AllSame-of_Same t (sort_texts (t ∷ l)) ((Same-sort t (t ∷ l)).1 (refl, h))),
)

module _ ⦃p : Platform⦄ where
  open p use {N, debug_texts}

  abbrev pub IsAdmitted : Bool → Value N → Type 0
  IsAdmitted allow_ungraded run = (is_reproducible run || allow_ungraded) ≡ true

  abbrev pub tenancies_of : List (Value N) → List String
  tenancies_of [] = []
  tenancies_of (run ∷ rest) = add_text (tenancy_of run) [] ++ tenancies_of rest

  -- what one group comes to: an error, or the tenancies behind those that were there
  abbrev Admits : Bool → List (Value N) → Admitted → Exec Admitted → Type 0
  Admits allow runs s (ok s') =
      All (IsAdmitted allow) runs × (s'.tenancies ≡ s.tenancies ++ tenancies_of runs)
  Admits allow runs s (err e) = ¬ All (IsAdmitted allow) runs
  Admits allow runs s panic = ⊥

  add_text-append :
      (o : Option String) (l m : List String) → add_text o l ++ m ≡ l ++ (add_text o [] ++ m)
  add_text-append none l m = refl
  add_text-append (some t) l m = append_assoc l (t ∷ []) m

  Admits-cons :
      (allow : Bool) (label : String) (run : Value N) (rest : List (Value N)) (s : Admitted)
      (r : Exec Admitted)
      → IsAdmitted allow run
      → Admits allow rest (admit label run s) r
      → Admits allow (run ∷ rest) s r
  Admits-cons allow label run rest s (ok s') a h =
      ((a, h.0), h.1 ∙ add_text-append (tenancy_of run) s.tenancies (tenancies_of rest))
  Admits-cons allow label run rest s (err e) a h = λ all. h all.1
  Admits-cons allow label run rest s panic a h = h

  admit_all-Admits :
      (allow : Bool) (label : String) (runs : List (Value N)) (s : Admitted)
      → Admits allow runs s (admit_all allow label runs s)
  unfolding admit_all
  admit_all-Admits allow label [] s = (tt, sym (append-nil s.tenancies))
  admit_all-Admits allow label (run ∷ rest) s =
      elim (Bool-cases (not (is_reproducible run) && not allow)) [
        | inl e ↦ rw e (λ all. ground (arith, all.0))
        | inr e ↦ rw e (
            Admits-cons allow label run rest s _ (ground arith)
              (admit_all-Admits allow label rest (admit label run s)))
      ]

  All-left : (P : Value N → Type 0) (a b : List (Value N)) → All P (a ++ b) → All P a
  All-left P [] b h = tt
  All-left P (x ∷ a) b h = (h.0, All-left P a b h.1)

  All-right : (P : Value N → Type 0) (a b : List (Value N)) → All P (a ++ b) → All P b
  All-right P [] b h = h
  All-right P (x ∷ a) b h = All-right P a b h.1

  tenancies_of-append :
      (a b : List (Value N)) → tenancies_of (a ++ b) ≡ tenancies_of a ++ tenancies_of b
  tenancies_of-append [] b = refl
  tenancies_of-append (x ∷ a) b =
      ap (◌++◌ (add_text (tenancy_of x) [])) (tenancies_of-append a b)
      ∙ sym (append_assoc (add_text (tenancy_of x) []) (tenancies_of a) (tenancies_of b))

  Admits-then :
      (allow : Bool) (a b : List (Value N)) (s s' : Admitted) (r : Exec Admitted)
      → Admits allow a s (ok s')
      → Admits allow b s' r
      → Admits allow (a ++ b) s r
  Admits-then allow a b s s' (ok s'') h k = (
    All-append (IsAdmitted allow) a b h.0 k.0,
    k.1
        ∙ ap (λ l. l ++ tenancies_of b) h.1
        ∙ append_assoc s.tenancies (tenancies_of a) (tenancies_of b)
        ∙ ap (◌++◌ s.tenancies) (sym (tenancies_of-append a b)),
  )
  Admits-then allow a b s s' (err e) h k = λ all. k (All-right _ a b all)
  Admits-then allow a b s s' panic h k = k

  abbrev start : Admitted
  start = record { notes = []; tenancies = [] }

  abbrev pub IsComparable : Config → List (Value N) → List (Value N) → Type 0
  IsComparable cfg a b =
      All (IsAdmitted cfg.allow_ungraded) (a ++ b) × AllSame (tenancies_of (a ++ b))

  abbrev Verdict : Config → List (Value N) → List (Value N) → Exec (List String) → Type 0
  Verdict cfg a b r = ((notes : List String) × (r ≡ ok notes)) ↔ IsComparable cfg a b

  compare_tenancies-Verdict :
      (cfg : Config) (a b : List (Value N)) (s' : Admitted)
      → Admits cfg.allow_ungraded (a ++ b) start (ok s')
      → Verdict cfg a b (compare_tenancies s')
  unfolding compare_tenancies
  compare_tenancies-Verdict cfg a b s' h =
      let same =
        subst (λ l. (length (dedup (sort_texts s'.tenancies)) ≤ 1) ↔ AllSame l) h.1
          (agree s'.tenancies) in
      elim (Bool-cases (ltb 1 (length (dedup (sort_texts s'.tenancies))))) [
        | inl e ↦ rw e (λ (n, q). cc q, λ c. absurd (ground (arith, same.1 c.1)))
        | inr e ↦ rw e (λ n. (h.0, same.0 (ground arith)), λ c. (s'.notes, refl))
      ]

  second_group :
      (cfg : Config) (a b : List (Value N)) (s : Admitted) (r : Exec Admitted)
      → Admits cfg.allow_ungraded a start (ok s)
      → Admits cfg.allow_ungraded b s r
      → Verdict cfg a b (r >>= compare_tenancies)
  second_group cfg a b s (ok s') h k =
      compare_tenancies-Verdict cfg a b s' (Admits-then cfg.allow_ungraded a b start s (ok s') h k)
  second_group cfg a b s (err e) h k = (λ (n, q). cc q, λ c. absurd (k (All-right _ a b c.0)))
  second_group cfg a b s panic h k = absurd k

  first_group :
      (cfg : Config) (a b : List (Value N)) (r : Exec Admitted)
      → Admits cfg.allow_ungraded a start r
      → Verdict cfg a b (r >>= λ s. admit_all cfg.allow_ungraded "B" b s >>= compare_tenancies)
  first_group cfg a b (ok s) h =
      second_group cfg a b s _ h (admit_all-Admits cfg.allow_ungraded "B" b s)
  first_group cfg a b (err e) h = (λ (n, q). cc q, λ c. absurd (h (All-left _ a b c.0)))
  first_group cfg a b panic h = absurd h

  -- `validate` lets two groups through exactly when every run is graded reproducible, or ungraded runs
  -- are allowed, and all the tenancies that the runs name are one.
  pub validate_iff :
      (a b : List (Value N)) (cfg : Config)
      → ((notes : List String) × (validate a b cfg ≡ ok notes)) ↔ IsComparable cfg a b
  unfolding validate
  validate_iff a b cfg =
      first_group cfg a b (admit_all cfg.allow_ungraded "A" a start)
        (admit_all-Admits cfg.allow_ungraded "A" a start)
