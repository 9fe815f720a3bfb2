-- ===== src/Reduce/LabelOrder.antt =====
-- The suffix of a series' labels, against the order of the labels.
use mathlib.Core.List.{Perm, Permᴰ}
use mathlib.Core.List.Permᴰ.{nil, cons, swap, trans}
use mathlib.Core.Path.{subst, subst₂, ap₂}
use mathlib.Core.Logic.{∥∥₁_elim}
use text.Mathlib.TextEquality.{path_by_compare, IsScalar-prop}
use assayist.Common.{String, List, [], ◌∷◌, some, map, ◌≡◌, ◌≢◌, refl, arith, All, ap, sym, ◌∙◌}
use assayist.Text.Order.{compare_flip, ≺_irrefl, ≺_trans}
use assayist.Json.{Value, object, Fields, fields}
use assayist.Platform.{Platform}
use assayist.Reduce.Labels.{insert_pair, sort_pairs, push_pairs, scalar_to_string, labels_suffix}

String_set : IsSet String
String_set = hlevel IsScalar-prop

insert_pair_comm :
    (d e : String × String) (l : List (String × String))
    → d.0 ≢ e.0
    → insert_pair d (insert_pair e l) ≡ insert_pair e (insert_pair d l)
unfolding insert_pair
insert_pair_comm d e [] h = ground (
  arith,
  path_by_compare d.0 e.0,
  compare_flip d.0 e.0,
  compare_flip e.0 d.0,
  ≺_trans d.0 e.0 d.0,
  ≺_irrefl d.0,
)
insert_pair_comm d e (c ∷ l) h = ground (
  arith,
  insert_pair_comm d e l h,
  path_by_compare d.0 e.0,
  compare_flip d.0 e.0,
  compare_flip e.0 d.0,
  ≺_trans d.0 e.0 d.0,
  ≺_irrefl d.0,
  path_by_compare c.0 e.0,
  path_by_compare c.0 d.0,
  compare_flip c.0 e.0,
  compare_flip c.0 d.0,
  ≺_trans e.0 c.0 d.0,
  ≺_trans d.0 c.0 e.0,
)

-- every key stands once
abbrev pub Distinct {ℓ} : {V : Type ℓ} → List (String × V) → Type ℓ
Distinct [] = Unit
Distinct {V} ((k, v) ∷ l) = All (λ (e : String × V). k ≢ e.0) l × Distinct l

All-Permᴰ {ℓ κ} : {A : Type ℓ} (P : A → Type κ) {l l' : List A} → Permᴰ l l' → All P l → All P l'
All-Permᴰ P nil a = a
All-Permᴰ P (cons e q) a = (subst P e a.0, All-Permᴰ P q a.1)
All-Permᴰ P (swap e e') a = (subst P e' a.1.0, (subst P e a.0, a.1.1))
All-Permᴰ P (trans q r) a = All-Permᴰ P r (All-Permᴰ P q a)

Distinct-Permᴰ : {V : Type 0} {l l' : List (String × V)} → Permᴰ l l' → Distinct l → Distinct l'
Distinct-Permᴰ nil d = d
Distinct-Permᴰ {V} (cons {l₂ = l'} e q) d =
    subst (λ (x : String × V). Distinct (x ∷ l')) e (All-Permᴰ _ q d.0, Distinct-Permᴰ q d.1)
Distinct-Permᴰ {V} (swap {l = l} e e') d =
    subst₂ (λ (x y : String × V). Distinct (x ∷ y ∷ l)) e' e
      ((λ z. d.0.0 (sym z), d.1.0), (d.0.1, d.1.1))
Distinct-Permᴰ (trans q r) d = Distinct-Permᴰ r (Distinct-Permᴰ q d)

sort_pairs-Permᴰ :
    {l l' : List (String × String)} → Permᴰ l l' → Distinct l → sort_pairs l ≡ sort_pairs l'
unfolding sort_pairs
sort_pairs-Permᴰ nil d = refl
sort_pairs-Permᴰ (cons e q) d = ap₂ insert_pair e (sort_pairs-Permᴰ q d.1)
sort_pairs-Permᴰ (swap {a = a} {b = b} {l = l} e e') d =
    insert_pair_comm a b (sort_pairs l) d.0.0
    ∙ ap₂ (λ x y. insert_pair x (insert_pair y (sort_pairs l))) e' e
sort_pairs-Permᴰ (trans q r) d = sort_pairs-Permᴰ q d ∙ sort_pairs-Permᴰ r (Distinct-Permᴰ q d)

module _ ⦃p : Platform⦄ where
  open p use {N}

  Permᴰ-map : {A B : Type 0} (g : A → B) {l l' : List A} → Permᴰ l l' → Permᴰ (map g l) (map g l')
  Permᴰ-map g nil = nil
  Permᴰ-map g (cons e q) = cons (ap g e) (Permᴰ-map g q)
  Permᴰ-map g (swap e e') = swap (ap g e) (ap g e')
  Permᴰ-map g (trans q r) = trans (Permᴰ-map g q) (Permᴰ-map g r)

  All-label_pairs :
      (k : String) (l : List (String × Value N))
      → All (λ (e : String × Value N). k ≢ e.0) l
      → All (λ (e : String × String). k ≢ e.0) (map (λ e. (e.0, scalar_to_string e.1)) l)
  All-label_pairs k [] a = tt
  All-label_pairs k (e ∷ l) a = (a.0, All-label_pairs k l a.1)

  Distinct-label_pairs :
      (l : List (String × Value N))
      → Distinct l
      → Distinct (map (λ e. (e.0, scalar_to_string e.1)) l)
  Distinct-label_pairs [] d = tt
  Distinct-label_pairs ((k, v) ∷ l) d = (All-label_pairs k l d.0, Distinct-label_pairs l d.1)

  -- Two label objects that hold the same labels in any two orders, each key once, give the same suffix.
  pub labels_suffix-perm :
      (a b : Fields N)
      → Distinct (fields a)
      → Perm (fields a) (fields b)
      → labels_suffix (some (object a)) ≡ labels_suffix (some (object b))
  unfolding labels_suffix
  labels_suffix-perm a b d q =
      ∥∥₁_elim q (String_set _ _) (λ q'.
        ap push_pairs (sort_pairs-Permᴰ (Permᴰ-map _ q') (Distinct-label_pairs (fields a) d)))
