-- ===== src/Def/Product.antt =====
-- The cells of crates/orchestrate/src/def.rs as a cartesian product.
use native.Mathlib.Nat.{suc-mul}
use assayist.Common.{
  ℕ, ◌*◌, List, [], ◌∷◌, ◌++◌, map, ◌≡◌, refl, ap, sym, ◌∙◌, arith, append_assoc, append-nil,
  length, length-append, length-map,
}
use assayist.Platform.{Platform}
use assayist.Def.{BenchmarkDef}
use assayist.Def.Cells.{
  extend_with, extend_all, combine, expand_cells, cell_of, axis_names, axis_values,
}

module _ {A : Type 0} where
  -- each value in front of each tail
  abbrev pub prefix : List A → List (List A) → List (List A)
  prefix [] tails = []
  prefix (v ∷ values) tails = map (λ t. v ∷ t) tails ++ prefix values tails

  -- the choices of one value from each axis; the last axis varies fastest
  abbrev pub product : List (List A) → List (List A)
  product [] = [] ∷ []
  product (values ∷ axes) = prefix values (product axes)

  abbrev pub size : List (List A) → ℕ
  size [] = 1
  size (values ∷ axes) = length values * size axes

  -- each tail behind each head
  abbrev cross : List (List A) → List (List A) → List (List A)
  cross [] tails = []
  cross (h ∷ heads) tails = map (λ t. h ++ t) tails ++ cross heads tails

  map-append :
      (f : List A → List A) (xs ys : List (List A)) → map f (xs ++ ys) ≡ map f xs ++ map f ys
  map-append f [] ys = refl
  map-append f (x ∷ xs) ys = ap (λ l. f x ∷ l) (map-append f xs ys)

  cross-append :
      (xs ys tails : List (List A)) → cross (xs ++ ys) tails ≡ cross xs tails ++ cross ys tails
  cross-append [] ys tails = refl
  cross-append (x ∷ xs) ys tails =
      ap (λ l. map (λ t. x ++ t) tails ++ l) (cross-append xs ys tails)
      ∙ sym (append_assoc (map (λ t. x ++ t) tails) (cross xs tails) (cross ys tails))

  map-snoc :
      (c : List A) (v : A) (tails : List (List A))
      → map (λ t. (c ++ v ∷ []) ++ t) tails ≡ map (λ t. c ++ t) (map (λ t. v ∷ t) tails)
  map-snoc c v [] = refl
  map-snoc c v (t ∷ tails) = rw (map-snoc c v tails, append_assoc c (v ∷ []) t) refl

  cross-extend_with :
      (c values : List A) (tails : List (List A))
      → cross (extend_with c values) tails ≡ map (λ t. c ++ t) (prefix values tails)
  cross-extend_with c [] tails = refl
  cross-extend_with c (v ∷ values) tails =
      rw
        (
          cross-extend_with c values tails,
          map-snoc c v tails,
          map-append (λ t. c ++ t) (map (λ t. v ∷ t) tails) (prefix values tails),
        )
        refl

  cross-extend_all :
      (combos : List (List A)) (values : List A) (tails : List (List A))
      → cross (extend_all combos values) tails ≡ cross combos (prefix values tails)
  cross-extend_all [] values tails = refl
  cross-extend_all (c ∷ combos) values tails =
      rw
        (
          cross-append (extend_with c values) (extend_all combos values) tails,
          cross-extend_with c values tails,
          cross-extend_all combos values tails,
        )
        refl

  cross-nil : (combos : List (List A)) → cross combos ([] ∷ []) ≡ combos
  cross-nil [] = refl
  cross-nil (c ∷ combos) = rw (append-nil c, cross-nil combos) refl

  combine-cross : (axes combos : List (List A)) → combine combos axes ≡ cross combos (product axes)
  unfolding combine
  combine-cross [] combos = sym (cross-nil combos)
  combine-cross (values ∷ axes) combos =
      combine-cross axes (extend_all combos values) ∙ cross-extend_all combos values (product axes)

  map-id : (l : List (List A)) → map (λ t. t) l ++ [] ≡ l
  map-id [] = refl
  map-id (t ∷ l) = ap (λ r. t ∷ r) (map-id l)

  combine-product : (axes : List (List A)) → combine ([] ∷ []) axes ≡ product axes
  combine-product axes = combine-cross axes ([] ∷ []) ∙ map-id (product axes)

  length-prefix :
      (values : List A) (tails : List (List A))
      → length (prefix values tails) ≡ length values * length tails
  length-prefix [] tails = omega arith
  length-prefix (v ∷ values) tails =
      rw
        (
          length-append (map (λ t. v ∷ t) tails) (prefix values tails),
          length-map tails (λ t. v ∷ t),
          length-prefix values tails,
          suc-mul (length values) (length tails),
        )
        (omega arith)

  length-product : (axes : List (List A)) → length (product axes) ≡ size axes
  length-product [] = refl
  length-product (values ∷ axes) =
      length-prefix values (product axes) ∙ ap (λ n. length values * n) (length-product axes)

module _ ⦃p : Platform⦄ where
  -- The cells of a definition are those of the cartesian product of its swept values, in which the last
  -- axis varies fastest, each paired with the axes' names; there are as many as the product of the
  -- numbers of values.
  pub expand_cells-product :
      (def : BenchmarkDef)
      → (expand_cells def
          ≡ map (cell_of (axis_names def.parameterise)) (product (axis_values def.parameterise)))
        × (length (expand_cells def) ≡ size (axis_values def.parameterise))
  unfolding expand_cells
  expand_cells-product def =
      let same = combine-product (axis_values def.parameterise) in
      (
        ap (map (cell_of (axis_names def.parameterise))) same,
        length-map _ _ ∙ ap length same ∙ length-product (axis_values def.parameterise),
      )
