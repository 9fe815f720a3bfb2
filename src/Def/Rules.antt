-- ===== src/Def/Rules.antt =====
-- The definitions that `validate` of crates/orchestrate/src/def.rs accepts.
use text.Mathlib.TextEquality.{eq_iff}
use assayist.Common.{
  ℕ, String, List, [], ◌∷◌, ◌++◌, Option, none, some, Bool, true, false, not, ◌&&◌, ◌≡◌, ◌≢◌, ◌↔◌,
  refl, ap, sym, ◌∙◌, arith, unwrap_or, length, is_some, All, if◌then◌else◌, ◌==◌, ==_iff,
}
use assayist.Text
use assayist.Text.{mem, format}
use assayist.Json.{Value}
use assayist.BTreeMap.{BTreeMap, get}
use assayist.Platform.{Platform}
use assayist.Def.{
  BenchmarkDef, CaptureEntry, Cardinality, gate_modes, tenancies, card_classes, attach_kinds,
  problem, class_problems, bounded_problems, max_keys_problems, attach_problems, capture_problems,
  all_capture_problems, mode_problems, tenancy_problems, values_problems, compare_problems,
  problems, validation, accepted, validate, where_of,
}

both_nil :
    {P Q : Type 0} (xs ys : List String)
    → ((xs ≡ []) ↔ P)
    → ((ys ≡ []) ↔ Q)
    → (xs ++ ys ≡ []) ↔ (P × Q)
both_nil [] ys hx hy = (λ e. (hx.0 refl, hy.0 e), λ (p, q). hy.1 q)
both_nil (x ∷ xs) ys hx hy = (λ e. cc, λ (p, q). cc (hx.1 p))

problem-nil_iff : (bad : Bool) (text : List String) → (problem bad text ≡ []) ↔ (bad ≡ false)
unfolding problem
problem-nil_iff true text = (λ e. cc, λ h. cc)
problem-nil_iff false text = (λ e. refl, λ h. refl)

-- a bounded series says what its keys are and how many it may have
abbrev pub IsBoundedDecl : Cardinality → Type 0
IsBoundedDecl c = (c.key_source ≢ none) × ((n : ℕ) × (c.max_keys ≡ some n) × (n ≢ 0))

-- an attach kind of the contract, and no uprobe on a hot path
abbrev pub IsAttach : Bool → Option String → Type 0
IsAttach hot_path none = Unit
IsAttach hot_path (some a) = (mem a attach_kinds ≡ true) × ((a ≡ "uprobe") → hot_path ≡ false)

pub record IsCapture (c : CaptureEntry) : Type 0 where
  pub class_known : mem c.cardinality.class card_classes ≡ true
  pub bounded : c.cardinality.class ≡ "bounded" → IsBoundedDecl c.cardinality
  pub attached : IsAttach c.hot_path c.attach

zero_iff : (n : ℕ) → ((n == 0) ≡ false) ↔ (n ≢ 0)
zero_iff n = ground arith

max_keys-nil_iff :
    (at : String) (o : Option ℕ)
    → (max_keys_problems at o ≡ []) ↔ ((n : ℕ) × (o ≡ some n) × (n ≢ 0))
max_keys-nil_iff at none = (λ e. cc, λ h. cc)
max_keys-nil_iff at (some n) = (
  λ e. (n, refl, (zero_iff n).0 ((problem-nil_iff (n == 0) _).0 e)),
  λ (m, e, h).
      (problem-nil_iff (n == 0) _).1 ((zero_iff n).1 λ z. h (ap (λ o. unwrap_or o 0) (sym e) ∙ z)),
)

key_source-nil_iff :
    (o : Option String) (text : List String) → (problem (not (is_some o)) text ≡ []) ↔ (o ≢ none)
unfolding problem
key_source-nil_iff none text = (λ e. cc, λ h. absurd (h refl))
key_source-nil_iff (some x) text = (λ e z. cc, λ h. refl)

not-false_iff : (b : Bool) → (not b ≡ false) ↔ (b ≡ true)
not-false_iff b = ground arith

mem-nil_iff :
    (x : String) (l text : List String) → (problem (not (mem x l)) text ≡ []) ↔ (mem x l ≡ true)
mem-nil_iff x l text = (
  λ e. (not-false_iff (mem x l)).0 ((problem-nil_iff (not (mem x l)) text).0 e),
  λ h. (problem-nil_iff (not (mem x l)) text).1 ((not-false_iff (mem x l)).1 h),
)

bounded-nil_iff :
    (c : CaptureEntry)
    → (bounded_problems c ≡ []) ↔ (c.cardinality.class ≡ "bounded" → IsBoundedDecl c.cardinality)
bounded-nil_iff c = when_bounded (Text.◌==◌ c.cardinality.class "bounded") refl
  where
    decl :
        (problem
              (not (is_some c.cardinality.key_source))
              (where_of c ∷ ": bounded cardinality needs a key_source" ∷ [])
            ++ max_keys_problems (where_of c) c.cardinality.max_keys
          ≡ [])
        ↔ IsBoundedDecl c.cardinality
    decl =
        both_nil _ _
          (key_source-nil_iff c.cardinality.key_source
            (where_of c ∷ ": bounded cardinality needs a key_source" ∷ []))
          (max_keys-nil_iff (where_of c) c.cardinality.max_keys)

    when_bounded :
        (b : Bool)
        → Text.◌==◌ c.cardinality.class "bounded" ≡ b
        → ((if b
              then problem
                  (not (is_some c.cardinality.key_source))
                  (where_of c ∷ ": bounded cardinality needs a key_source" ∷ [])
                ++ max_keys_problems (where_of c) c.cardinality.max_keys
              else [])
            ≡ [])
          ↔ (c.cardinality.class ≡ "bounded" → IsBoundedDecl c.cardinality)
    when_bounded true e =
        (λ h eq. decl.0 h, λ h. decl.1 (h ((eq_iff c.cardinality.class "bounded").0 e)))
    when_bounded false e = (λ h eq. cc (e, (eq_iff c.cardinality.class "bounded").1 eq), λ h. refl)

uprobe-nil_iff :
    (a : String) (hot_path : Bool) (text : List String)
    → (problem (Text.◌==◌ a "uprobe" && hot_path) text ≡ []) ↔ (a ≡ "uprobe" → hot_path ≡ false)
uprobe-nil_iff a hot_path text =
    ground (arith, problem-nil_iff (Text.◌==◌ a "uprobe" && hot_path) text, eq_iff a "uprobe")

attach_problems-nil_iff :
    (at : String) (o : Option String) (hot_path : Bool)
    → (attach_problems at o hot_path ≡ []) ↔ IsAttach hot_path o
attach_problems-nil_iff at none hot_path = (λ e. tt, λ h. refl)
attach_problems-nil_iff at (some a) hot_path =
    both_nil _ _ (mem-nil_iff a attach_kinds _) (uprobe-nil_iff a hot_path _)

capture_problems-nil_iff : (c : CaptureEntry) → (capture_problems c ≡ []) ↔ IsCapture c
unfolding capture_problems
capture_problems-nil_iff c =
    let split =
      both_nil (class_problems c ++ bounded_problems c) _
        (both_nil (class_problems c) (bounded_problems c)
          (mem-nil_iff c.cardinality.class card_classes _) (bounded-nil_iff c))
        (attach_problems-nil_iff (where_of c) c.attach c.hot_path) in
    (
      λ e. let ((k, b), a) = split.0 e in record { class_known = k; bounded = b; attached = a },
      λ h. split.1 ((h.class_known, h.bounded), h.attached),
    )

captures-nil_iff : (cs : List CaptureEntry) → (all_capture_problems cs ≡ []) ↔ All IsCapture cs
unfolding all_capture_problems
captures-nil_iff [] = (λ e. tt, λ h. refl)
captures-nil_iff (c ∷ cs) = both_nil _ _ (capture_problems-nil_iff c) (captures-nil_iff cs)

module _ ⦃p : Platform⦄ where
  open p use {N}

  -- the A/B axis, when one is named, is a swept dimension of two values
  abbrev pub IsAxis : BTreeMap (List (Value N)) → Option String → Type 0
  IsAxis parameterise none = Unit
  IsAxis parameterise (some dim) =
      (values : List (Value N)) × (get dim parameterise ≡ some values) × (length values ≡ 2)

  pub record IsValidDef (def : BenchmarkDef) : Type 0 where
    pub mode_known : mem def.gate.mode gate_modes ≡ true
    pub tenancy_known : mem def.tenancy tenancies ≡ true
    pub axis : IsAxis def.parameterise def.compare
    pub captures : All IsCapture def.capture

  values-nil_iff :
      (dim : String) (o : Option (List (Value N)))
      → (values_problems dim o ≡ [])
        ↔ ((values : List (Value N)) × (o ≡ some values) × (length values ≡ 2))
  values-nil_iff dim none = (λ e. cc, λ h. cc)
  values-nil_iff dim (some values) = (
    λ e. (
      values,
      refl,
      (==_iff (length values) 2).0 (
          (not-false_iff (length values == 2)).0
            ((problem-nil_iff (not (length values == 2)) _).0 e)),
    ),
    λ (v, e, n). (problem-nil_iff (not (length values == 2)) _).1 (
        (not-false_iff (length values == 2)).1
          ((==_iff (length values) 2).1 (ap (λ o. length (unwrap_or o [])) e ∙ n))),
  )

  compare-nil_iff :
      (m : BTreeMap (List (Value N))) (o : Option String) → (compare_problems m o ≡ []) ↔ IsAxis m o
  compare-nil_iff m none = (λ e. tt, λ h. refl)
  compare-nil_iff m (some dim) = values-nil_iff dim (get dim m)

  -- the definitions without a problem
  problems-nil_iff : (def : BenchmarkDef) → (problems def ≡ []) ↔ IsValidDef def
  unfolding problems
  problems-nil_iff def =
      let split =
        both_nil _ (all_capture_problems def.capture)
          (both_nil (mode_problems def ++ tenancy_problems def) _
            (both_nil (mode_problems def) (tenancy_problems def)
              (mem-nil_iff def.gate.mode gate_modes _) (mem-nil_iff def.tenancy tenancies _))
            (compare-nil_iff def.parameterise def.compare))
          (captures-nil_iff def.capture) in
      (
        λ e.
            let (((m, t), a), c) = split.0 e in
            record { mode_known = m; tenancy_known = t; axis = a; captures = c },
        λ h. split.1 (((h.mode_known, h.tenancy_known), h.axis), h.captures),
      )

  accepted_iff : (errs : List String) → (validation errs ≡ accepted) ↔ (errs ≡ [])
  accepted_iff [] = (λ e. refl, λ e. refl)
  accepted_iff (x ∷ errs) = (λ e. cc, λ e. cc)

  -- `validate` accepts a definition exactly when its gate mode and its tenancy are known, the A/B axis,
  -- if it names one, is a swept dimension of two values, and every capture entry has a known
  -- cardinality class, a key source and a ceiling above 0 if it is bounded, and an attach kind, if it
  -- has one, that is known and is not a uprobe on a hot path.
  pub validate-accepted_iff : (def : BenchmarkDef) → (validate def ≡ accepted) ↔ IsValidDef def
  unfolding validate
  validate-accepted_iff def = (
    λ e. (problems-nil_iff def).0 ((accepted_iff (problems def)).0 e),
    λ h. (accepted_iff (problems def)).1 ((problems-nil_iff def).1 h),
  )
