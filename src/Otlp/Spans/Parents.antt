-- ===== src/Otlp/Spans/Parents.antt =====
-- Which parent id an exported span gets.
use mathlib.Core.Path.{fun_ext}
use text.Mathlib.TextEquality.{eq_iff}
use assayist.Common.{
  ℕ, zero, suc, ◌+◌, String, List, [], ◌∷◌, Option, none, some, and_then, map_option, get_elem?,
  if◌then◌else◌, ◌≡◌, refl, ap, ◌∙◌, arith, Option-cases, inl, inr,
}
use assayist.Text.{◌==◌}
use assayist.Json.{Value, string, get, get_field, insert_field}
use assayist.BTreeMap
use assayist.BTreeMap.{BTreeMap}
use assayist.BTreeMap.Laws.{get-insert}
use assayist.Platform.{Platform}
use assayist.Contract.{AssayRun}
use assayist.Otlp.{or_other}
use assayist.Otlp.Spans.{
  name_of, parent_of, insert_new, or_insert, span_id, index_names, span_of, span_under, spans_from,
  spans,
}

get-or_insert :
    (q k v : String) (m : BTreeMap String)
    → BTreeMap.get q (or_insert k v m)
      ≡ or_other (BTreeMap.get q m) (if k == q then some v else none)
get-or_insert q k v m = elim (Option-cases (BTreeMap.get k m)) [
  | inl absent ↦ rw (absent, insert_new) (inserted absent)
  | inr (w, present) ↦ rw (present, insert_new) (kept w present)
]
  where
    inserted :
        BTreeMap.get k m ≡ none
        → BTreeMap.get q (BTreeMap.insert k v m)
          ≡ or_other (BTreeMap.get q m) (if k == q then some v else none)
    inserted absent = ground (arith, get-insert k q v m, eq_iff k q)

    kept :
        (w : String)
        → BTreeMap.get k m ≡ some w
        → BTreeMap.get q m ≡ or_other (BTreeMap.get q m) (if k == q then some v else none)
    kept w present = ground (arith, eq_iff k q)

get_nil : (q : String) (o : Option String) → or_other (BTreeMap.get q []) o ≡ o
unfolding BTreeMap.get
get_nil q o = refl

or_other_assoc : (a b c : Option String) → or_other (or_other a b) c ≡ or_other a (or_other b c)
or_other_assoc none b c = refl
or_other_assoc (some x) b c = refl

module _ ⦃p : Platform⦄ where
  open p use {N}

  -- the id of the first span of a name
  abbrev pub first_id : String → String → ℕ → List (Value N) → Option String
  first_id run_id q i [] = none
  first_id run_id q i (s ∷ ss) =
      or_other (if name_of s == q then some (span_id run_id (name_of s) i) else none)
        (first_id run_id q (i + 1) ss)

  get-index_names :
      (run_id q : String) (i : ℕ) (ss : List (Value N)) (ids : BTreeMap String)
      → BTreeMap.get q (index_names run_id i ss ids)
        ≡ or_other (BTreeMap.get q ids) (first_id run_id q i ss)
  unfolding index_names
  get-index_names run_id q i [] ids = right_none (BTreeMap.get q ids)
    where
      right_none : (o : Option String) → o ≡ or_other o none
      right_none none = refl
      right_none (some x) = refl
  get-index_names run_id q i (s ∷ ss) ids =
      get-index_names run_id q (i + 1) ss (or_insert (name_of s) (span_id run_id (name_of s) i) ids)
      ∙ ap (λ o. or_other o (first_id run_id q (i + 1) ss))
          (get-or_insert q (name_of s) (span_id run_id (name_of s) i) ids)
      ∙ or_other_assoc (BTreeMap.get q ids) _ (first_id run_id q (i + 1) ss)

  get_elem?-spans_from :
      (run_id : String) (ids : BTreeMap String) (i j : ℕ) (ss : List (Value N)) {s : Value N}
      → get_elem? ss j ≡ some s
      → get_elem? (spans_from run_id ids i ss) j ≡ some (span_of run_id ids (i + j) s)
  unfolding spans_from
  get_elem?-spans_from run_id ids i j [] e = cc
  get_elem?-spans_from run_id ids i zero (s ∷ ss) {s = t} e =
      let here : s ≡ t = cc in
      ap (λ n. some (span_of run_id ids n s)) (omega arith)
      ∙ ap (λ u. some (span_of run_id ids (i + 0) u)) here
  get_elem?-spans_from run_id ids i (suc j) (s ∷ ss) {s = t} e =
      get_elem?-spans_from run_id ids (i + 1) j ss e
      ∙ ap (λ n. some (span_of run_id ids n t)) (omega arith)

  id_of_span :
      (run_id : String) (o : Option String) (i : ℕ) (s : Value N)
      → get "spanId" (span_under run_id o i s) ≡ some (string (span_id run_id (name_of s) i))
  unfolding span_under get get_field insert_field
  id_of_span run_id none i s = refl
  id_of_span run_id (some q) i s = refl

  parent_of_span :
      (run_id : String) (o : Option String) (i : ℕ) (s : Value N)
      → get "parentSpanId" (span_under run_id o i s) ≡ map_option string o
  unfolding span_under get get_field insert_field
  parent_of_span run_id none i s = refl
  parent_of_span run_id (some q) i s = refl

  -- the metric that an export makes of a span at a position
  pub record IsLinked (run : AssayRun N) (i : ℕ) (s : Value N) : Type 0 where
    pub span : Value N
    pub placed : get_elem? (spans run) i ≡ some span
    pub id_is : get "spanId" span ≡ some (string (span_id run.run_id (name_of s) i))
    pub parent_is :
        get "parentSpanId" span
        ≡ map_option string (and_then (parent_of s) (λ q. first_id run.run_id q 0 run.spans))

  -- The span that is exported for the span at a position stands at that position, under the id of its
  -- name and position, and its parent id is the id of the first span of the run that has the name of
  -- its parent, if there is one, and is absent otherwise.
  pub spans-IsLinked :
      (run : AssayRun N) (i : ℕ) (s : Value N) → get_elem? run.spans i ≡ some s → IsLinked run i s
  unfolding spans
  spans-IsLinked run i s e =
      let ids = index_names run.run_id 0 run.spans [] in
      let parent = and_then (parent_of s) (λ q. BTreeMap.get q ids) in
      record {
        span = span_under run.run_id parent i s;
        placed =
            get_elem?-spans_from run.run_id ids 0 i run.spans e
            ∙ ap (λ n. some (span_under run.run_id parent n s)) (omega arith);
        id_is = id_of_span run.run_id parent i s;
        parent_is =
            parent_of_span run.run_id parent i s
            ∙ ap (λ (f : String → Option String). map_option string (and_then (parent_of s) f))
                (fun_ext λ q. get-index_names run.run_id q 0 run.spans [] ∙ looked_up q);
      }
    where
      looked_up :
          (q : String)
          → or_other (BTreeMap.get q []) (first_id run.run_id q 0 run.spans)
            ≡ first_id run.run_id q 0 run.spans
      looked_up q = get_nil q (first_id run.run_id q 0 run.spans)
