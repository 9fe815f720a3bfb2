-- ===== src/Gate/Collect/Samples.antt =====
-- What a group holds, metric by metric.
use text.Mathlib.TextEquality.{eq_iff}
use mathlib.Core.List.{append_assoc}
use assayist.Common.{
  String, List, [], ◌∷◌, ◌++◌, Option, none, some, Bool, true, false, ◌||◌, ◌≡◌, refl, arith, ap,
  ◌∙◌, if◌then◌else◌, and_then, foldl, Bool-cases, inl, inr, is_empty, sym, Option-cases,
}
use assayist.Text.{◌==◌}
use assayist.Json.{Value}
use assayist.BTreeMap.{get, or_else}
use assayist.BTreeMap.Laws.{get-update}
use assayist.Platform.{Platform}
use assayist.Reduce.{reduce}
use assayist.Reduce.Polarity.{Metric, Polarity}
use assayist.Gate.Run.{params_hash}
use assayist.Gate.Collect.{Group, empty_group, add_metric, collect, collect_from}

infixl 5 ◌>>=◌
abbrev ◌>>=◌ : {A B : Type 0} → Option A → (A → Option B) → Option B
o >>= k = and_then o k

abbrev pub keep_first : Option Polarity → Option Polarity → Option Polarity
keep_first none o = o
keep_first (some pol) o = some pol

module _ {F : Type 0} where
  -- the values of one metric, in order
  abbrev pub values : String → List (Metric F) → List F
  values id [] = []
  values id (m ∷ ms) = if m.id == id then m.value ∷ values id ms else values id ms

  -- whether one of the samples of a metric is contaminated
  abbrev pub tainted : String → List (Metric F) → Bool
  tainted id [] = false
  tainted id (m ∷ ms) = (if m.id == id then m.contaminated else false) || tainted id ms

  -- what a map holds after more values have come
  abbrev pub extend : Option (List F) → List F → Option (List F)
  extend o [] = o
  extend o (v ∷ vs) = some (or_else [] o ++ v ∷ vs)

  -- what a map holds after more flags have come
  abbrev pub extend_flag : String → Option Bool → List (Metric F) → Option Bool
  extend_flag id o ms =
      if is_empty (values id ms) then o else some (or_else false o || tainted id ms)

  -- the direction of the first sample of a metric
  abbrev pub first_polarity : String → List (Metric F) → Option Polarity
  first_polarity id [] = none
  first_polarity id (m ∷ ms) = if m.id == id then some m.polarity else first_polarity id ms

  extend-extend :
      (o : Option (List F)) (v : F) (vs : List F)
      → extend (some (or_else [] o ++ v ∷ [])) vs ≡ extend o (v ∷ vs)
  extend-extend o v [] = refl
  extend-extend o v (w ∷ vs) = ap some (append_assoc (or_else [] o) (v ∷ []) (w ∷ vs))

  -- A group that started as `g` and took in `ms` holds, for each metric, its values in order, whether one of them
  -- was contaminated, and the direction of the first.
  pub record Holds (g g' : Group F) (ms : List (Metric F)) : Type 0 where
    pub samples : (id : String) → get id g'.samples ≡ extend (get id g.samples) (values id ms)
    pub contaminated :
        (id : String) → get id g'.contaminated ≡ extend_flag id (get id g.contaminated) ms
    pub polarity :
        (id : String) → get id g'.polarity ≡ keep_first (get id g.polarity) (first_polarity id ms)

  samples-cons :
      (id cell : String) (m : Metric F) (ms : List (Metric F)) (g : Group F)
      → extend (get id (add_metric cell g m).samples) (values id ms)
        ≡ extend (get id g.samples) (values id (m ∷ ms))
  unfolding add_metric
  samples-cons id cell m ms g = ground (
    arith,
    get-update m.id id [] (λ (vs : List F). vs ++ m.value ∷ []) g.samples,
    eq_iff m.id id,
    extend-extend (get id g.samples) m.value (values id ms),
  )

  untainted :
      (id : String) (ms : List (Metric F)) → is_empty (values id ms) ≡ true → tainted id ms ≡ false
  untainted id [] e = refl
  untainted id (m ∷ ms) e = ground (arith, untainted id ms)

  contaminated-cons :
      (id cell : String) (m : Metric F) (ms : List (Metric F)) (g : Group F)
      → extend_flag id (get id (add_metric cell g m).contaminated) ms
        ≡ extend_flag id (get id g.contaminated) (m ∷ ms)
  unfolding add_metric
  contaminated-cons id cell m ms g = ground (
    arith,
    get-update m.id id false (λ c. c || m.contaminated) g.contaminated,
    eq_iff m.id id,
    untainted id ms,
  )

  polarity-cons :
      (id cell : String) (m : Metric F) (ms : List (Metric F)) (g : Group F)
      → keep_first (get id (add_metric cell g m).polarity) (first_polarity id ms)
        ≡ keep_first (get id g.polarity) (first_polarity id (m ∷ ms))
  unfolding add_metric
  polarity-cons id cell m ms g =
      ground
        (arith, get-update m.id id m.polarity (λ (pol : Polarity). pol) g.polarity, eq_iff m.id id)

  Holds-nil : (g : Group F) → Holds g g []
  Holds-nil g = record {
    samples = λ id. refl;
    contaminated = λ id. refl;
    polarity = λ id. ground arith;
  }

  Holds-foldl :
      (cell : String) (ms : List (Metric F)) (g : Group F)
      → Holds g (foldl (add_metric cell) g ms) ms
  Holds-foldl cell [] g = Holds-nil g
  Holds-foldl cell (m ∷ ms) g =
      let rest = Holds-foldl cell ms (add_metric cell g m) in
      record {
        samples = λ id. rest.samples id ∙ samples-cons id cell m ms g;
        contaminated = λ id. rest.contaminated id ∙ contaminated-cons id cell m ms g;
        polarity = λ id. rest.polarity id ∙ polarity-cons id cell m ms g;
      }

  extend-append :
      (id : String) (o : Option (List F)) (ms ns : List (Metric F))
      → extend (extend o (values id ms)) (values id ns) ≡ extend o (values id (ms ++ ns))
  extend-append id o [] ns = refl
  extend-append id o (m ∷ ms) ns = elim (Bool-cases (m.id == id)) [
    | inl e ↦ rw e (
        ap (λ x. extend x (values id ns)) (sym (extend-extend o m.value (values id ms)))
        ∙ extend-append id (some (or_else [] o ++ m.value ∷ [])) ms ns
        ∙ extend-extend o m.value (values id (ms ++ ns)))
    | inr e ↦ rw e (extend-append id o ms ns)
  ]

  tainted-append :
      (id : String) (ms ns : List (Metric F))
      → tainted id (ms ++ ns) ≡ (tainted id ms || tainted id ns)
  tainted-append id [] ns = refl
  tainted-append id (m ∷ ms) ns = ground (arith, tainted-append id ms ns)

  flag-append :
      (id : String) (o : Option Bool) (ms ns : List (Metric F))
      → extend_flag id (extend_flag id o ms) ns ≡ extend_flag id o (ms ++ ns)
  flag-append id o [] ns = refl
  flag-append id o (m ∷ ms) ns = elim (Bool-cases (m.id == id)) [
    | inl e ↦ rw (e, tainted-append id ms ns) (ground (arith, untainted id ns))
    | inr e ↦ rw e (flag-append id o ms ns)
  ]

  polarity-append :
      (id : String) (o : Option Polarity) (ms ns : List (Metric F))
      → keep_first (keep_first o (first_polarity id ms)) (first_polarity id ns)
        ≡ keep_first o (first_polarity id (ms ++ ns))
  polarity-append id o [] ns = ground arith
  polarity-append id o (m ∷ ms) ns = ground (arith, polarity-append id o ms ns)

  Holds-append :
      {g g' g'' : Group F} (ms ns : List (Metric F))
      → Holds g g' ms
      → Holds g' g'' ns
      → Holds g g'' (ms ++ ns)
  Holds-append {g} ms ns h k = record {
    samples = λ id.
        k.samples id
        ∙ ap (λ o. extend o (values id ns)) (h.samples id)
        ∙ extend-append id (get id g.samples) ms ns;
    contaminated = λ id.
        k.contaminated id
        ∙ ap (λ o. extend_flag id o ns) (h.contaminated id)
        ∙ flag-append id (get id g.contaminated) ms ns;
    polarity = λ id.
        k.polarity id
        ∙ ap (λ o. keep_first o (first_polarity id ns)) (h.polarity id)
        ∙ polarity-append id (get id g.polarity) ms ns;
  }

module _ ⦃p : Platform⦄ where
  open p use {F, N}

  -- all metrics of a group of runs, in order
  pub metrics_of : List (Value N) → Option (List (Metric F))
  metrics_of [] = some []
  metrics_of (run ∷ runs) = do ms ← reduce run; ns ← metrics_of runs; some (ms ++ ns)

  abbrev pub Collected : Group F → Option (List (Metric F)) → Option (Group F) → Type 0
  Collected g none o = o ≡ none
  Collected g (some ms) o = (g' : Group F) × (o ≡ some g') × Holds g g' ms

  Collected-cons :
      {g g₁ : Group F} (ms : List (Metric F)) (o : Option (List (Metric F))) (c : Option (Group F))
      → Holds g g₁ ms
      → Collected g₁ o c
      → Collected g (o >>= λ ns. some (ms ++ ns)) c
  Collected-cons ms none c h k = k
  Collected-cons ms (some ns) c h (g', e, k) = (g', e, Holds-append ms ns h k)

  Collected-from :
      (runs : List (Value N)) (g : Group F) → Collected g (metrics_of runs) (collect_from g runs)
  unfolding metrics_of collect_from
  Collected-from [] g = (g, refl, Holds-nil g)
  Collected-from (run ∷ runs) g = elim (Option-cases (reduce run)) [
    | inl e ↦ rw e refl
    | inr (ms, e) ↦
        let g₁ = foldl (add_metric (params_hash run)) g ms in
        rw e (
          Collected-cons ms (metrics_of runs) (collect_from g₁ runs)
            (Holds-foldl (params_hash run) ms g) (Collected-from runs g₁))
  ]

  -- `collect` gathers, for each metric id, all its values in the order of the runs, whether any of them
  -- was contaminated, and the direction of the first; it panics exactly when the reduction of a run
  -- does.
  pub collect-Holds :
      (runs : List (Value N)) → Collected empty_group (metrics_of runs) (collect runs)
  unfolding collect
  collect-Holds runs = Collected-from runs empty_group
