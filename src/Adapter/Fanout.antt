-- ===== src/Adapter/Fanout.antt =====
-- `FanoutTarget` of crates/orchestrate/src/adapter.rs: several targets that are driven as one.
pub mod Teardown
use assayist.Common.{
  ℕ, ◌+◌, String, List, [], ◌∷◌, ◌++◌, Option, none, some, Bool, if◌then◌else◌, Exec, ok, err,
  panic, unwrap_or, and_then, map,
}
use assayist.Text.{format}
use assayist.Text.Number.{show_ℕ}
use assayist.Json.{Value, Fields, number, string, object, done, field, get, as_str, insert_field}
use assayist.Platform.{Platform}
use assayist.Effects.{Action, done_with, finish, attempt, ◌>>=◌, ◌>>◌}
use assayist.Adapter.{NetAttribution, Target}

-- the cells of a fanout
pub record Cells (N : Type 0) : Type 0 where
  pub start_ns : ℕ
  pub spans : List (Value N)

-- the last element
abbrev pub last {ℓ} : {A : Type ℓ} → List A → Option A
last [] = none
last (x ∷ []) = some x
last (x ∷ y ∷ xs) = last (y ∷ xs)

abbrev pub instance_name : ℕ → String
instance_name i = format ("instance" ∷ show_ℕ i ∷ [])

-- `if let Err(e) = .. { last = Err(e) }`
abbrev pub keep_error : Exec (Unit {0}) → Exec (Unit {0}) → Exec (Unit {0})
keep_error kept (err e) = err e
keep_error kept _ = kept

module _ {N : Type 0} where
  -- the name of the last lifecycle span of the first instance
  abbrev pub last_name : List (Value N) → Option String
  last_name spans = and_then (and_then (last spans) (λ s. get "name" s)) as_str

  abbrev pub name_of : Exec (List (Value N)) → String
  name_of (ok spans) = unwrap_or (last_name spans) "reach_steady"
  name_of _ = "reach_steady"

  abbrev pub insert_layout : ℕ → Option (Value N) → Fields N → Fields N
  insert_layout i (some layout) m = insert_field (instance_name i) layout m
  insert_layout i none m = m

  abbrev pub non_empty : Fields N → Option (Value N)
  non_empty done = none
  non_empty (field k v fs) = some (object (field k v fs))

module _ {W N : Type 0} where
  -- a call on the machine, which leaves the cells alone
  abbrev pub moved : {A : Type 0} → Cells N → A × W → A × (Cells N × W)
  moved c (r, w) = (r, (c, w))

  abbrev pub inner : {A : Type 0} → Action W A → Action (Cells N × W) A
  inner act (c, w) = moved c (act w)

  -- a loop over the instances that stops at the first error
  unfoldable pub each : (Target W N → Action W (Unit {0})) → List (Target W N) → Action W (Unit {0})
  each method [] = done_with tt
  each method (t ∷ ts) = method t >> each method ts

  -- the loop of `teardown`: it goes on behind an error, and the last one is reported
  unfoldable pub teardown_each : List (Target W N) → Exec (Unit {0}) → Action W (Unit {0})
  teardown_each [] kept = finish kept
  teardown_each (t ∷ ts) kept = do r ← attempt t.teardown; teardown_each ts (keep_error kept r)

  unfoldable pub span_name : List (Target W N) → Action W String
  span_name [] = done_with "reach_steady"
  span_name (t ∷ ts) = do r ← attempt t.spans; done_with (name_of r)

  unfoldable pub layouts : ℕ → List (Target W N) → W → Fields N → Fields N
  layouts i [] w m = m
  layouts i (t ∷ ts) w m = layouts (i + 1) ts w (insert_layout i (t.pinning_layout w) m)

  unfoldable pub attributions : List (Target W N) → W → List NetAttribution × W
  attributions [] w = ([], w)
  attributions (t ∷ ts) w =
      let (a, w') = t.net_attribution w in let (taps, w'') = attributions ts w' in (a ++ taps, w'')

  unfoldable pub instance_files : ℕ → List (Target W N) → W → List (String × String)
  instance_files i [] w = []
  instance_files i (t ∷ ts) w =
      map (λ (f : String × String). (instance_name i, f.1)) (t.resident_files w)
      ++ instance_files (i + 1) ts w

  abbrev pub first_version : List (Target W N) → W → String × W
  first_version [] w = ("fanout", w)
  first_version (t ∷ ts) w = t.version w

module _ ⦃p : Platform⦄ {W : Type 0} where
  open p use {N, of_u64}

  module _ (now_nanos : W → ℕ × W) where
    abbrev pub set_start : Action (Cells N × W) (Unit {0})
    set_start (c, w) = let (t, w') = now_nanos w in (ok tt, (record c { start_ns = t }, w'))

    abbrev pub aggregate_span : String → ℕ → ℕ → Value N
    aggregate_span name start end = object (
        field "end_unix_nano" (number (of_u64 end))
          (field "name" (string name) (field "start_unix_nano" (number (of_u64 start)) done)))

    abbrev pub push_span : String → ℕ → Action (Cells N × W) (Unit {0})
    push_span name end (c, w) =
        (ok tt, (record c { spans = c.spans ++ aggregate_span name c.start_ns end ∷ [] }, w))

    abbrev pub clock : Action W ℕ
    clock w = let (t, w') = now_nanos w in (ok t, w')

    abbrev pub fanout_steady : List (Target W N) → Action (Cells N × W) (Unit {0})
    fanout_steady inners = do
      inner (each (λ t. t.reach_steady) inners)
      end ← inner clock
      name ← inner (span_name inners)
      push_span name end

    unfoldable pub fanout : List (Target W N) → Target (Cells N × W) N
    fanout inners = record {
      version = λ s. let (v, w) = first_version inners s.1 in (v, (s.0, w));
      provision = set_start >> inner (each (λ t. t.provision) inners);
      start = inner (each (λ t. t.start) inners);
      reach_steady = fanout_steady inners;
      spans = λ s. (ok s.0.spans, s);
      teardown = inner (teardown_each inners (ok tt));
      pinning_layout = λ s. non_empty (layouts 0 inners s.1 done);
      resident_files = λ s. instance_files 0 inners s.1;
      net_attribution = λ s. let (taps, w) = attributions inners s.1 in (taps, (s.0, w));
    }
