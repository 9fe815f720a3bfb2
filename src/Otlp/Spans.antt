-- ===== src/Otlp/Spans.antt =====
-- The spans of the OTLP export, with the ids that link each to its parent.
pub mod Parents
use assayist.Common.{
  ℕ, ◌+◌, String, List, [], ◌∷◌, ◌++◌, Option, none, some, Bool, is_some, and_then, unwrap_or, map,
  take,
}
use assayist.Text.{format}
use assayist.Text.Number.{show_byte}
use assayist.Text.Utf8.{utf8}
use assayist.Json.{
  Value, Fields, number, string, array, object, done, field, of_items, insert_field, get, get_field,
  as_str,
}
use assayist.BTreeMap.{BTreeMap}
use assayist.BTreeMap
use assayist.Platform.{Platform}
use assayist.Contract.{AssayRun}
use assayist.Owner.{le_bytes}
use assayist.Otlp.{u64_str, attributes_from}

module _ {N : Type 0} where
  abbrev pub name_of : Value N → String
  name_of s = unwrap_or (and_then (get "name" s) as_str) ""

  abbrev pub parent_of : Value N → Option String
  parent_of s = and_then (get "parent" s) as_str

-- `entry(k).or_insert(v)`
abbrev pub insert_new : Bool → String → String → BTreeMap String → BTreeMap String
insert_new Bool.true k v m = m
insert_new Bool.false k v m = BTreeMap.insert k v m

abbrev pub or_insert : String → String → BTreeMap String → BTreeMap String
or_insert k v m = insert_new (is_some (BTreeMap.get k m)) k v m

module _ ⦃p : Platform⦄ where
  open p use {N, of_u64, sha256_bytes}

  -- the first eight bytes of a digest, in hexadecimal
  unfoldable pub span_id : String → String → ℕ → String
  span_id run_id name i =
      format
        (map show_byte (take 8 (sha256_bytes (utf8 run_id ++ 0 ∷ (utf8 name ++ 0 ∷ le_bytes 8 i)))))

  -- the first pass: the first span of a name gives the id that the name stands for
  unfoldable pub index_names : String → ℕ → List (Value N) → BTreeMap String → BTreeMap String
  index_names run_id i [] ids = ids
  index_names run_id i (s ∷ ss) ids =
      index_names run_id (i + 1) ss (or_insert (name_of s) (span_id run_id (name_of s) i) ids)

  abbrev pub insert_parent : Option String → Fields N → Fields N
  insert_parent none span = span
  insert_parent (some pid) span = insert_field "parentSpanId" (string pid) span

  -- a span, with the id of its parent
  unfoldable pub span_under : String → Option String → ℕ → Value N → Value N
  span_under run_id parent i s = object (
      insert_field "attributes" (array (of_items (attributes_from (get "attributes" s)))) (
        insert_field "endTimeUnixNano" (u64_str (get "end_unix_nano" s)) (
          insert_field "startTimeUnixNano" (u64_str (get "start_unix_nano" s)) (
            insert_field "kind" (number (of_u64 1)) (
              insert_field "name" (string (name_of s)) (
                insert_parent parent (
                  insert_field "spanId" (string (span_id run_id (name_of s) i))
                    (insert_field "traceId" (string run_id) done))))))))

  abbrev pub span_of : String → BTreeMap String → ℕ → Value N → Value N
  span_of run_id ids i s = span_under run_id (and_then (parent_of s) (λ q. BTreeMap.get q ids)) i s

  unfoldable pub spans_from : String → BTreeMap String → ℕ → List (Value N) → List (Value N)
  spans_from run_id ids i [] = []
  spans_from run_id ids i (s ∷ ss) = span_of run_id ids i s ∷ spans_from run_id ids (i + 1) ss

  unfoldable pub spans : AssayRun N → List (Value N)
  spans run = spans_from run.run_id (index_names run.run_id 0 run.spans []) 0 run.spans
