-- ===== src/Def/Cells.antt =====
-- `expand_cells`, `params_hash` and `canonical_json` of crates/orchestrate/src/def.rs.
use Prim.Native.Nat.{Ordering}
use Prim.Native.String.{compare}
use assayist.Common.{String, List, [], ◌∷◌, ◌++◌, map}
use assayist.Text.{format}
use assayist.Json.{
  Value, Items, Fields, null, bool, number, string, array, object, end, item, done, field,
  insert_field,
}
use assayist.BTreeMap.{BTreeMap}
use assayist.Platform.{Platform}
use assayist.Def.{BenchmarkDef, sha256_hex, join}

pub record Cell (N : Type 0) : Type 0 where
  pub params : Value N
  pub params_hash : String

module _ {A : Type 0} where
  -- the two inner loops: every combination, extended by every value of an axis
  abbrev pub extend_with : List A → List A → List (List A)
  extend_with combo [] = []
  extend_with combo (v ∷ values) = (combo ++ v ∷ []) ∷ extend_with combo values

  abbrev pub extend_all : List (List A) → List A → List (List A)
  extend_all [] values = []
  extend_all (combo ∷ combos) values = extend_with combo values ++ extend_all combos values

  -- the outer loop over the axes
  unfoldable pub combine : List (List A) → List (List A) → List (List A)
  combine combos [] = combos
  combine combos (values ∷ axes) = combine (extend_all combos values) axes

-- a pair of a key and its text, in its place among pairs that ascend by key
unfoldable pub insert_key : String × String → List (String × String) → List (String × String)
insert_key e [] = e ∷ []
insert_key e (d ∷ l) = elim (compare d.0 e.0) [ Ordering.lt ↦ d ∷ insert_key e l | _ ↦ e ∷ d ∷ l ]

module _ ⦃p : Platform⦄ where
  open p use {N, print}

  abbrev pub member : String × String → String
  member (k, text) = format (print (string k) ∷ ":" ∷ text ∷ [])

  unfoldable mutual
    pub canonical_json : Value N → String
    canonical_json (object fs) =
        format ("{" ∷ join "," (map member (canonical_fields fs)) ∷ "}" ∷ [])
    canonical_json (array vs) = format ("[" ∷ join "," (canonical_items vs) ∷ "]" ∷ [])
    canonical_json null = print null
    canonical_json (bool b) = print (bool b)
    canonical_json (number n) = print (number n)
    canonical_json (string s) = print (string s)

    pub canonical_items : Items N → List String
    canonical_items end = []
    canonical_items (item v vs) = canonical_json v ∷ canonical_items vs

    -- the members, sorted by key
    pub canonical_fields : Fields N → List (String × String)
    canonical_fields done = []
    canonical_fields (field k v fs) = insert_key (k, canonical_json v) (canonical_fields fs)

  unfoldable pub params_hash : Value N → String
  params_hash params = sha256_hex (canonical_json params)

  -- the object that pairs the axes' names with a combination
  unfoldable pub zip_params : List String → List (Value N) → Fields N → Fields N
  zip_params (name ∷ names) (v ∷ vs) acc = zip_params names vs (insert_field name v acc)
  zip_params _ _ acc = acc

  abbrev pub cell_of : List String → List (Value N) → Cell N
  cell_of names combo =
      let params = object (zip_params names combo done) in
      record { params = params; params_hash = params_hash params }

  abbrev pub axis_names : BTreeMap (List (Value N)) → List String
  axis_names m = map (λ (e : String × List (Value N)). e.0) m

  abbrev pub axis_values : BTreeMap (List (Value N)) → List (List (Value N))
  axis_values m = map (λ (e : String × List (Value N)). e.1) m

  unfoldable pub expand_cells : BenchmarkDef → List (Cell N)
  expand_cells def =
      map (cell_of (axis_names def.parameterise)) (combine ([] ∷ []) (axis_values def.parameterise))
