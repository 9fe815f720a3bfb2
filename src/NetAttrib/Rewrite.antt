-- ===== src/NetAttrib/Rewrite.antt =====
-- `rewrite_vm_id_labels` of crates/orchestrate/src/netattrib.rs.
pub mod Idempotence
use assayist.Common.{
  ℕ, ◌^◌, String, List, [], ◌∷◌, ◌++◌, Option, none, some, Bool, true, false, and_then,
  if◌then◌else◌,
}
use assayist.Text.{mem}
use assayist.Text.Number.{parse_uint}
use assayist.Json.{
  Value, Fields, null, bool, number, string, array, object, get, get_in, as_str, get_field,
  insert_field,
}
use assayist.Contract.{Fragment}
use assayist.NetAttrib
use assayist.NetAttrib.{VmProvenance, HandleTable}

abbrev pub note_unknown : String → List String → List String
note_unknown raw unknown = if mem raw unknown then unknown else unknown ++ raw ∷ []

module _ {N : Type 0} where
  -- `s.get("labels").and_then(|l| l.get("vm_id")).and_then(|v| v.as_str())`
  abbrev pub vm_id_label : Value N → Option String
  vm_id_label s = and_then (get_in "vm_id" (get "labels" s)) as_str

  -- `s["labels"]["vm_id"] = v` of an object whose labels are an object
  abbrev pub write_label : Option (Value N) → Value N → Fields N → Value N
  write_label (some (object labels)) v fs =
      object (insert_field "labels" (object (insert_field "vm_id" v labels)) fs)
  write_label _ v fs = object fs

  abbrev pub set_vm_id : Value N → String → Value N
  set_vm_id (object fs) vm_id = write_label (get_field "labels" fs) (string vm_id) fs
  set_vm_id s vm_id = s

  abbrev pub resolve : Option VmProvenance → String → Value N → List String → Value N × List String
  resolve (some v) raw s unknown = (set_vm_id s v.vm_id, unknown)
  resolve none raw s unknown = (s, note_unknown raw unknown)

  abbrev pub look_up :
      HandleTable → Option ℕ → String → Value N → List String → Value N × List String
  look_up t none raw s unknown = (s, unknown)
  look_up t (some handle) raw s unknown = resolve (NetAttrib.get handle t) raw s unknown

  abbrev pub relabel : HandleTable → Option String → Value N → List String → Value N × List String
  relabel t none s unknown = (s, unknown)
  relabel t (some raw) s unknown = look_up t (parse_uint (2 ^ 64) raw) raw s unknown

  -- the body of the inner loop
  unfoldable pub rewrite_series : HandleTable → Value N → List String → Value N × List String
  rewrite_series t s unknown = relabel t (vm_id_label s) s unknown

  unfoldable pub rewrite_all_series :
      HandleTable → List (Value N) → List String → List (Value N) × List String
  rewrite_all_series t [] unknown = ([], unknown)
  rewrite_all_series t (s ∷ ss) unknown =
      let (s', unknown') = rewrite_series t s unknown in
      let (ss', unknown'') = rewrite_all_series t ss unknown' in (s' ∷ ss', unknown'')

  unfoldable pub rewrite_fragments :
      HandleTable → List (Fragment N) → List String → List (Fragment N) × List String
  rewrite_fragments t [] unknown = ([], unknown)
  rewrite_fragments t (f ∷ fs) unknown =
      let (series, unknown') = rewrite_all_series t f.series unknown in
      let (fs', unknown'') = rewrite_fragments t fs unknown' in
      (record f { series = series } ∷ fs', unknown'')

  -- the fragments that are written, and the unresolved handles
  unfoldable pub rewrite_vm_id_labels :
      List (Fragment N) → HandleTable → List (Fragment N) × List String
  rewrite_vm_id_labels fragments t = rewrite_fragments t fragments []
