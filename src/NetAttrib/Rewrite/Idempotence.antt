-- ===== src/NetAttrib/Rewrite/Idempotence.antt =====
-- The rewrite of labels of crates/orchestrate/src/netattrib.rs, done a second time.
use assayist.Common.{ℕ, ◌^◌, String, List, [], ◌∷◌, Option, none, some, ◌≡◌, refl, and_then}
use assayist.Text.Number.{parse_uint}
use assayist.Json.{
  Value, Fields, null, bool, number, string, array, object, get, get_in, as_str, get_field,
  insert_field,
}
use assayist.Json.Laws.{get_field-insert_field}
use assayist.Contract.{Fragment}
use assayist.NetAttrib
use assayist.NetAttrib.{VmProvenance, HandleTable}
use assayist.NetAttrib.Rewrite.{
  vm_id_label, set_vm_id, write_label, resolve, look_up, relabel, rewrite_series,
  rewrite_all_series, rewrite_fragments, rewrite_vm_id_labels,
}

-- no id of the table reads as a handle
abbrev pub IsOpaque : HandleTable → Type 0
IsOpaque t =
    (handle : ℕ) (v : VmProvenance)
    → NetAttrib.get handle t ≡ some v
    → parse_uint (2 ^ 64) v.vm_id ≡ none

module _ {N : Type 0} where
  label-write :
      (o : Option (Value N)) (vm_id : String) (fs : Fields N) {raw : String}
      → and_then (get_in "vm_id" o) as_str ≡ some raw
      → vm_id_label (write_label o (string vm_id) fs) ≡ some vm_id
  unfolding get
  label-write (some (object labels)) vm_id fs h =
      rw
        (
          get_field-insert_field "labels" (object (insert_field "vm_id" (string vm_id) labels)) fs,
          get_field-insert_field "vm_id" (string vm_id) labels,
        )
        refl
  label-write none vm_id fs h = cc
  label-write (some null) vm_id fs h = cc
  label-write (some (bool b)) vm_id fs h = cc
  label-write (some (number n)) vm_id fs h = cc
  label-write (some (string s)) vm_id fs h = cc
  label-write (some (array vs)) vm_id fs h = cc

  vm_id_label-set_vm_id :
      (s : Value N) (vm_id : String) {raw : String}
      → vm_id_label s ≡ some raw
      → vm_id_label (set_vm_id s vm_id) ≡ some vm_id
  unfolding get
  vm_id_label-set_vm_id (object fs) vm_id h = label-write (get_field "labels" fs) vm_id fs h
  vm_id_label-set_vm_id null vm_id h = cc
  vm_id_label-set_vm_id (bool b) vm_id h = cc
  vm_id_label-set_vm_id (number n) vm_id h = cc
  vm_id_label-set_vm_id (string s) vm_id h = cc
  vm_id_label-set_vm_id (array vs) vm_id h = cc

  module _ (t : HandleTable) (opaque_ids : IsOpaque t) where
    resolve-again :
        (o : Option VmProvenance) (handle : ℕ) (raw : String) (s : Value N) (unknown : List String)
        → NetAttrib.get handle t ≡ o
        → parse_uint (2 ^ 64) raw ≡ some handle
        → vm_id_label s ≡ some raw
        → rewrite_series t (resolve o raw s unknown).0 unknown ≡ resolve o raw s unknown
    unfolding rewrite_series
    resolve-again none handle raw s unknown ho hp hl = rw (hl, hp, ho) refl
    resolve-again (some v) handle raw s unknown ho hp hl =
        rw (vm_id_label-set_vm_id s v.vm_id hl, opaque_ids handle v ho) refl

    look_up-again :
        (o : Option ℕ) (raw : String) (s : Value N) (unknown : List String)
        → parse_uint (2 ^ 64) raw ≡ o
        → vm_id_label s ≡ some raw
        → rewrite_series t (look_up t o raw s unknown).0 unknown ≡ look_up t o raw s unknown
    unfolding rewrite_series
    look_up-again none raw s unknown hp hl = rw (hl, hp) refl
    look_up-again (some handle) raw s unknown hp hl =
        resolve-again (NetAttrib.get handle t) handle raw s unknown refl hp hl

    relabel-again :
        (o : Option String) (s : Value N) (unknown : List String)
        → vm_id_label s ≡ o
        → rewrite_series t (relabel t o s unknown).0 unknown ≡ relabel t o s unknown
    unfolding rewrite_series
    relabel-again none s unknown hl = rw hl refl
    relabel-again (some raw) s unknown hl =
        look_up-again (parse_uint (2 ^ 64) raw) raw s unknown refl hl

    series-again :
        (s : Value N) (unknown : List String)
        → rewrite_series t (rewrite_series t s unknown).0 unknown ≡ rewrite_series t s unknown
    unfolding rewrite_series
    series-again s unknown = relabel-again (vm_id_label s) s unknown refl

    all_series-again :
        (ss : List (Value N)) (unknown : List String)
        → rewrite_all_series t (rewrite_all_series t ss unknown).0 unknown
          ≡ rewrite_all_series t ss unknown
    unfolding rewrite_all_series
    all_series-again [] unknown = refl
    all_series-again (s ∷ ss) unknown =
        rw (series-again s unknown, all_series-again ss (rewrite_series t s unknown).1) refl

    fragments-again :
        (fs : List (Fragment N)) (unknown : List String)
        → rewrite_fragments t (rewrite_fragments t fs unknown).0 unknown
          ≡ rewrite_fragments t fs unknown
    unfolding rewrite_fragments
    fragments-again [] unknown = refl
    fragments-again (f ∷ fs) unknown =
        rw
          (
            all_series-again f.series unknown,
            fragments-again fs (rewrite_all_series t f.series unknown).1,
          )
          refl

    -- If no id of the table reads as a `u64`, then rewriting the labels of fragments a second time
    -- changes no fragment and reports the same unresolved handles as the first time.
    pub rewrite_vm_id_labels-again :
        (fragments : List (Fragment N))
        → rewrite_vm_id_labels (rewrite_vm_id_labels fragments t).0 t
          ≡ rewrite_vm_id_labels fragments t
    unfolding rewrite_vm_id_labels
    rewrite_vm_id_labels-again fragments = fragments-again fragments []
