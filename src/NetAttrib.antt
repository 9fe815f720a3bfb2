-- ===== src/NetAttrib.antt =====
-- crates/orchestrate/src/netattrib.rs: the handles of the attributed VMs, and their table.
pub mod Handles
pub mod Rewrite
pub mod Client
pub mod Session
use Prim.Native.Nat.{compare, Ordering}
use assayist.Common.{
  ℕ, ◌+◌, ◌/◌, ◌%◌, ◌^◌, String, List, [], ◌∷◌, Option, none, some, Bool, true, false, length, map,
  ◌==◌, is_empty, if◌then◌else◌,
}
use assayist.Text.{format}
use assayist.Text.Number.{show_byte}
use assayist.Json.{Value, null, bool, number, string, array, object, done, field, of_items, items}
use assayist.Platform.{Platform}

pub record VmProvenance : Type 0 where
  pub handle : ℕ
  pub vm_id : String
  pub tap : String
  pub guest_mac : String
  pub ifindex : ℕ
  pub netns_inum : ℕ

-- `guest_mac_for`
unfoldable pub guest_mac_for : ℕ → String
guest_mac_for index =
    let hi = index / 256 % 256 in
    let lo = index % 256 in format ("02:00:00:00:" ∷ show_byte hi ∷ ":" ∷ show_byte lo ∷ [])

-- `HandleTable`; `by_handle` is a `BTreeMap<u64, VmProvenance>`, ascending by handle
pub record HandleTable : Type 0 where
  pub by_handle : List (ℕ × VmProvenance)
  pub next : ℕ

-- `by_handle.insert(k, v)`
unfoldable pub insert_handle : ℕ → VmProvenance → List (ℕ × VmProvenance) → List (ℕ × VmProvenance)
insert_handle k v [] = (k, v) ∷ []
insert_handle k v ((j, w) ∷ m) = elim (compare k j) [
  | Ordering.lt ↦ (k, v) ∷ (j, w) ∷ m
  | Ordering.eq ↦ (k, v) ∷ m
  | Ordering.gt ↦ (j, w) ∷ insert_handle k v m
]

unfoldable pub find_handle : ℕ → List (ℕ × VmProvenance) → Option VmProvenance
find_handle k [] = none
find_handle k ((j, w) ∷ m) = elim (j == k) [ true ↦ some w | false ↦ find_handle k m ]

abbrev pub new_table : HandleTable
new_table = record { by_handle = []; next = 0 }

-- `reserve`: the handle, and the table behind it; the counter of a release build wraps
unfoldable pub reserve : HandleTable → ℕ × HandleTable
reserve t = (t.next, record t { next = (t.next + 1) % 2 ^ 64 })

-- `HandleTable::insert`
unfoldable pub insert : VmProvenance → HandleTable → HandleTable
insert provenance t = record t {
  by_handle = insert_handle provenance.handle provenance t.by_handle;
}

unfoldable pub assign : String → String → String → ℕ → ℕ → HandleTable → ℕ × HandleTable
assign vm_id tap guest_mac ifindex netns_inum t =
    let (handle, t') = reserve t in
    (
      handle,
      insert
          (record {
            handle = handle;
            vm_id = vm_id;
            tap = tap;
            guest_mac = guest_mac;
            ifindex = ifindex;
            netns_inum = netns_inum;
          })
          t',
    )

unfoldable pub get : ℕ → HandleTable → Option VmProvenance
get handle t = find_handle handle t.by_handle

module _ ⦃p : Platform⦄ where
  open p use {N, of_u64}

  -- one row of the provenance: the keys of the object ascend
  abbrev pub row : VmProvenance → Value N
  row v = object (
      field "guest_mac" (string v.guest_mac) (
        field "handle" (number (of_u64 v.handle)) (
          field "ifindex" (number (of_u64 v.ifindex)) (
            field "netns_inum" (number (of_u64 v.netns_inum))
              (field "tap" (string v.tap) (field "vm_id" (string v.vm_id) done))))))

  unfoldable pub provenance_json : HandleTable → Value N
  provenance_json t = array (of_items (map (λ (e : ℕ × VmProvenance). row e.1) t.by_handle))
