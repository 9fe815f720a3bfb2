-- ===== src/NetAttrib/Session.antt =====
-- `AttributionSession` of crates/orchestrate/src/netattrib.rs.
pub mod Registry
use assayist.Common.{ℕ, String, Exec, ok, err, panic}
use assayist.Platform.{Platform}
use assayist.NetAttrib.{VmProvenance, HandleTable, reserve, insert}
use assayist.NetAttrib.Client.{Wire, ControlClient, add, state, remove}

pub record AttributionSession (S : Type 0) : Type 0 where
  pub client : ControlClient S
  pub table : HandleTable

-- the arguments of `register`
pub record Vm : Type 0 where
  pub vm_id : String
  pub tap : String
  pub guest_mac : String
  pub ifindex : ℕ
  pub netns_inum : ℕ

abbrev pub provenance_of : Vm → ℕ → VmProvenance
provenance_of vm handle = record {
  handle = handle;
  vm_id = vm.vm_id;
  tap = vm.tap;
  guest_mac = vm.guest_mac;
  ifindex = vm.ifindex;
  netns_inum = vm.netns_inum;
}

module _ ⦃p : Platform⦄ (w : Wire) where
  open w use {S}

  -- what follows the owner's answer
  abbrev pub registered :
      Vm → ℕ → HandleTable → Exec (Unit {0}) × ControlClient S → Exec ℕ × AttributionSession S
  registered vm handle t (ok u, c) =
      (ok handle, record { client = c; table = insert (provenance_of vm handle) t })
  registered vm handle t (err e, c) = (err e, record { client = c; table = t })
  registered vm handle t (panic, c) = (panic, record { client = c; table = t })

  unfoldable pub register : Vm → AttributionSession S → Exec ℕ × AttributionSession S
  register vm s =
      let (handle, t) = reserve s.table in
      registered vm handle t (add w vm.ifindex handle vm.netns_inum s.client)

  abbrev with_client :
      HandleTable → Exec (Unit {0}) × ControlClient S → Exec (Unit {0}) × AttributionSession S
  with_client t (r, c) = (r, record { client = c; table = t })

  unfoldable pub set_state : ℕ → ℕ → AttributionSession S → Exec (Unit {0}) × AttributionSession S
  set_state handle st s = with_client s.table (state w handle st s.client)

  unfoldable pub deregister : ℕ → AttributionSession S → Exec (Unit {0}) × AttributionSession S
  deregister handle s = with_client s.table (remove w handle s.client)
