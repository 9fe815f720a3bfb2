-- ===== src/Examples/NetRuns.antt =====
-- Sessions with an owner that follows a script.
use assayist.Common.{
  ℕ, ◌^◌, String, List, [], ◌∷◌, Option, none, some, Bool, true, false, ◌≡◌, refl, ap, sym,
  unwrap_or, ◌==◌, arith, Exec, ok, err, All,
}
use assayist.Json.{Value, object, done, field, string}
use assayist.Text.Number.{parse_uint, parse_digits}
use assayist.Contract.{Fragment}
use assayist.NetAttrib.{VmProvenance, HandleTable, new_table, find_handle, get as table_get}
use assayist.NetAttrib.Handles.{IsAscending}
use assayist.NetAttrib.Client.{Wire, ControlClient, command}
use assayist.NetAttrib.Client.Poison.{
  command-ok, broken_stays, at_read, IsAcknowledged, command_all, IsErr,
}
use assayist.NetAttrib.Session.{Vm}
use assayist.NetAttrib.Session.Registry.{
  Call, registering, deregistering, perform_all, entries, perform_all-registry,
}
use assayist.NetAttrib.Rewrite.{rewrite_vm_id_labels}
use assayist.NetAttrib.Rewrite.Idempotence.{rewrite_vm_id_labels-again, IsOpaque}
use assayist.Examples.Fixed.{Fixed, fixed_platform}

-- the next answer of the owner, and the rest; a script that is over is a closed stream
abbrev answer : List String → Exec String × List String
answer [] = (ok "", [])
answer (r ∷ rs) = (ok r, rs)

abbrev script : Wire
script = record {
  S = List String;
  write_all = λ text s. (none, s);
  flush = λ s. (none, s);
  read_line = answer;
}

abbrev vm : String → ℕ → Vm
vm id ifindex = record {
  vm_id = id;
  tap = "tap0";
  guest_mac = "02:00:00:00:00:01";
  ifindex = ifindex;
  netns_inum = 4026531840;
}

-- three registrations, of which the owner rejects the second
abbrev calls : List Call
calls =
    registering (vm "01JA" 11)
    ∷ registering (vm "01JB" 12)
    ∷ registering (vm "01JC" 13)
    ∷ deregistering 0
    ∷ []

abbrev client : ControlClient (List String)
client = record { reader = "ok" ∷ "err full" ∷ "ok" ∷ "ok" ∷ []; poisoned = false }

perform_all-registry_example :
    let (issued, s) = perform_all script calls (record { client = client; table = new_table }) in
    (s.table.by_handle ≡ entries issued) × IsAscending issued
perform_all-registry_example = perform_all-registry script calls client (omega arith)

command-ok_example :
    (false ≡ false) × (false ≡ false) × IsAcknowledged script "remove 7" ("ok" ∷ []) []
unfolding command
command-ok_example =
    command-ok script "remove 7" (record { reader = "ok" ∷ []; poisoned = false }) accepted
  where
    accepted :
        command script "remove 7" (record { reader = "ok" ∷ []; poisoned = false })
        ≡ (ok tt, record { reader = []; poisoned = false })
    accepted = refl

-- a stream whose owner hangs up at the first read: the text that was sent, and nothing more
abbrev hung_up : Wire
hung_up = record {
  S = List String;
  write_all = λ text s. (none, text ∷ s);
  flush = λ s. (none, s);
  read_line = λ s. (err "timed out", s);
}

abbrev fresh : ControlClient (List String)
fresh = record { reader = []; poisoned = false }

broken_stays_example :
    ((command_all hung_up ("remove 0" ∷ "remove 1" ∷ []) fresh).1
      ≡ record { reader = "remove 0\n" ∷ []; poisoned = true })
    × All IsErr (command_all hung_up ("remove 0" ∷ "remove 1" ∷ []) fresh).0
broken_stays_example =
    broken_stays hung_up "remove 0" ("remove 1" ∷ []) fresh refl
      (at_read ("remove 0\n" ∷ []) ("remove 0\n" ∷ []) "timed out" refl refl refl)

abbrev known : VmProvenance
known = record {
  handle = 0;
  vm_id = "01JA";
  tap = "tap0";
  guest_mac = "02:00:00:00:00:01";
  ifindex = 11;
  netns_inum = 4026531840;
}

abbrev table : HandleTable
table = record { by_handle = (0, known) ∷ []; next = 1 }

table-IsOpaque : IsOpaque table
unfolding table_get find_handle parse_uint parse_digits
table-IsOpaque handle v e = the_known (0 == handle) e
  where
    the_known :
        (b : Bool)
        → elim b [ true ↦ some known | false ↦ none ] ≡ some v
        → parse_uint (2 ^ 64) v.vm_id ≡ none
    the_known true h =
        ap (λ (o : Option VmProvenance). parse_uint (2 ^ 64) (unwrap_or o known).vm_id) (sym h)
    the_known false h = cc

abbrev labelled : String → Value Fixed
labelled handle = object (field "labels" (object (field "vm_id" (string handle) done)) done)

-- one series of a known handle, one of an unknown
abbrev relabelled : List (Fragment Fixed)
relabelled =
    (record { series = labelled "0" ∷ labelled "9" ∷ []; self_metrics = []; capture_meta = none })
    ∷ []

rewrite_vm_id_labels-again_example :
    rewrite_vm_id_labels (rewrite_vm_id_labels relabelled table).0 table
    ≡ rewrite_vm_id_labels relabelled table
rewrite_vm_id_labels-again_example = rewrite_vm_id_labels-again table table-IsOpaque relabelled
