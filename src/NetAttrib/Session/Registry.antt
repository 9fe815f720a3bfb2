-- ===== src/NetAttrib/Session/Registry.antt =====
-- What a run of an attribution session leaves in its table.
use mathlib.Core.Path.{subst}
use assayist.Common.{
  ℕ, ◌+◌, ◌%◌, ◌^◌, ◌<◌, ◌≤◌, List, [], ◌∷◌, ◌++◌, map, ◌≡◌, refl, ap, sym, ◌∙◌, arith, Exec, ok,
  err, panic, length, append-nil, append_assoc,
}
use assayist.Platform.{Platform}
use assayist.NetAttrib.{VmProvenance, HandleTable, new_table, reserve, insert}
use assayist.NetAttrib.Handles.{
  Below, IsAscending, Below-suc, Below-snoc, IsAscending-snoc, insert_handle-last,
}
use assayist.NetAttrib.Client.{Wire, ControlClient, add}
use assayist.NetAttrib.Session.{
  AttributionSession, Vm, provenance_of, registered, register, set_state, deregister,
}

-- the calls on a session
pub data Call : Type 0 where
  registering : Vm → Call
  setting_state : ℕ → ℕ → Call
  deregistering : ℕ → Call

-- the VMs whose registration succeeded, with the handles that it returned
abbrev pub issued_by : Vm → Exec ℕ → List (ℕ × Vm)
issued_by vm (ok handle) = (handle, vm) ∷ []
issued_by vm (err e) = []
issued_by vm panic = []

abbrev pub entries : List (ℕ × Vm) → List (ℕ × VmProvenance)
entries = map (λ (e : ℕ × Vm). (e.0, provenance_of e.1 e.0))

module _ ⦃p : Platform⦄ (w : Wire) where
  open w use {S}

  unfoldable pub perform : Call → AttributionSession S → List (ℕ × Vm) × AttributionSession S
  perform (registering vm) s = let (r, s') = register w vm s in (issued_by vm r, s')
  perform (setting_state handle st) s = ([], (set_state w handle st s).1)
  perform (deregistering handle) s = ([], (deregister w handle s).1)

  unfoldable pub perform_all :
      List Call → AttributionSession S → List (ℕ × Vm) × AttributionSession S
  perform_all [] s = ([], s)
  perform_all (c ∷ cs) s =
      let (issued, s') = perform c s in let (more, s'') = perform_all cs s' in (issued ++ more, s'')

  -- the table holds what was issued, and nothing else
  pub record IsRegistry (issued : List (ℕ × Vm)) (t : HandleTable) : Type 0 where
    pub entries_are : t.by_handle ≡ entries issued
    pub below : Below t.next issued
    pub ascending : IsAscending issued

  Below-entries : (n : ℕ) (l : List (ℕ × Vm)) → Below n l → Below n (entries l)
  Below-entries n [] h = tt
  Below-entries n (e ∷ l) h = (h.0, Below-entries n l h.1)

  entries-snoc :
      (l : List (ℕ × Vm)) (h : ℕ) (vm : Vm)
      → entries (l ++ (h, vm) ∷ []) ≡ entries l ++ (h, provenance_of vm h) ∷ []
  entries-snoc [] h vm = refl
  entries-snoc (e ∷ l) h vm = ap (λ m. (e.0, provenance_of e.1 e.0) ∷ m) (entries-snoc l h vm)

  not_issued :
      (issued : List (ℕ × Vm)) (t : HandleTable)
      → t.next + 1 < 2 ^ 64
      → IsRegistry issued t
      → IsRegistry (issued ++ []) (record t { next = (t.next + 1) % 2 ^ 64 })
  not_issued issued t room h =
      let step : (t.next + 1) % 2 ^ 64 ≡ t.next + 1 = omega (arith, room) in
      rw (append-nil issued) (record {
        entries_are = h.entries_are;
        below = rw step (Below-suc t.next issued h.below);
        ascending = h.ascending;
      })

  -- a registration that is issued, or that is not, from a table whose counter does not wrap
  registered-IsRegistry :
      (vm : Vm) (issued : List (ℕ × Vm)) (t : HandleTable) (r : Exec (Unit {0}))
      (c : ControlClient S)
      → t.next + 1 < 2 ^ 64
      → IsRegistry issued t
      → let (r', s') = registered w vm t.next (reserve t).1 (r, c) in
        IsRegistry (issued ++ issued_by vm r') s'.table × (s'.table.next ≡ t.next + 1)
  unfolding reserve insert
  registered-IsRegistry vm issued t (ok u) c room h =
      let step : (t.next + 1) % 2 ^ 64 ≡ t.next + 1 = omega (arith, room) in
      (
        record {
          entries_are =
              insert_handle-last t.next _ t.by_handle (
                subst (λ m. Below t.next m) (sym h.entries_are)
                  (Below-entries t.next issued h.below))
              ∙ ap (λ m. m ++ (t.next, provenance_of vm t.next) ∷ []) h.entries_are
              ∙ sym (entries-snoc issued t.next vm);
          below = rw step (Below-snoc t.next issued vm h.below);
          ascending = IsAscending-snoc t.next issued vm h.below h.ascending;
        },
        step,
      )
  registered-IsRegistry vm issued t (err e) c room h =
      (not_issued issued t room h, omega (arith, room))
  registered-IsRegistry vm issued t panic c room h =
      (not_issued issued t room h, omega (arith, room))

  pub perform-IsRegistry :
      (call : Call) (issued : List (ℕ × Vm)) (s : AttributionSession S)
      → s.table.next + 1 < 2 ^ 64
      → IsRegistry issued s.table
      → let (more, s') = perform call s in
        IsRegistry (issued ++ more) s'.table × (s'.table.next ≤ s.table.next + 1)
  unfolding perform register reserve set_state deregister
  perform-IsRegistry (registering vm) issued s room h =
      let (r, c) = add w vm.ifindex s.table.next vm.netns_inum s.client in
      let (kept, next) = registered-IsRegistry vm issued s.table r c room h in
      (kept, omega (arith, next))
  perform-IsRegistry (setting_state handle st) issued s room h =
      (rw (append-nil issued) h, omega arith)
  perform-IsRegistry (deregistering handle) issued s room h =
      (rw (append-nil issued) h, omega arith)

  perform_all-IsRegistry :
      (calls : List Call) (issued : List (ℕ × Vm)) (s : AttributionSession S)
      → s.table.next + length calls < 2 ^ 64
      → IsRegistry issued s.table
      → let (more, s') = perform_all calls s in IsRegistry (issued ++ more) s'.table
  unfolding perform_all
  perform_all-IsRegistry [] issued s room h = rw (append-nil issued) h
  perform_all-IsRegistry (call ∷ calls) issued s room h =
      let (more, s') = perform call s in
      let (kept, next) = perform-IsRegistry call issued s (omega (arith, room)) h in
      subst (λ l. IsRegistry l (perform_all calls s').1.table)
        (append_assoc issued more (perform_all calls s').0)
        (perform_all-IsRegistry calls (issued ++ more) s' (omega (arith, room, next)) kept)

  -- Behind fewer than 2 ^ 64 calls on a session that starts with an empty table, against any owner, the
  -- table holds exactly the registrations that returned a handle, each under that handle, and those
  -- handles ascend strictly in the order in which they were returned, so none is given out twice.
  pub perform_all-registry :
      (calls : List Call) (c : ControlClient S)
      → length calls < 2 ^ 64
      → let (issued, s) = perform_all calls (record { client = c; table = new_table }) in
        (s.table.by_handle ≡ entries issued) × IsAscending issued
  perform_all-registry calls c room =
      let kept =
        perform_all-IsRegistry calls [] (record { client = c; table = new_table })
          (omega (arith, room)) (record { entries_are = refl; below = tt; ascending = tt }) in
      (kept.entries_are, kept.ascending)
