-- ===== src/Adapter/Drive/Held.antt =====
-- The handles that an attribution session holds, behind each of its calls.
use mathlib.Core.Path.{subst}
use assayist.Common.{
  ℕ, ◌+◌, ◌^◌, ◌<◌, ◌≤◌, List, [], ◌∷◌, ◌++◌, Option, none, some, map, ◌≡◌, refl, ap, sym, ◌∙◌,
  arith, Exec, ok, err, panic, append-nil,
}
use assayist.Platform.{Platform}
use assayist.NetAttrib.{VmProvenance, new_table}
use assayist.NetAttrib.Client.{Wire}
use assayist.NetAttrib.Session.{AttributionSession, Vm, register, set_state}
use assayist.NetAttrib.Session.Registry.{
  IsRegistry, entries, issued_by, perform, perform-IsRegistry, registering,
}

module _ ⦃p : Platform⦄ (wire : Wire) where
  open wire use {S}

  -- the handles in the table of a session
  abbrev pub handles_of : Option (AttributionSession S) → List ℕ
  handles_of none = []
  handles_of (some s) = map (λ (e : ℕ × VmProvenance). e.0) s.table.by_handle

  -- a session that has registered nothing
  abbrev pub IsFresh : Option (AttributionSession S) → Type 0
  IsFresh none = Unit
  IsFresh (some s) = s.table ≡ new_table

  -- the session has registered exactly `attributed`, and room for `more`
  abbrev pub Holds : List ℕ → ℕ → Option (AttributionSession S) → Type 0
  Holds attributed more none = attributed ≡ []
  Holds attributed more (some s) =
      (issued : List (ℕ × Vm)) × IsRegistry wire issued s.table
      × (map (λ (e : ℕ × Vm). e.0) issued ≡ attributed)
      × (s.table.next + more < 2 ^ 64)

  names_of_entries :
      (issued : List (ℕ × Vm))
      → map (λ (e : ℕ × VmProvenance). e.0) (entries issued) ≡ map (λ (e : ℕ × Vm). e.0) issued
  names_of_entries [] = refl
  names_of_entries (e ∷ issued) = ap (λ l. e.0 ∷ l) (names_of_entries issued)

  pub handles_of_held :
      (attributed : List ℕ) (more : ℕ) (s : Option (AttributionSession S))
      → Holds attributed more s
      → handles_of s ≡ attributed
  handles_of_held attributed more none h = sym h
  handles_of_held attributed more (some s) (issued, reg, names, room) =
      ap (map (λ (e : ℕ × VmProvenance). e.0)) reg.entries_are ∙ names_of_entries issued ∙ names

  pub Holds-weaken :
      (attributed : List ℕ) (more less : ℕ) (s : Option (AttributionSession S))
      → less ≤ more
      → Holds attributed more s
      → Holds attributed less s
  Holds-weaken attributed more less none le h = h
  Holds-weaken attributed more less (some s) le (issued, reg, names, room) =
      (issued, reg, names, omega (arith, room, le))

  pub fresh-Holds :
      (more : ℕ) (s : Option (AttributionSession S)) → more < 2 ^ 64 → IsFresh s → Holds [] more s
  fresh-Holds more none room h = refl
  fresh-Holds more (some s) room h = (
    [],
    record { entries_are = ap (λ t. t.by_handle) h; below = tt; ascending = tt },
    refl,
    omega (arith, room, ap (λ t. t.next) h),
  )

  names-append :
      (issued more : List (ℕ × Vm))
      → map (λ (e : ℕ × Vm). e.0) (issued ++ more)
        ≡ map (λ (e : ℕ × Vm). e.0) issued ++ map (λ (e : ℕ × Vm). e.0) more
  names-append [] more = refl
  names-append (e ∷ issued) more = ap (λ l. e.0 ∷ l) (names-append issued more)

  -- what a registration leaves, by its result
  abbrev pub Registered : List ℕ → ℕ → Exec ℕ × AttributionSession S → Type 0
  Registered attributed more (ok h, s) = Holds (attributed ++ h ∷ []) more (some s)
  Registered attributed more (err e, s) = Holds attributed more (some s)
  Registered attributed more (panic, s) = Unit

  pub register-Registered :
      (attributed : List ℕ) (more : ℕ) (vm : Vm) (s : AttributionSession S)
      → Holds attributed (more + 1) (some s)
      → Registered attributed more (register wire vm s)
  unfolding perform
  register-Registered attributed more vm s (issued, reg, names, room) =
      let (kept, next) =
        perform-IsRegistry wire (registering vm) issued s (omega (arith, room)) reg in
      by_result (register wire vm s) kept (omega (arith, next, room))
    where
      by_result :
          (x : Exec ℕ × AttributionSession S)
          → IsRegistry wire (issued ++ issued_by vm x.0) x.1.table
          → x.1.table.next + more < 2 ^ 64
          → Registered attributed more x
      by_result (ok h, s') reg' room' = (
        issued ++ (h, vm) ∷ [],
        reg',
        names-append issued ((h, vm) ∷ []) ∙ ap (λ l. l ++ h ∷ []) names,
        room',
      )
      by_result (err e, s') reg' room' =
          (issued, subst (λ l. IsRegistry wire l s'.table) (append-nil issued) reg', names, room')
      by_result (panic, s') reg' room' = tt

  pub set_state-Holds :
      (attributed : List ℕ) (more h st : ℕ) (s : AttributionSession S)
      → Holds attributed more (some s)
      → Holds attributed more (some ((set_state wire h st s).1))
  unfolding set_state
  set_state-Holds attributed more h st s held = held
