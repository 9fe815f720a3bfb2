-- ===== src/HostPrep/Knobs.antt =====
-- The JSON of two sets of knobs, compared.
use text.Mathlib.TextEquality.{eq_iff}
use assayist.Common.{
  String, Option, none, some, Bool, true, false, ◌&&◌, &&-true, ◌≡◌, ◌↔◌, refl, ap, arith,
}
use assayist.Text.{◌==◌}
use assayist.Json.{Value, Fields, bool, string, done, field}
use assayist.Json.Equality.{value_eq, fields_eq}
use assayist.HostPrep.{TuningKnobs, optional, to_value}

module _ {N : Type 0} (number_eq : N → N → Bool) where
  -- the first field is not `k`
  abbrev Lacks : String → Fields N → Type 0
  Lacks k done = Unit
  Lacks k (field j v fs) = ((j == k) ≡ false) × ((k == j) ≡ false)

  optional_iff :
      {A : Type 0} (k : String) (encode : A → Value N)
      → ((x y : A) → (value_eq number_eq (encode x) (encode y) ≡ true) ↔ (x ≡ y))
      → (a b : Option A) (fs gs : Fields N) → Lacks k fs
      → Lacks k gs
      → (fields_eq number_eq (optional k encode a fs) (optional k encode b gs) ≡ true)
        ↔ ((a ≡ b) × (fields_eq number_eq fs gs ≡ true))
  unfolding fields_eq
  optional_iff k encode faithful none none fs gs hf hg = ((λ h. (refl, h)), (λ h. h.1))
  optional_iff k encode faithful none (some b) done gs hf hg = ((λ h. cc), (λ h. cc (h.0)))
  optional_iff k encode faithful none (some b) (field j v fs) gs hf hg =
      ((λ h. ground (arith, hf.0)), (λ h. cc (h.0)))
  optional_iff k encode faithful (some a) none fs done hf hg = ((λ h. cc), (λ h. cc (h.0)))
  optional_iff k encode faithful (some a) none fs (field j v gs) hf hg =
      ((λ h. ground (arith, hg.1)), (λ h. cc (h.0)))
  optional_iff {A = A} k encode faithful (some a) (some b) fs gs hf hg = (
    (λ h.
        let (hv, hs) = &&-true (k == k && value_eq number_eq (encode a) (encode b)) _ h in
        let (hk, he) = &&-true (k == k) _ hv in (ap some ((faithful a b).0 he), hs)),
    (λ h. rw ((eq_iff k k).1 refl, (faithful a b).1 (some-injective h.0), h.1) refl),
  )
    where
      some-injective : {x y : A} → some x ≡ some y → x ≡ y
      some-injective e = cc

  -- the JSON of two sets of knobs is equal exactly when they are
  string_faithful : (s t : String) → (value_eq number_eq (string s) (string t) ≡ true) ↔ (s ≡ t)
  unfolding value_eq
  string_faithful s t = eq_iff s t

  bool_faithful : (b c : Bool) → (value_eq number_eq (bool b) (bool c) ≡ true) ↔ (b ≡ c)
  unfolding value_eq
  bool_faithful b c = ground arith

  Lacks-optional :
      {A : Type 0} (k j : String) (encode : A → Value N) (o : Option A) (fs : Fields N)
      → (j == k) ≡ false
      → (k == j) ≡ false
      → Lacks k fs
      → Lacks k (optional j encode o fs)
  Lacks-optional k j encode none fs e f h = h
  Lacks-optional k j encode (some a) fs e f h = (e, f)

  abbrev thp_field : TuningKnobs → Fields N
  thp_field k = optional "thp" string k.thp done

  abbrev smt_field : TuningKnobs → Fields N
  smt_field k = optional "smt" bool k.smt (thp_field k)

  abbrev knob_fields : TuningKnobs → Fields N
  knob_fields k = optional "cpu_governor" string k.cpu_governor (smt_field k)

  smt-Lacks : (k : TuningKnobs) → Lacks "smt" (thp_field k)
  smt-Lacks k = Lacks-optional "smt" "thp" string k.thp done refl refl tt

  governor-Lacks : (k : TuningKnobs) → Lacks "cpu_governor" (smt_field k)
  governor-Lacks k =
      Lacks-optional "cpu_governor" "smt" bool k.smt (thp_field k) refl refl
        (Lacks-optional "cpu_governor" "thp" string k.thp done refl refl tt)

  thp_iff :
      (j k : TuningKnobs)
      → (fields_eq number_eq (thp_field j) (thp_field k) ≡ true)
        ↔ ((j.thp ≡ k.thp) × (fields_eq number_eq done done ≡ true))
  thp_iff j k = optional_iff "thp" string string_faithful j.thp k.thp done done tt tt

  smt_iff :
      (j k : TuningKnobs)
      → (fields_eq number_eq (smt_field j) (smt_field k) ≡ true)
        ↔ ((j.smt ≡ k.smt) × (fields_eq number_eq (thp_field j) (thp_field k) ≡ true))
  smt_iff j k =
      optional_iff "smt" bool bool_faithful j.smt k.smt (thp_field j) (thp_field k) (smt-Lacks j)
        (smt-Lacks k)

  governor_iff :
      (j k : TuningKnobs)
      → (fields_eq number_eq (knob_fields j) (knob_fields k) ≡ true) ↔ (
          (j.cpu_governor ≡ k.cpu_governor)
          × (fields_eq number_eq (smt_field j) (smt_field k) ≡ true))
  governor_iff j k =
      optional_iff "cpu_governor" string string_faithful j.cpu_governor k.cpu_governor (smt_field j)
        (smt_field k) (governor-Lacks j) (governor-Lacks k)

  done_eq : fields_eq number_eq done done ≡ true
  unfolding fields_eq
  done_eq = refl

  knobs_eq :
      (j k : TuningKnobs) → j.cpu_governor ≡ k.cpu_governor → j.smt ≡ k.smt → j.thp ≡ k.thp → j ≡ k
  knobs_eq j k g s t = λ i. record { cpu_governor = g i; smt = s i; thp = t i }

  fields_iff :
      (j k : TuningKnobs) → (fields_eq number_eq (knob_fields j) (knob_fields k) ≡ true) ↔ (j ≡ k)
  fields_iff j k = (
    (λ h.
        let (g, h₁) = (governor_iff j k).0 h in
        let (s, h₂) = (smt_iff j k).0 h₁ in let (t, h₃) = (thp_iff j k).0 h₂ in knobs_eq j k g s t),
    (λ e. (governor_iff j k).1 (
      ap (λ x. x.cpu_governor) e,
      (smt_iff j k).1 (ap (λ x. x.smt) e, (thp_iff j k).1 (ap (λ x. x.thp) e, done_eq)),
    )),
  )

  pub to_value_iff :
      (j k : TuningKnobs) → (value_eq number_eq (to_value j) (to_value k) ≡ true) ↔ (j ≡ k)
  unfolding value_eq to_value
  to_value_iff j k = fields_iff j k
