-- ===== src/Orchestrate/Pinning.antt =====
-- The CPUs from which the instances of a concurrent firecracker run pin their threads.
use mathlib.Core.Path.{subst}
use native.Mathlib.Nat.{mul-le-mul_left, mul_comm, mul-suc}
use assayist.Common.{
  ℕ, zero, suc, ◌+◌, ◌*◌, ◌%◌, ◌^◌, ◌<◌, ◌≤◌, String, List, none, some, true, false, unwrap_or, ◌≡◌,
  refl, ap, ◌∙◌, arith, length, get_elem?, and_then, leb,
}
use assayist.Text.Number.{show_ℕ, parse_uint}
use assayist.Text.Number.Decimal.{parse_uint-show_ℕ}
use assayist.BTreeMap.{BTreeMap, get, insert}
use assayist.BTreeMap.Laws.{get-insert}
use assayist.Platform.{Platform}
use assayist.Def.{BenchmarkDef}
use assayist.Native.{cfg}
use assayist.Native.Firecracker.{firecracker_target}
use assayist.Native.Firecracker.Commands.{FirecrackerTarget}
use assayist.Orchestrate.{
  Selected, Built, at_least_one, firecracker, fanned, select_target, instances_of, vcpu_of,
  instance_vars, inners_from, build_target,
}

-- a firecracker target with `vcpu` CPUs, as the cell writes them, that pins them from `base` on
pub record IsPinned (vcpu : String) (base : ℕ) (x : Selected) : Type 0 where
  pub target : FirecrackerTarget
  pub is : x ≡ firecracker target
  pub vcpu_is : target.vcpu ≡ vcpu
  pub base_is : target.cpu_base ≡ base
  pub pins : target.pin_threads ≡ true

module _ ⦃p : Platform⦄ (pid : ℕ) (nonce : ℕ → ℕ) (def : BenchmarkDef) (vars : BTreeMap String)
    (vcpu : String) where
  abbrev k : ℕ
  k = vcpu_of def vars

  instance-IsPinned :
      (i : ℕ)
      → def.target.adapter ≡ "firecracker"
      → get "vcpu" vars ≡ some vcpu
      → i * k < 2 ^ 32
      → IsPinned vcpu (i * k) (select_target pid (nonce i) def (instance_vars vars k true i) true)
  unfolding select_target firecracker_target
  instance-IsPinned i a v fits = record {
    target = firecracker_target pid (nonce i) def.target.config (instance_vars vars k true i) true;
    is = rw a refl;
    vcpu_is =
        ap (λ o. unwrap_or o (cfg def.target.config (instance_vars vars k true i) "vcpu" "1"))
          (get-insert "cpu_base" "vcpu" (show_ℕ (i * k % 2 ^ 32))
              (insert "instance" (show_ℕ i) vars)
            ∙ get-insert "instance" "vcpu" (show_ℕ i) vars
            ∙ v);
    base_is =
        ap (λ o. unwrap_or (and_then o (parse_uint (2 ^ 32))) 0)
          (get-insert "cpu_base" "cpu_base" (show_ℕ (i * k % 2 ^ 32))
            (insert "instance" (show_ℕ i) vars))
        ∙ ap (λ n. unwrap_or (parse_uint (2 ^ 32) (show_ℕ n)) 0) (within (i * k) fits)
        ∙ ap (λ o. unwrap_or o 0) (parse_uint-show_ℕ (2 ^ 32) (i * k) fits);
    pins = refl;
  }
    where
      within : (n : ℕ) → n < 2 ^ 32 → n % 2 ^ 32 ≡ n
      within n h = omega (arith, h)

  inners-IsPinned :
      (count i : ℕ)
      → def.target.adapter ≡ "firecracker"
      → get "vcpu" vars ≡ some vcpu
      → ((n : ℕ) → n < i + count → n * k < 2 ^ 32)
      → (j : ℕ) (x : Selected) → get_elem? (inners_from pid nonce def vars true count i) j ≡ some x
      → IsPinned vcpu ((i + j) * k) x
  unfolding inners_from
  inners-IsPinned zero i a v room j x h = absurd (none-some h)
    where
      none-some : none ≡ some x → ⊥
      none-some e = cc
  inners-IsPinned (suc count) i a v room zero x h =
      subst (λ n. IsPinned vcpu (n * k) x) (omega arith)
        (subst (IsPinned vcpu (i * k)) (some-injective h)
          (instance-IsPinned i a v (room i (omega arith))))
    where
      some-injective : {y : Selected} → some y ≡ some x → y ≡ x
      some-injective e = cc
  inners-IsPinned (suc count) i a v room (suc j) x h =
      subst (λ n. IsPinned vcpu (n * k) x) (omega arith)
        (inners-IsPinned count (i + 1) a v (λ n below. room n (omega (arith, below))) j x h)

  length-inners_from : (count i : ℕ) → length (inners_from pid nonce def vars true count i) ≡ count
  unfolding inners_from
  length-inners_from zero i = refl
  length-inners_from (suc count) i = ap suc (length-inners_from count (i + 1))

  -- a fanout of as many instances as were asked for, each pinned from its index times the number of CPUs on
  pub record IsFannedOut (b : Built) : Type 0 where
    pub inners : List Selected
    pub is : b ≡ fanned inners
    pub count : length inners ≡ instances_of def vars
    pub each :
        (i : ℕ) (x : Selected)
        → get_elem? inners i ≡ some x
        → IsPinned vcpu (i * vcpu_of def vars) x

  room_below : (m n j : ℕ) → 0 < m → n * m ≤ 2 ^ 32 → j < n → j * m < 2 ^ 32
  room_below m n j pos room below =
      omega (arith, pos, room, mul-le-mul_left m below, mul_comm n m, mul_comm j m, mul-suc m j)

  leb_above : (n : ℕ) → 1 < n → leb n 1 ≡ false
  leb_above n h = ground (arith, h)

  some_vcpu : 0 < vcpu_of def vars
  unfolding vcpu_of
  some_vcpu = positive _
    where
      positive : (n : ℕ) → 0 < at_least_one n
      positive zero = omega arith
      positive (suc n) = omega arith

  -- When a definition has the firecracker adapter, the cell gives the number of CPUs, more than one
  -- instance is asked for, threads are pinned, and the instances have at most 2 ^ 32 CPUs together,
  -- `build_target` builds a fanout of exactly that many firecracker targets, each of which pins its
  -- threads and has that number of CPUs, the one at position i from the CPU of number i times that
  -- number on.
  pub build_target-IsFannedOut :
      def.target.adapter ≡ "firecracker"
      → get "vcpu" vars ≡ some vcpu
      → 1 < instances_of def vars
      → instances_of def vars * vcpu_of def vars ≤ 2 ^ 32
      → IsFannedOut (build_target pid nonce def vars true)
  unfolding build_target
  build_target-IsFannedOut a v more room = record {
    inners = inners_from pid nonce def vars true (instances_of def vars) 0;
    is = rw (leb_above (instances_of def vars) more) refl;
    count = length-inners_from (instances_of def vars) 0;
    each = λ i x h.
        subst (λ n. IsPinned vcpu (n * k) x) (omega arith)
          (inners-IsPinned (instances_of def vars) 0 a v
            (λ n below.
              room_below k (instances_of def vars) n some_vcpu room (omega (arith, below)))
            i x h);
  }
