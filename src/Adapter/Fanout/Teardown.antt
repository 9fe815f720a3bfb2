-- ===== src/Adapter/Fanout/Teardown.antt =====
-- The teardown of a fanout, instance by instance.
use assayist.Common.{List, [], ◌∷◌, Exec, ok, err, panic, ◌≡◌, refl, inl, inr, ◌⊎◌, ℕ}
use assayist.Platform.{Platform}
use assayist.Effects.{continue, held}
use assayist.Adapter.{Target}
use assayist.Adapter.Fanout.{Cells, teardown_each, keep_error, fanout}

-- the last error of the reports, or what stood before
abbrev pub last_error : Exec (Unit {0}) → List (Exec (Unit {0})) → Exec (Unit {0})
last_error kept [] = kept
last_error kept (r ∷ rs) = last_error (keep_error kept r) rs

module _ {W N : Type 0} where
  -- the machine behind the teardown of every instance, and what each reported
  pub data TornDown : List (Target W N) → W → List (Exec (Unit {0})) → W → Type 0 where
    none_left : {w : W} → TornDown [] w [] w
    torn :
        {t : Target W N} {ts : List (Target W N)} {w w' w'' : W} {r : Exec (Unit {0})}
        {rs : List (Exec (Unit {0}))}
        → t.teardown w ≡ (r, w')
        → TornDown ts w' rs w''
        → TornDown (t ∷ ts) w (r ∷ rs) w''

  abbrev pub Reports : List (Target W N) → Exec (Unit {0}) → W → Exec (Unit {0}) × W → Type 0
  Reports ts kept w (r, w') =
      (r ≡ panic) ⊎ ((rs : List (Exec (Unit {0}))) × TornDown ts w rs w' × (r ≡ last_error kept rs))

  teardown_each-Reports :
      (ts : List (Target W N)) (kept : Exec (Unit {0})) (w : W)
      → Reports ts kept w (teardown_each ts kept w)
  unfolding teardown_each
  teardown_each-Reports [] kept w = inr ([], none_left, refl)
  teardown_each-Reports (t ∷ ts) kept w =
      first (t.teardown w) refl (λ k w'. teardown_each-Reports ts k w')
    where
      report :
          (r : Exec (Unit {0})) (w' : W)
          → t.teardown w ≡ (r, w')
          → (x : Exec (Unit {0}) × W) → Reports ts (keep_error kept r) w' x
          → Reports (t ∷ ts) kept w x
      report r w' e x (inl crash) = inl crash
      report r w' e x (inr (rs, downs, same)) = inr (r ∷ rs, torn e downs, same)

      first :
          (x : Exec (Unit {0}) × W)
          → t.teardown w ≡ x
          → ((k : Exec (Unit {0})) (w' : W) → Reports ts k w' (teardown_each ts k w'))
          → Reports (t ∷ ts) kept w (continue (held x) (λ r. teardown_each ts (keep_error kept r)))
      first (ok u, w') e rest = report (ok u) w' e _ (rest kept w')
      first (err d, w') e rest = report (err d) w' e _ (rest (err d) w')
      first (panic, w') e rest = inl refl

module _ ⦃p : Platform⦄ {W : Type 0} where
  open p use {N}

  -- The teardown of a fanout leaves its cells alone and, unless an instance panics, tears every
  -- instance down, once and in order, whatever the others report; it reports the last error that an
  -- instance reported, or success if there is none.
  pub fanout-teardown :
      (now_nanos : W → ℕ × W) (inners : List (Target W N)) (c : Cells N) (w : W)
      → let (r, s) = (fanout now_nanos inners).teardown (c, w) in
        (s.0 ≡ c) × Reports inners (ok tt) w (r, s.1)
  unfolding fanout
  fanout-teardown now_nanos inners c w = (refl, teardown_each-Reports inners (ok tt) w)
