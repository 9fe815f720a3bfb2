-- ===== src/Gate/Compare/Ladder.antt =====
-- The ladder of thresholds that gives a metric its status in `ab` of crates/gate/src/gate.rs.
use assayist.Common.{
  Option, none, some, Bool, true, false, not, ◌||◌, ◌≡◌, ◌↔◌, refl, if◌then◌else◌,
}
use assayist.Platform.{Platform}
use assayist.Reduce.Polarity.{Polarity}
use assayist.Gate.Run.{Config}
use assayist.Gate.Compare.{
  status_of, bad_direction, is_significant, is_strong, is_noisy, direction_status,
}

module _ ⦃p : Platform⦄ where
  open p use {F}

  ladder :
      (i c s t n : Bool) (d : Option Bool)
      → ((if i
            then "ignored"
            else if c
            then "contaminated"
            else if not s || not t || n
            then "stable"
            else direction_status d)
          ≡ "regressed")
        ↔ ((i ≡ false) × (c ≡ false) × (s ≡ true) × (t ≡ true) × (n ≡ false) × (d ≡ some true))
  ladder true c s t n d = (λ e. cc, λ h. cc)
  ladder false true s t n d = (λ e. cc, λ h. cc)
  ladder false false false t n d = (λ e. cc, λ h. cc)
  ladder false false true false n d = (λ e. cc, λ h. cc)
  ladder false false true true true d = (λ e. cc, λ h. cc)
  ladder false false true true false none = (λ e. cc, λ h. cc)
  ladder false false true true false (some false) = (λ e. cc, λ h. cc)
  ladder false false true true false (some true) =
      (λ e. (refl, refl, refl, refl, refl, refl), λ h. refl)

  -- The ladder gives the status regressed exactly when the metric is not ignored and not contaminated,
  -- its p-value is below the threshold, its relative change reaches the minimum effect, it is not
  -- noisy, and the change goes in the bad direction of its polarity.
  pub status_of_regressed_iff :
      (cfg : Config) (ignored contaminated : Bool) (pol : Polarity) (rel p_value cov : F)
      → (status_of cfg ignored contaminated pol rel p_value cov ≡ "regressed") ↔ (
          (ignored ≡ false)
          × (contaminated ≡ false)
          × (is_significant cfg p_value ≡ true)
          × (is_strong cfg rel ≡ true)
          × (is_noisy cfg cov ≡ false)
          × (bad_direction pol rel ≡ some true))
  unfolding status_of
  status_of_regressed_iff cfg ignored contaminated pol rel p_value cov =
      ladder ignored contaminated (is_significant cfg p_value) (is_strong cfg rel)
        (is_noisy cfg cov) (bad_direction pol rel)
