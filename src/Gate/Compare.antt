-- ===== src/Gate/Compare.antt =====
-- `bad_direction`, and how `ab` of crates/gate/src/gate.rs judges one metric of two groups.
pub mod Ladder
use assayist.Common.{
  ℕ, String, List, [], ◌∷◌, Option, none, some, Bool, true, false, not, ◌&&◌, ◌||◌, if◌then◌else◌,
  map_option, length, any, unwrap_or,
}
use assayist.Text.{contains}
use assayist.BTreeMap.{get}
use assayist.Platform.{Platform}
use assayist.Stats.Moments.{mean, within_cov, zero_f, one_f}
use assayist.Stats.Permutation.{permutation_p}
use assayist.Reduce.Polarity.{Polarity, lower_better, higher_better, unknown}
use assayist.Gate.Run.{Config}
use assayist.Gate.Collect.{Group}

module _ ⦃p : Platform⦄ where
  open p use {F, sub, div, abs, lt, le, eq}

  unfoldable pub bad_direction : Polarity → F → Option Bool
  bad_direction lower_better rel_delta = some (lt zero_f rel_delta)
  bad_direction higher_better rel_delta = some (lt rel_delta zero_f)
  bad_direction unknown rel_delta = none

  -- `cfg.ignore.iter().any(|pat| id.contains(pat))`
  unfoldable pub is_ignored : Config → String → Bool
  is_ignored cfg id = any (contains id) cfg.ignore

  -- the relative change of the mean
  unfoldable pub rel_delta : F → F → F
  rel_delta ma mb =
      if not (eq ma zero_f) then div (sub mb ma) ma else if eq mb zero_f then zero_f else one_f

  -- one object of the report's `detail`
  pub record Detail : Type 0 where
    pub id : String
    pub status : String
    pub mean_a : F
    pub mean_b : F
    pub rel_delta : F
    pub p_value : F
    pub cov : F
    pub n_a : ℕ
    pub n_b : ℕ
    pub cells : List String

  abbrev pub is_significant : Config → F → Bool
  is_significant cfg p_value = lt p_value cfg.p_threshold

  abbrev pub is_strong : Config → F → Bool
  is_strong cfg rel = le cfg.min_effect (abs rel)

  abbrev pub is_noisy : Config → F → Bool
  is_noisy cfg cov = lt cfg.noise_threshold cov

  abbrev pub direction_status : Option Bool → String
  direction_status (some true) = "regressed"
  direction_status (some false) = "improved"
  direction_status none = "changed"

  -- the ladder that gives `status`
  unfoldable pub status_of : Config → Bool → Bool → Polarity → F → F → F → String
  status_of cfg ignored contaminated pol rel p_value cov =
      if ignored
      then "ignored"
      else if contaminated
      then "contaminated"
      else if not (is_significant cfg p_value) || not (is_strong cfg rel) || is_noisy cfg cov
      then "stable"
      else direction_status (bad_direction pol rel)

  abbrev pub flag_in : String → Group F → Bool
  flag_in id g = unwrap_or (get id g.contaminated) false

  abbrev pub polarity_in : String → Group F → Polarity
  polarity_in id g = unwrap_or (get id g.polarity) unknown

  -- what the loop computes for a metric with enough samples; `none` is a panic
  unfoldable pub judge : Config → Group F → Group F → String → List F → List F → Option Detail
  judge cfg ga gb id avals bvals =
      let ma = mean avals in
      let mb = mean bvals in
      let rel = rel_delta ma mb in
      let cov = within_cov avals bvals in
      map_option
        (λ p_value. record {
          id = id;
          status =
              status_of cfg (is_ignored cfg id) (flag_in id ga || flag_in id gb) (polarity_in id ga)
                rel p_value cov;
          mean_a = ma;
          mean_b = mb;
          rel_delta = rel;
          p_value = p_value;
          cov = cov;
          n_a = length avals;
          n_b = length bvals;
          cells = unwrap_or (get id ga.cells) [];
        })
        (permutation_p avals bvals cfg.resamples cfg.seed)
