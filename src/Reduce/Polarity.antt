-- ===== src/Reduce/Polarity.antt =====
-- `Polarity`, `Metric` and `polarity_of` of crates/gate/src/reduce.rs.
use assayist.Common.{String, Bool, true, ◌||◌, ◌≡◌, if◌then◌else◌}
use assayist.Text.{contains, ◌==◌}
use assayist.Platform.{Platform}

pub data Polarity : Type 0 where
  lower_better higher_better unknown : Polarity

pub record Metric (F : Type 0) : Type 0 where
  pub id : String
  pub value : F
  pub contaminated : Bool
  pub polarity : Polarity

module _ ⦃p : Platform⦄ where
  open p use {to_lowercase}

  abbrev pub is_throughput : String → String → Bool
  is_throughput l unit =
      contains l "bytes"
      || contains l "packets"
      || contains l "throughput"
      || contains l "iops"
      || unit == "By"

  abbrev pub is_memory : String → Bool
  is_memory l = contains l "mem_consumed" || contains l "memory_consumed" || contains l "rss"

  abbrev pub is_cpu : String → Bool
  is_cpu l = contains l "on_cpu" || contains l "utilis" || contains l "cpu_ns"

  abbrev pub is_time : String → Bool
  is_time unit = unit == "ns" || unit == "us" || unit == "ms" || unit == "s"

  unfoldable pub polarity_of : String → String → Polarity
  polarity_of id unit =
      let l = to_lowercase id in
      if is_throughput l unit
      then higher_better
      else if is_memory l
      then lower_better
      else if is_cpu l
      then unknown
      else if is_time unit
      then lower_better
      else unknown

  -- The direction of a metric whose id speaks of consumed memory: lower-better, unless a throughput word stands in
  -- its id or its unit is bytes, which come first and read higher-better.
  pub polarity_of_memory :
      (id unit : String)
      → is_memory (to_lowercase id) ≡ true
      → polarity_of id unit
        ≡ (if is_throughput (to_lowercase id) unit then higher_better else lower_better)
  unfolding polarity_of
  polarity_of_memory id unit h = rw h
