-- ===== src/Collector/Sample.antt =====
-- collector_sample.go: a collector that skips what comes too soon behind the last collection.
pub mod Interval
use ftdc.Prelude.{ℕ, ◌-◌, ◌^◌, Option, none, some, ltb, if◌then◌else◌}
use ftdc.Input.{Input, Outcome}
use ftdc.Collector.Interface.{Collector}

-- Times are in nanoseconds; `none` is the zero time.
pub record SamplingCollector (S : Type 0) : Type 0 where
  pub minimum_interval : ℕ
  pub last_collection : Option ℕ
  pub collector : S

-- NewSamplingCollector
unfoldable pub new_sampling_collector : {S : Type 0} → ℕ → S → SamplingCollector S
new_sampling_collector minimum_interval collector = record {
  minimum_interval = minimum_interval;
  last_collection = none;
  collector = collector;
}

-- time.Since, which stops at the largest Duration. The clock does not run backwards.
unfoldable pub since : ℕ → Option ℕ → ℕ
since now none = 2 ^ 63 - 1
since now (some t) = now - t

module _ {S : Type 0} (inner : Collector S) where
  -- `now` is the clock's reading in the call.
  unfoldable pub add : ℕ → Input → SamplingCollector S → Outcome (SamplingCollector S)
  unfolding since
  add now input c =
      if ltb (since now c.last_collection) c.minimum_interval
      then (c, none)
      else (let (s, e) = inner.add now input c.collector in
          (record c { last_collection = some now; collector = s }, e))
