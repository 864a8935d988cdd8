-- ===== src/Collector/Interface.antt =====
-- collector.go: what every collector offers. A collector that wraps another one takes such a record.
use ftdc.Prelude.{ℕ, List}
use ftdc.Result.{Result}
use ftdc.Input.{Input, Outcome}

pub record CollectorInfo : Type 0 where
  pub metrics_count : ℕ
  pub sample_count : ℕ

-- What FlushCollector calls.
pub record Flushable (S : Type 0) : Type 0 where
  pub resolve : S → Result (List ℕ)
  pub reset : S → S
  pub info : S → CollectorInfo

-- The operations of a collector with the state `S`. `add` is given the clock's reading.
pub record Collector (S : Type 0) : Type 0 where
  pub set_metadata : Input → S → Outcome S
  pub add : ℕ → Input → S → Outcome S
  pub flushable : Flushable S
  pub open flushable use *
