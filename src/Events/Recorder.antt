-- ===== src/Events/Recorder.antt =====
-- events/recorder.go: what every recorder offers, and what all of them call.
pub mod Point
pub mod Raw
pub mod Single
pub mod Grouped
pub mod Interval
pub mod Calls
pub mod Log
pub mod Shim
use ftdc.Prelude.{ℕ, List, [], ◌∷◌, ◌++◌, Bool, Option, none, some}
use ftdc.Result.{Error, Result}
use ftdc.Input.{other, Outcome}
use ftdc.Collector.Interface.{Collector}

-- The readings of the clock in a call, by their order in the function's text.
abbrev pub Clock : Type 0
Clock = ℕ → ℕ

-- The methods of a recorder with the state `S`. `flush` returns the error beside the new state; a
-- method that panics has `panicked` in its place.
pub record Recorder (S : Type 0) : Type 0 where
  pub inc_ops : ℕ → S → S
  pub inc_size : ℕ → S → S
  pub inc_error : ℕ → S → S
  pub inc_iterations : ℕ → S → S
  pub set_state : ℕ → S → S
  pub set_workers : ℕ → S → S
  pub set_failed : Bool → S → S
  pub begin : Clock → S → S
  pub reset : Clock → S → S
  pub end : Clock → ℕ → S → S
  pub flush : Clock → S → Outcome S
  pub set_id : ℕ → S → S
  pub set_time : Option ℕ → S → S
  pub set_total_duration : ℕ → S → S
  pub set_duration : ℕ → S → S

-- `collector.Add(point)`, at a reading of the clock, for points of the type `P`.
abbrev pub Sink : Type 0 → Type 0 → Type 0
Sink P C = ℕ → P → C → Outcome C

-- The Sink of a collector. `marshal` is bson.Marshal, which readDocument calls on a struct.
unfoldable pub collector_sink : {P C : Type 0} → (P → Result (List ℕ)) → Collector C → Sink P C
collector_sink marshal inner now point c = inner.add now (other (marshal point)) c

-- `catcher.Add(err)`: the errors that were added, in order.
unfoldable pub catch : Option Error → List Error → List Error
catch none errors = errors
catch (some e) errors = errors ++ (e ∷ [])

-- The Resolve of a catcher: one error of all of them.
abbrev pub Resolved : Type 0
Resolved = List Error → Option Error
