-- ===== src/Events/Recorder/Interval.antt =====
-- events/recorder_performance_interval.go: a point for every tick of a background worker. The mutex
-- makes each method, and each round of the worker, one step.
pub mod Conserved
pub mod Errors
use ftdc.Prelude.{ℕ, List, [], Bool, true, false, if◌then◌else◌, Option, none, some}
use ftdc.Result.{Error, panicked}
use ftdc.Input.{Outcome}
use ftdc.Collector.Sample.{since}
use ftdc.Events.Performance.{Performance, no_gauges, with_gauges, add_duration, add_total, stamp}
use ftdc.Events.Recorder.Point.{point_recorder}
use ftdc.Events.Recorder.{Clock, Recorder, Sink, Resolved, catch}

-- `canceler` is whether it is not nil.
pub record IntervalStream (C : Type 0) : Type 0 where
  pub point : Performance
  pub started : Option ℕ
  pub collector : C
  pub catcher : List Error
  pub canceler : Bool

-- NewIntervalRecorder
unfoldable pub new_interval_recorder : {C : Type 0} → C → IntervalStream C
unfolding with_gauges
new_interval_recorder collector = record {
  point = with_gauges no_gauges;
  started = none;
  collector = collector;
  catcher = [];
  canceler = false;
}

unfoldable pub reset : {C : Type 0} → IntervalStream C → IntervalStream C
reset r = record r { started = none }

-- Begin starts a worker where there is no canceler.
unfoldable pub begin : {C : Type 0} → Clock → IntervalStream C → IntervalStream C
begin clock r = record r { canceler = true; started = some (clock 0) }

-- `if !r.started.IsZero() { r.point.Timers.Total += time.Since(r.started); r.started = time.Time{} }`
unfoldable pub measure_total : {C : Type 0} → Clock → IntervalStream C → IntervalStream C
unfolding since add_total
measure_total clock r = elim r.started [
  | none ↦ r
  | some t ↦ record r { point = add_total (since (clock 0) (some t)) r.point; started = none }
]

unfoldable pub end : {C : Type 0} → Clock → ℕ → IntervalStream C → IntervalStream C
unfolding measure_total add_duration
end clock dur r = let r' = measure_total clock r in record r' { point = add_duration dur r'.point }

module _ {C : Type 0} (sink : Sink Performance C) (resolved : Resolved) where
  -- A round of the worker.
  unfoldable pub tick : Clock → IntervalStream C → IntervalStream C
  unfolding stamp with_gauges catch
  tick clock r =
      let point = stamp r.started r.point in
      let (c, e) = sink (clock 0) point r.collector in
      record r { point = with_gauges r.point.gauges; collector = c; catcher = catch e r.catcher }

  -- The call of a nil canceler is a panic.
  unfoldable pub flush : Clock → IntervalStream C → Outcome (IntervalStream C)
  unfolding stamp with_gauges catch
  flush clock r =
      let point = stamp r.started r.point in
      let (c, e) = sink (clock 0) point r.collector in
      if r.canceler
      then (
        record {
          point = with_gauges r.point.gauges;
          started = none;
          collector = c;
          catcher = [];
          canceler = false;
        },
        resolved (catch e r.catcher),
      )
      else (r, some panicked)

  unfoldable pub interval_recorder : Recorder (IntervalStream C)
  unfolding point_recorder add_duration add_total begin reset end flush
  interval_recorder =
      point_recorder (λ f r. record r { point = f r.point })
        (record {
          put_duration = add_duration;
          put_total = add_total;
          begin = begin;
          reset = λ clock. reset;
          end = end;
          flush = flush;
        })
