-- ===== src/Events/Recorder/Grouped.antt =====
-- events/recorder_performance_grouped.go: a point for an End behind the interval.
pub mod Totals
use ftdc.Prelude.{ℕ, List, [], leb, if◌then◌else◌, Option, none, some}
use ftdc.Result.{Error}
use ftdc.Input.{Outcome}
use ftdc.Collector.Sample.{since}
use ftdc.Events.Performance.{
  Performance, no_gauges, with_gauges, add_number, add_duration, add_total, put_timestamp, stamp,
}
use ftdc.Events.Recorder.Point.{point_recorder}
use ftdc.Events.Recorder.{Clock, Recorder, Sink, Resolved, catch}

pub record GroupStream (C : Type 0) : Type 0 where
  pub started : Option ℕ
  pub last_collected : Option ℕ
  pub interval : ℕ
  pub point : Performance
  pub collector : C
  pub catcher : List Error

-- NewGroupedRecorder
unfoldable pub new_grouped_recorder : {C : Type 0} → Clock → C → ℕ → GroupStream C
unfolding with_gauges
new_grouped_recorder clock collector interval = record {
  started = none;
  last_collected = some (clock 0);
  interval = interval;
  point = with_gauges no_gauges;
  collector = collector;
  catcher = [];
}

unfoldable pub begin : {C : Type 0} → Clock → GroupStream C → GroupStream C
begin clock r = record r { started = some (clock 0) }

unfoldable pub reset : {C : Type 0} → Clock → GroupStream C → GroupStream C
reset clock r = record r { started = some (clock 0); last_collected = some (clock 1) }

-- `if !r.started.IsZero() { r.point.Timers.Total += time.Since(r.started); r.started = time.Time{} }`
unfoldable pub measure_total : {C : Type 0} → Clock → GroupStream C → GroupStream C
unfolding since add_total
measure_total clock r = elim r.started [
  | none ↦ r
  | some t ↦ record r { point = add_total (since (clock 0) (some t)) r.point; started = none }
]

module _ {C : Type 0} (sink : Sink Performance C) (resolved : Resolved) where
  -- End behind `time.Since(r.lastCollected) >= r.interval`
  unfoldable pub collect : Clock → GroupStream C → GroupStream C
  unfolding stamp put_timestamp catch
  collect clock r =
      let point = stamp r.started r.point in
      let (c, e) = sink (clock 2) point r.collector in
      record r {
        point = put_timestamp none point;
        collector = c;
        catcher = catch e r.catcher;
        last_collected = some (clock 3);
      }

  unfoldable pub end : Clock → ℕ → GroupStream C → GroupStream C
  unfolding add_number measure_total add_duration since collect
  end clock dur r =
      let r' = measure_total clock (record r { point = add_number 1 r.point }) in
      let r'' = record r' { point = add_duration dur r'.point } in
      if leb r''.interval (since (clock 1) r''.last_collected) then collect clock r'' else r''

  unfoldable pub flush : Clock → GroupStream C → Outcome (GroupStream C)
  unfolding stamp with_gauges catch
  flush clock r =
      let point = stamp r.started r.point in
      let (c, e) = sink (clock 0) point r.collector in
      (
        record r {
          started = none;
          last_collected = some (clock 1);
          point = with_gauges r.point.gauges;
          collector = c;
          catcher = [];
        },
        resolved (catch e r.catcher),
      )

  unfoldable pub grouped_recorder : Recorder (GroupStream C)
  unfolding point_recorder add_duration add_total begin reset end flush
  grouped_recorder =
      point_recorder (λ f r. record r { point = f r.point })
        (record {
          put_duration = add_duration;
          put_total = add_total;
          begin = begin;
          reset = reset;
          end = end;
          flush = flush;
        })
