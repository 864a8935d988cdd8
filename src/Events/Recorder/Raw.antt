-- ===== src/Events/Recorder/Raw.antt =====
-- events/recorder_performance_raw.go: a point for every End.
use ftdc.Prelude.{ℕ, List, [], ◌==◌, if◌then◌else◌, Option, none, some}
use ftdc.Result.{Error}
use ftdc.Input.{Outcome}
use ftdc.Collector.Sample.{since}
use ftdc.Events.Performance.{
  Performance, no_gauges, with_gauges, add_number, add_duration, put_duration, put_total,
  put_timestamp, stamp,
}
use ftdc.Events.Recorder.Point.{point_recorder}
use ftdc.Events.Recorder.{Clock, Recorder, Sink, Resolved, catch}

pub record RawStream (C : Type 0) : Type 0 where
  pub started : Option ℕ
  pub point : Performance
  pub collector : C
  pub catcher : List Error

-- NewRawRecorder
unfoldable pub new_raw_recorder : {C : Type 0} → C → RawStream C
unfolding with_gauges
new_raw_recorder collector = record {
  started = none;
  point = with_gauges no_gauges;
  collector = collector;
  catcher = [];
}

-- Reset and Begin
unfoldable pub begin : {C : Type 0} → Clock → RawStream C → RawStream C
begin clock r = record r { started = some (clock 0) }

-- `if r.point.Timers.Total == 0 && !r.started.IsZero()`
unfoldable pub measure_total : Clock → Option ℕ → Performance → Performance
unfolding since put_total
measure_total clock none p = p
measure_total clock (some t) p =
    if p.timers.total == 0 then put_total (since (clock 0) (some t)) p else p

module _ {C : Type 0} (sink : Sink Performance C) (resolved : Resolved) where
  unfoldable pub end : Clock → ℕ → RawStream C → RawStream C
  unfolding add_number measure_total stamp add_duration put_timestamp catch
  end clock dur r =
      let point =
        add_duration dur (stamp r.started (measure_total clock r.started (add_number 1 r.point))) in
      let (c, e) = sink (clock 1) point r.collector in
      record {
        started = none;
        point = put_timestamp none point;
        collector = c;
        catcher = catch e r.catcher;
      }

  unfoldable pub flush : Clock → RawStream C → Outcome (RawStream C)
  unfolding add_number stamp with_gauges catch
  flush clock r =
      let point = stamp r.started (add_number 1 r.point) in
      let (c, e) = sink (clock 0) point r.collector in
      (
        record { started = none; point = with_gauges r.point.gauges; collector = c; catcher = [] },
        resolved (catch e r.catcher),
      )

  unfoldable pub raw_recorder : Recorder (RawStream C)
  unfolding point_recorder put_duration put_total begin end flush
  raw_recorder =
      point_recorder (λ f r. record r { point = f r.point })
        (record {
          put_duration = put_duration;
          put_total = put_total;
          begin = begin;
          reset = begin;
          end = end;
          flush = flush;
        })
