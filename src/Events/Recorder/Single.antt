-- ===== src/Events/Recorder/Single.antt =====
-- events/recorder_performance_single.go: a point for every Flush.
use ftdc.Prelude.{ℕ, Option, none, some}
use ftdc.Input.{Outcome}
use ftdc.Collector.Sample.{since}
use ftdc.Events.Performance.{
  Performance, no_gauges, with_gauges, add_number, add_duration, add_total, put_timestamp, stamp,
}
use ftdc.Events.Recorder.Point.{point_recorder}
use ftdc.Events.Recorder.{Clock, Recorder, Sink}

pub record SingleStream (C : Type 0) : Type 0 where
  pub started : Option ℕ
  pub point : Performance
  pub collector : C

-- NewSingleRecorder
unfoldable pub new_single_recorder : {C : Type 0} → C → SingleStream C
unfolding with_gauges
new_single_recorder collector = record {
  started = none;
  point = with_gauges no_gauges;
  collector = collector;
}

-- Reset and Begin
unfoldable pub begin : {C : Type 0} → Clock → SingleStream C → SingleStream C
begin clock r = record r { started = some (clock 0) }

-- `if !r.started.IsZero() { r.point.Timers.Total += time.Since(r.started) }`
unfoldable pub measure_total : Clock → Option ℕ → Performance → Performance
unfolding since add_total
measure_total clock none p = p
measure_total clock (some t) p = add_total (since (clock 0) (some t)) p

unfoldable pub end : {C : Type 0} → Clock → ℕ → SingleStream C → SingleStream C
unfolding add_number measure_total stamp add_duration
end clock dur r = record r {
  point = add_duration dur (stamp r.started (measure_total clock r.started (add_number 1 r.point)));
  started = some (clock 1);
}

module _ {C : Type 0} (sink : Sink Performance C) where
  unfoldable pub flush : Clock → SingleStream C → Outcome (SingleStream C)
  unfolding stamp put_timestamp
  flush clock r =
      let point = stamp r.started r.point in
      let (c, e) = sink (clock 0) point r.collector in
      (record r { point = put_timestamp none point; collector = c }, e)

  unfoldable pub single_recorder : Recorder (SingleStream C)
  unfolding point_recorder add_duration add_total begin end flush
  single_recorder =
      point_recorder (λ f r. record r { point = f r.point })
        (record {
          put_duration = add_duration;
          put_total = add_total;
          begin = begin;
          reset = begin;
          end = end;
          flush = flush;
        })
