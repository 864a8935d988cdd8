-- ===== src/Events/Recorder/Interval/Conserved.antt =====
-- What the points of an intervalStream add up to (events/recorder_performance_interval.go).
use ftdc.Prelude.{ℕ, ◌+◌, ◌%◌, ◌≡◌, refl, arith, List, [], ◌∷◌, Option, Bool-cases, inl, inr}
use ftdc.Word.{word, add64}
use ftdc.Result.{Error}
use ftdc.Events.Performance.{
  Performance, add_operations, add_number, add_size, add_errors, add_duration, add_total, put_id,
  put_timestamp, stamp, with_gauges,
}
use ftdc.Events.Recorder.{Clock, Sink, Resolved}
use ftdc.Events.Recorder.Point.{point_recorder}
use ftdc.Events.Recorder.Calls.{Call, run_call}
use ftdc.Events.Recorder.Log.{
  Logged, logged_sink, Counter, number, operations, size, errors, duration, count, count-stamp,
  handed, amount,
}
use ftdc.Events.Recorder.Interval.{
  IntervalStream, new_interval_recorder, interval_recorder, measure_total, begin, reset, end, tick,
  flush,
}

-- What happens to the recorder: a call of a thread, or a round of the worker.
pub data Action : Type 0 where
  call : Call → Action
  round : Clock → Action

module _ {C : Type 0} (sink : Sink Performance C) (resolved : Resolved) where
  -- The state behind the actions, the latest of which is the first.
  unfoldable pub act_all :
      List Action → IntervalStream (Logged Performance C) → IntervalStream (Logged Performance C)
  unfolding run_call interval_recorder tick
  act_all [] r = r
  act_all (call c ∷ rest) r =
      (run_call (interval_recorder (logged_sink sink) resolved) c (act_all rest r)).0
  act_all (round clock ∷ rest) r = tick (logged_sink sink) resolved clock (act_all rest r)

-- What the calls among the actions say that is to be counted.
unfoldable pub asked : Counter → List Action → ℕ
unfolding amount
asked k [] = 0
asked k (call c ∷ rest) = asked k rest + amount k c
asked k (round clock ∷ rest) = asked k rest

-- The number of the points that were handed on and of the one that is kept.
unfoldable pub value : {C : Type 0} → Counter → IntervalStream (Logged Performance C) → ℕ
unfolding count handed
value k r = (handed k r.collector.0 + count k r.point) % word

-- A point that is handed on is counted in the log from then on.
handed-stamp :
    (k : Counter) (started : Option ℕ) (p : Performance) (e : Option Error)
    (log : List (Performance × Option Error))
    → handed k ((stamp started p, e) ∷ log) ≡ handed k log + count k p
unfolding handed
handed-stamp k started p e log = rw (count-stamp k started p) refl

count-no_point : (k : Counter) (p : Performance) → count k (with_gauges p.gauges) ≡ 0
unfolding count with_gauges
count-no_point k p = ground arith

module _ {C : Type 0} (sink : Sink Performance C) (resolved : Resolved) where
  tick-value :
      (k : Counter) (clock : Clock) (r : IntervalStream (Logged Performance C))
      → value k (tick (logged_sink sink) resolved clock r) ≡ value k r
  unfolding value tick logged_sink
  tick-value k clock r = omega (
    arith,
    count-no_point k r.point,
    handed-stamp k r.started r.point (sink (clock 0) (stamp r.started r.point) r.collector.1).1
        r.collector.0,
  )

  flush-value :
      (k : Counter) (clock : Clock) (r : IntervalStream (Logged Performance C))
      → value k (flush (logged_sink sink) resolved clock r).0 ≡ value k r
  unfolding value flush logged_sink
  flush-value k clock r = elim (Bool-cases r.canceler) [
    | inl running ↦ rw (running) (
        omega (
          arith,
          count-no_point k r.point,
          handed-stamp k r.started r.point
              (sink (clock 0) (stamp r.started r.point) r.collector.1).1 r.collector.0,
        ))
    | inr idle ↦ rw (idle) refl
  ]

  call-value :
      (k : Counter) (c : Call) (r : IntervalStream (Logged Performance C))
      → value k (run_call (interval_recorder (logged_sink sink) resolved) c r).0
        ≡ (value k r + amount k c) % word
  unfolding value count amount run_call interval_recorder point_recorder add_operations add_number
      add_size add_errors add_duration add_total add64 put_id put_timestamp begin reset end
      measure_total
  call-value k (Call.flush clock) r = ground (arith, flush-value k clock r)
  call-value k c r = ground arith

  -- Whatever calls of a new intervalStream are made, and wherever rounds of its worker come between
  -- them: what the points add up to that were handed to the collector, and the one that is kept, is
  -- what the calls counted, modulo 2 ^ 64, for the iterations of IncIterations, the operations, the
  -- size, the errors and the duration.
  pub act_all-conserved :
      (k : Counter) (actions : List Action) (c : C)
      → value k (act_all sink resolved actions (new_interval_recorder ([], c)))
        ≡ asked k actions % word
  unfolding act_all new_interval_recorder asked handed value count with_gauges
  act_all-conserved number [] c = refl
  act_all-conserved operations [] c = refl
  act_all-conserved size [] c = refl
  act_all-conserved errors [] c = refl
  act_all-conserved duration [] c = refl
  act_all-conserved k (call d ∷ rest) c =
      let r = act_all sink resolved rest (new_interval_recorder ([], c)) in
      ground (arith, act_all-conserved k rest c, call-value k d r)
  act_all-conserved k (round clock ∷ rest) c =
      let r = act_all sink resolved rest (new_interval_recorder ([], c)) in
      ground (arith, act_all-conserved k rest c, tick-value k clock r)
