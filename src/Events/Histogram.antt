-- ===== src/Events/Histogram.antt =====
-- events/histogram.go: an event with its numbers as histograms, and what the recorders over it do with
-- one. The histograms are those of hdrhist, a copy of another library: a parameter.
pub mod Stream
pub mod Single
pub mod Grouped
pub mod Interval
use ftdc.Prelude.{ℕ, ◌*◌, List, Option, none, some}
use ftdc.Collector.Sample.{since}
use ftdc.Result.{Error}
use ftdc.Input.{Outcome}
use ftdc.Events.Performance.{PerformanceGauges}
use ftdc.Events.Recorder.{Clock, Recorder, catch}

-- hdrhist.New, of the least and the largest value and the significant figures, and RecordValue.
pub record Hdrhist : Type 1 where
  pub Histogram : Type 0
  pub new : ℕ → ℕ → ℕ → Histogram
  pub record_value : ℕ → Histogram → Outcome Histogram

pub record PerformanceCountersHdr (H : Type 0) : Type 0 where
  pub number : H
  pub operations : H
  pub size : H
  pub errors : H

pub record PerformanceTimersHdr (H : Type 0) : Type 0 where
  pub duration : H
  pub total : H

pub record PerformanceHdr (H : Type 0) : Type 0 where
  pub timestamp : Option ℕ
  pub id : ℕ
  pub counters : PerformanceCountersHdr H
  pub timers : PerformanceTimersHdr H
  pub gauges : PerformanceGauges

-- A point, and the errors of the catcher beside it.
abbrev pub Recording : Type 0 → Type 0
Recording H = PerformanceHdr H × List Error

-- The methods in which the recorders differ.
pub record HistogramMethods (S : Type 0) : Type 0 where
  pub begin : Clock → S → S
  pub reset : Clock → S → S
  pub end : Clock → ℕ → S → S
  pub flush : Clock → S → Outcome S

-- Durations in nanoseconds.
abbrev microsecond : ℕ
microsecond = 1000

abbrev minute : ℕ
minute = 60 * 1000000000

module _ (hdr : Hdrhist) where
  open hdr use {Histogram, new, record_value}

  unfoldable pub new_second_duration_histogram : Histogram
  new_second_duration_histogram = new microsecond (20 * minute) 5

  unfoldable pub new_second_counter_histogram : Histogram
  new_second_counter_histogram = new 0 1000000 5

  unfoldable pub new_histogram_second : PerformanceGauges → PerformanceHdr Histogram
  unfolding new_second_counter_histogram new_second_duration_histogram
  new_histogram_second gauges = record {
    timestamp = none;
    id = 0;
    counters = record {
      number = new_second_counter_histogram;
      operations = new_second_counter_histogram;
      size = new_second_counter_histogram;
      errors = new_second_counter_histogram;
    };
    timers = record {
      duration = new_second_duration_histogram;
      total = new_second_duration_histogram;
    };
    gauges = gauges;
  }

  unfoldable pub new_millisecond_duration_histogram : Histogram
  new_millisecond_duration_histogram = new microsecond minute 5

  unfoldable pub new_millisecond_counter_histogram : Histogram
  new_millisecond_counter_histogram = new 0 10000 5

  unfoldable pub new_histogram_millisecond : PerformanceGauges → PerformanceHdr Histogram
  unfolding new_millisecond_counter_histogram new_millisecond_duration_histogram
  new_histogram_millisecond gauges = record {
    timestamp = none;
    id = 0;
    counters = record {
      number = new_millisecond_counter_histogram;
      operations = new_millisecond_counter_histogram;
      size = new_millisecond_counter_histogram;
      errors = new_millisecond_counter_histogram;
    };
    timers = record {
      duration = new_millisecond_duration_histogram;
      total = new_millisecond_duration_histogram;
    };
    gauges = gauges;
  }

  -- `r.catcher.Add(r.point.Counters.Number.RecordValue(val))`, and so on.
  unfoldable pub record_number : ℕ → Recording Histogram → Recording Histogram
  unfolding catch
  record_number val (p, es) =
      let (h, e) = record_value val p.counters.number in
      (record p { counters = record p.counters { number = h } }, catch e es)

  unfoldable pub record_operations : ℕ → Recording Histogram → Recording Histogram
  unfolding catch
  record_operations val (p, es) =
      let (h, e) = record_value val p.counters.operations in
      (record p { counters = record p.counters { operations = h } }, catch e es)

  unfoldable pub record_size : ℕ → Recording Histogram → Recording Histogram
  unfolding catch
  record_size val (p, es) =
      let (h, e) = record_value val p.counters.size in
      (record p { counters = record p.counters { size = h } }, catch e es)

  unfoldable pub record_errors : ℕ → Recording Histogram → Recording Histogram
  unfolding catch
  record_errors val (p, es) =
      let (h, e) = record_value val p.counters.errors in
      (record p { counters = record p.counters { errors = h } }, catch e es)

  unfoldable pub record_duration : ℕ → Recording Histogram → Recording Histogram
  unfolding catch
  record_duration val (p, es) =
      let (h, e) = record_value val p.timers.duration in
      (record p { timers = record p.timers { duration = h } }, catch e es)

  unfoldable pub record_total : ℕ → Recording Histogram → Recording Histogram
  unfolding catch
  record_total val (p, es) =
      let (h, e) = record_value val p.timers.total in
      (record p { timers = record p.timers { total = h } }, catch e es)

  -- `if !r.started.IsZero() { r.catcher.Add(r.point.Timers.Total.RecordValue(since)) }`
  unfoldable pub record_since : Clock → Option ℕ → Recording Histogram → Recording Histogram
  unfolding record_total since
  record_since clock none r = r
  record_since clock (some t) r = record_total (since (clock 0) (some t)) r

  -- The methods that all four recorders have in common: those that set a gauge or record a value.
  -- `update` applies a change to the recorder's point and catcher.
  unfoldable pub histogram_recorder :
      {S : Type 0}
      → ((Recording Histogram → Recording Histogram) → S → S)
      → HistogramMethods S
      → Recorder S
  unfolding record_number record_operations record_size record_errors record_duration record_total
  histogram_recorder update m = record {
    inc_ops = λ val. update (record_operations val);
    inc_size = λ val. update (record_size val);
    inc_error = λ val. update (record_errors val);
    inc_iterations = λ val. update (record_number val);
    set_state =
        λ val. update λ (p, es). (record p { gauges = record p.gauges { state = val } }, es);
    set_workers =
        λ val. update λ (p, es). (record p { gauges = record p.gauges { workers = val } }, es);
    set_failed =
        λ val. update λ (p, es). (record p { gauges = record p.gauges { failed = val } }, es);
    begin = m.begin;
    reset = m.reset;
    end = m.end;
    flush = m.flush;
    set_id = λ val. update λ (p, es). (record p { id = val }, es);
    set_time = λ t. update λ (p, es). (record p { timestamp = t }, es);
    set_total_duration = λ dur. update (record_total dur);
    set_duration = λ dur. update (record_duration dur);
  }

  -- The beginning of End: a number, a duration, and the total time where there is a start.
  unfoldable pub record_end : Clock → Option ℕ → ℕ → Recording Histogram → Recording Histogram
  unfolding record_number record_duration record_since
  record_end clock started dur r =
      record_since clock started (record_duration dur (record_number 1 r))
