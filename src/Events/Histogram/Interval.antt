-- ===== src/Events/Histogram/Interval.antt =====
-- events/recorder_histogram_interval.go: histograms that become a point at a tick of a background
-- worker and at Flush. The mutex makes each method, and each round of the worker, one step.
use ftdc.Prelude.{ℕ, List, [], Bool, true, false, if◌then◌else◌, Option, none, some}
use ftdc.Result.{Error, panicked}
use ftdc.Input.{Outcome}
use ftdc.Events.Performance.{no_gauges}
use ftdc.Events.Recorder.{Clock, Recorder, Sink, Resolved, catch}
use ftdc.Events.Histogram.{
  Hdrhist, PerformanceHdr, new_histogram_millisecond, record_end, record_since, histogram_recorder,
}

module _ (hdr : Hdrhist) where
  -- `canceler` is whether it is not nil.
  pub record IntervalHistogramStream (C : Type 0) : Type 0 where
    pub point : PerformanceHdr hdr.Histogram
    pub started : Option ℕ
    pub collector : C
    pub catcher : List Error
    pub canceler : Bool

module _ (hdr : Hdrhist) {C : Type 0} (sink : Sink (PerformanceHdr hdr.Histogram) C)
    (resolved : Resolved) where
  -- NewIntervalHistogramRecorder
  unfoldable pub new_interval_histogram_recorder : C → IntervalHistogramStream hdr C
  unfolding new_histogram_millisecond
  new_interval_histogram_recorder collector = record {
    point = new_histogram_millisecond hdr no_gauges;
    started = none;
    collector = collector;
    catcher = [];
    canceler = false;
  }

  -- A round of the worker.
  unfoldable pub tick : Clock → IntervalHistogramStream hdr C → IntervalHistogramStream hdr C
  unfolding new_histogram_millisecond catch
  tick clock r =
      let (c, e) = sink (clock 0) r.point r.collector in
      record r {
        point = new_histogram_millisecond hdr r.point.gauges;
        collector = c;
        catcher = catch e r.catcher;
      }

  -- Begin starts a worker where there is no canceler.
  unfoldable pub begin : Clock → IntervalHistogramStream hdr C → IntervalHistogramStream hdr C
  begin clock r = record r { canceler = true; started = some (clock 0) }

  unfoldable pub reset : Clock → IntervalHistogramStream hdr C → IntervalHistogramStream hdr C
  reset clock r = record r { started = some (clock 0) }

  unfoldable pub end : Clock → ℕ → IntervalHistogramStream hdr C → IntervalHistogramStream hdr C
  unfolding record_end
  end clock dur r =
      let (p, es) = record_end hdr clock r.started dur (r.point, r.catcher) in
      record r { point = p; catcher = es }

  -- The call of a nil canceler is a panic.
  unfoldable pub flush :
      Clock → IntervalHistogramStream hdr C → Outcome (IntervalHistogramStream hdr C)
  unfolding record_since new_histogram_millisecond catch
  flush clock r =
      let (p, es) = record_since hdr clock r.started (r.point, r.catcher) in
      let (c, e) = sink (clock 1) p r.collector in
      if r.canceler
      then (
        record {
          point = new_histogram_millisecond hdr p.gauges;
          started = none;
          collector = c;
          catcher = [];
          canceler = false;
        },
        resolved (catch e es),
      )
      else (r, some panicked)

  unfoldable pub interval_histogram_recorder : Recorder (IntervalHistogramStream hdr C)
  unfolding histogram_recorder begin reset end flush
  interval_histogram_recorder =
      histogram_recorder hdr
        (λ f r. let (p, es) = f (r.point, r.catcher) in record r { point = p; catcher = es })
        (record { begin = begin; reset = reset; end = end; flush = flush })
