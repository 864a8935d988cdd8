-- ===== src/Events/Histogram/Stream.antt =====
-- events/recorder_histogram.go: histograms that become a point at Begin and at Flush.
use ftdc.Prelude.{ℕ, List, [], Option, none, some}
use ftdc.Result.{Error}
use ftdc.Input.{Outcome}
use ftdc.Events.Performance.{no_gauges}
use ftdc.Events.Recorder.{Clock, Recorder, Sink, Resolved, catch}
use ftdc.Events.Histogram.{
  Hdrhist, PerformanceHdr, new_histogram_millisecond, record_end, histogram_recorder,
}

module _ (hdr : Hdrhist) where
  pub record HistogramStream (C : Type 0) : Type 0 where
    pub point : PerformanceHdr hdr.Histogram
    pub started : Option ℕ
    pub collector : C
    pub catcher : List Error

module _ (hdr : Hdrhist) {C : Type 0} (sink : Sink (PerformanceHdr hdr.Histogram) C)
    (resolved : Resolved) where
  -- NewHistogramRecorder
  unfoldable pub new_histogram_recorder : C → HistogramStream hdr C
  unfolding new_histogram_millisecond
  new_histogram_recorder collector = record {
    point = new_histogram_millisecond hdr no_gauges;
    started = none;
    collector = collector;
    catcher = [];
  }

  -- `if r.point.Timestamp.IsZero() { r.point.Timestamp = r.started }`
  unfoldable pub stamped : HistogramStream hdr C → HistogramStream hdr C
  stamped r = elim r.point.timestamp [
    | none ↦ record r { point = record r.point { timestamp = r.started } }
    | some _ ↦ r
  ]

  -- `if !r.started.IsZero() { ... }`
  unfoldable pub collect : Clock → HistogramStream hdr C → HistogramStream hdr C
  unfolding catch
  collect clock r =
      let (c, e) = sink (clock 0) r.point r.collector in
      elim r.started [
        | none ↦ r
        | some _ ↦ record r {
          point = record r.point { timestamp = none };
          collector = c;
          catcher = catch e r.catcher;
        }
      ]

  unfoldable pub begin : Clock → HistogramStream hdr C → HistogramStream hdr C
  unfolding stamped collect
  begin clock r = record (collect clock (stamped r)) { started = some (clock 1) }

  unfoldable pub reset : Clock → HistogramStream hdr C → HistogramStream hdr C
  reset clock r = record r { started = some (clock 0) }

  unfoldable pub end : Clock → ℕ → HistogramStream hdr C → HistogramStream hdr C
  unfolding record_end
  end clock dur r =
      let (p, es) = record_end hdr clock r.started dur (r.point, r.catcher) in
      record r { point = p; catcher = es }

  unfoldable pub flush : Clock → HistogramStream hdr C → Outcome (HistogramStream hdr C)
  unfolding begin new_histogram_millisecond
  flush clock r =
      let r' = begin clock r in
      (
        record r' {
          point = new_histogram_millisecond hdr r'.point.gauges;
          started = none;
          catcher = [];
        },
        resolved r'.catcher,
      )

  unfoldable pub stream_histogram_recorder : Recorder (HistogramStream hdr C)
  unfolding histogram_recorder begin reset end flush
  stream_histogram_recorder =
      histogram_recorder hdr
        (λ f r. let (p, es) = f (r.point, r.catcher) in record r { point = p; catcher = es })
        (record { begin = begin; reset = reset; end = end; flush = flush })
