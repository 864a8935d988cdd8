-- ===== src/Events/Histogram/Single.antt =====
-- events/recorder_histogram_single.go: histograms that become a point at Flush.
use ftdc.Prelude.{ℕ, List, [], Option, none, some}
use ftdc.Result.{Error}
use ftdc.Input.{Outcome}
use ftdc.Events.Performance.{no_gauges}
use ftdc.Events.Recorder.{Clock, Recorder, Sink, Resolved, catch}
use ftdc.Events.Histogram.{
  Hdrhist, PerformanceHdr, new_histogram_millisecond, record_end, histogram_recorder,
}

module _ (hdr : Hdrhist) where
  pub record HistogramSingle (C : Type 0) : Type 0 where
    pub point : PerformanceHdr hdr.Histogram
    pub started : Option ℕ
    pub collector : C
    pub catcher : List Error

module _ (hdr : Hdrhist) {C : Type 0} (sink : Sink (PerformanceHdr hdr.Histogram) C)
    (resolved : Resolved) where
  -- NewSingleHistogramRecorder
  unfoldable pub new_single_histogram_recorder : C → HistogramSingle hdr C
  unfolding new_histogram_millisecond
  new_single_histogram_recorder collector = record {
    point = new_histogram_millisecond hdr no_gauges;
    started = none;
    collector = collector;
    catcher = [];
  }

  -- Begin and Reset
  unfoldable pub begin : Clock → HistogramSingle hdr C → HistogramSingle hdr C
  begin clock r = record r { started = some (clock 0) }

  unfoldable pub end : Clock → ℕ → HistogramSingle hdr C → HistogramSingle hdr C
  unfolding record_end
  end clock dur r =
      let (p, es) = record_end hdr clock r.started dur (r.point, r.catcher) in
      record r { point = p; catcher = es }

  unfoldable pub flush : Clock → HistogramSingle hdr C → Outcome (HistogramSingle hdr C)
  unfolding new_histogram_millisecond catch
  flush clock r =
      let (c, e) = sink (clock 0) r.point r.collector in
      (
        record {
          point = new_histogram_millisecond hdr r.point.gauges;
          started = none;
          collector = c;
          catcher = [];
        },
        resolved (catch e r.catcher),
      )

  unfoldable pub single_histogram_recorder : Recorder (HistogramSingle hdr C)
  unfolding histogram_recorder begin end flush
  single_histogram_recorder =
      histogram_recorder hdr
        (λ f r. let (p, es) = f (r.point, r.catcher) in record r { point = p; catcher = es })
        (record { begin = begin; reset = begin; end = end; flush = flush })
