-- ===== src/Events/Histogram/Grouped.antt =====
-- events/recorder_histogram_grouped.go: histograms that become a point at an End behind the interval.
pub mod Every
use ftdc.Prelude.{ℕ, List, [], Bool, true, false, leb, if◌then◌else◌, Option, none, some}
use ftdc.Result.{Error, panicked}
use ftdc.Input.{Outcome}
use ftdc.Collector.Sample.{since}
use ftdc.Events.Performance.{no_gauges}
use ftdc.Events.Recorder.{Clock, Recorder, Sink, Resolved, catch}
use ftdc.Events.Histogram.{
  Hdrhist, PerformanceHdr, Recording, new_histogram_millisecond, record_end, record_since,
  record_total, histogram_recorder,
}

module _ (hdr : Hdrhist) where
  pub record HistogramGroupedStream (C : Type 0) : Type 0 where
    pub point : PerformanceHdr hdr.Histogram
    pub last_collected : Option ℕ
    pub started : Option ℕ
    pub interval : ℕ
    pub collector : C
    pub catcher : List Error

module _ (hdr : Hdrhist) {C : Type 0} (sink : Sink (PerformanceHdr hdr.Histogram) C)
    (resolved : Resolved) where
  -- NewHistogramGroupedRecorder, which leaves out its second argument.
  unfoldable pub new_histogram_grouped_recorder : C → ℕ → HistogramGroupedStream hdr C
  unfolding new_histogram_millisecond
  new_histogram_grouped_recorder collector interval = record {
    point = new_histogram_millisecond hdr no_gauges;
    last_collected = none;
    started = none;
    interval = 0;
    collector = collector;
    catcher = [];
  }

  unfoldable pub begin : Clock → HistogramGroupedStream hdr C → HistogramGroupedStream hdr C
  begin clock r = record r { started = some (clock 0) }

  unfoldable pub reset : Clock → HistogramGroupedStream hdr C → HistogramGroupedStream hdr C
  reset clock r = record r { started = some (clock 0); last_collected = some (clock 1) }

  -- `if r.point.Timestamp.IsZero() { r.point.Timestamp = r.started }`
  unfoldable pub stamped : HistogramGroupedStream hdr C → HistogramGroupedStream hdr C
  stamped r = elim r.point.timestamp [
    | none ↦ record r { point = record r.point { timestamp = r.started } }
    | some _ ↦ r
  ]

  -- The last branch of End.
  unfoldable pub collect : Clock → HistogramGroupedStream hdr C → HistogramGroupedStream hdr C
  unfolding catch
  collect clock r =
      let (c, e) = sink (clock 2) r.point r.collector in
      record r {
        point = record r.point { timestamp = none };
        last_collected = some (clock 3);
        collector = c;
        catcher = catch e r.catcher;
      }

  unfoldable pub end : Clock → ℕ → HistogramGroupedStream hdr C → HistogramGroupedStream hdr C
  unfolding record_end stamped collect since
  end clock dur r =
      let (p, es) = record_end hdr clock r.started dur (r.point, r.catcher) in
      let r' = stamped (record r { point = p; catcher = es }) in
      if leb r'.interval (since (clock 1) r'.last_collected) then collect clock r' else r'

  unfoldable pub flush :
      Clock → HistogramGroupedStream hdr C → Outcome (HistogramGroupedStream hdr C)
  unfolding new_histogram_millisecond catch
  flush clock r =
      let (c, e) = sink (clock 0) r.point r.collector in
      (
        record r {
          point = new_histogram_millisecond hdr r.point.gauges;
          started = none;
          collector = c;
          catcher = [];
        },
        resolved (catch e r.catcher),
      )

  unfoldable pub grouped_histogram_recorder : Recorder (HistogramGroupedStream hdr C)
  unfolding histogram_recorder begin reset end flush
  grouped_histogram_recorder =
      histogram_recorder hdr
        (λ f r. let (p, es) = f (r.point, r.catcher) in record r { point = p; catcher = es })
        (record { begin = begin; reset = reset; end = end; flush = flush })
