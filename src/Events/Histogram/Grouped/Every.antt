-- ===== src/Events/Histogram/Grouped/Every.antt =====
-- When a histogramGroupedStream hands on a point (events/recorder_histogram_grouped.go).
use ftdc.Prelude.{
  ℕ, suc, ◌≡◌, refl, ap, ◌∙◌, arith, true, List, [], ◌∷◌, length, leb, if◌then◌else◌,
}
use ftdc.Events.Recorder.{Clock, Sink, Resolved}
use ftdc.Events.Recorder.Calls.{Call, run_call, replay}
use ftdc.Events.Recorder.Log.{Logged, logged_sink}
use ftdc.Events.Histogram.{Hdrhist, PerformanceHdr, record_end, histogram_recorder}
use ftdc.Events.Histogram.Grouped.{
  HistogramGroupedStream, new_histogram_grouped_recorder, grouped_histogram_recorder, begin, reset,
  stamped, collect, end, flush,
}

-- The calls of End and of Flush.
unfoldable pub ends : List Call → ℕ
ends [] = 0
ends (Call.end clock dur ∷ rest) = suc (ends rest)
ends (Call.flush clock ∷ rest) = suc (ends rest)
ends (c ∷ rest) = ends rest

module _ (hdr : Hdrhist) {C : Type 0} (sink : Sink (PerformanceHdr hdr.Histogram) C)
    (resolved : Resolved) where
  -- A recorder that has collected `m` points, of the interval that the constructor sets.
  record Collected (m : ℕ)
      (r : HistogramGroupedStream hdr (Logged (PerformanceHdr hdr.Histogram) C)) : Type 0 where
    always : r.interval ≡ 0
    points : length r.collector.0 ≡ m

  stamped-same :
      (r : HistogramGroupedStream hdr (Logged (PerformanceHdr hdr.Histogram) C))
      → ((stamped hdr (logged_sink sink) resolved r).interval ≡ r.interval)
        × ((stamped hdr (logged_sink sink) resolved r).collector ≡ r.collector)
  unfolding stamped
  stamped-same r = ground arith

  -- The last branch of End is always taken.
  branch-Collected :
      (clock : Clock) (now m : ℕ)
      (r : HistogramGroupedStream hdr (Logged (PerformanceHdr hdr.Histogram) C))
      → Collected m r
      → Collected
          (suc m)
          (if leb r.interval now then collect hdr (logged_sink sink) resolved clock r else r)
  unfolding collect logged_sink
  branch-Collected clock now m r h =
      let e : leb r.interval now ≡ true = ground (arith, h.always) in
      rw (e) (record { always = h.always; points = ap suc h.points })

  end-Collected :
      (clock : Clock) (dur m : ℕ)
      (r : HistogramGroupedStream hdr (Logged (PerformanceHdr hdr.Histogram) C))
      → Collected m r
      → Collected (suc m) (end hdr (logged_sink sink) resolved clock dur r)
  unfolding end
  end-Collected clock dur m r h =
      let (p, es) = record_end hdr clock r.started dur (r.point, r.catcher) in
      let same = stamped-same (record r { point = p; catcher = es }) in
      branch-Collected clock _ m _
        (record { always = same.0 ∙ h.always; points = ap (λ c. length c.0) same.1 ∙ h.points })

  call-Collected :
      (c : Call) (rest : List Call)
      (r : HistogramGroupedStream hdr (Logged (PerformanceHdr hdr.Histogram) C))
      → Collected (ends rest) r
      → Collected
          (ends (c ∷ rest))
          (run_call (grouped_histogram_recorder hdr (logged_sink sink) resolved) c r).0
  unfolding run_call grouped_histogram_recorder histogram_recorder ends begin reset flush
      logged_sink
  call-Collected (Call.end clock dur) rest r h = end-Collected clock dur (ends rest) r h
  call-Collected (Call.flush clock) rest r h = record {
    always = h.always;
    points = ap suc h.points;
  }
  call-Collected c rest r h = record { always = h.always; points = h.points }

  replay-Collected :
      (calls : List Call) (c : C) (interval : ℕ)
      → Collected
          (ends calls)
          (replay
            (grouped_histogram_recorder hdr (logged_sink sink) resolved)
            calls
            (new_histogram_grouped_recorder hdr (logged_sink sink) resolved ([], c) interval)).0
  unfolding replay ends new_histogram_grouped_recorder
  replay-Collected [] c interval = record { always = refl; points = refl }
  replay-Collected (d ∷ rest) c interval =
      call-Collected d rest _ (replay-Collected rest c interval)

  -- A new histogramGroupedStream hands a point to the collector at every End and every Flush, and
  -- at no other call, whatever interval it was made with and whatever the clock reads.
  pub replay-points :
      (calls : List Call) (c : C) (interval : ℕ)
      → length
          (replay (grouped_histogram_recorder hdr (logged_sink sink) resolved) calls (
            new_histogram_grouped_recorder hdr
              (logged_sink sink)
              resolved
              ([], c)
              interval)).0.collector.0
        ≡ ends calls
  replay-points calls c interval = (replay-Collected calls c interval).points
