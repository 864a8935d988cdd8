-- ===== src/Events/Recorder/Grouped/Totals.antt =====
-- What the points of a groupStream hold (events/recorder_performance_grouped.go).
use ftdc.Prelude.{
  ℕ, ◌+◌, ◌%◌, ◌<◌, ◌≡◌, arith, Bool, true, false, ◌||◌, List, [], ◌∷◌, Bool-cases, inl, inr,
}
use ftdc.Word.{word, add64}
use ftdc.Events.Performance.{
  Performance, add_operations, add_number, add_size, add_errors, add_duration, add_total, put_id,
  put_timestamp, stamp, with_gauges,
}
use ftdc.Events.Recorder.{Clock, Sink, Resolved}
use ftdc.Events.Recorder.Point.{point_recorder}
use ftdc.Events.Recorder.Calls.{Call, run_call, replay}
use ftdc.Events.Recorder.Log.{
  Logged, logged_sink, Counter, number, count, handed, count-stamp, amount, is_flush,
}
use ftdc.Events.Recorder.Grouped.{
  GroupStream, new_grouped_recorder, grouped_recorder, measure_total, begin, reset, end, collect,
  flush,
}

-- What a call says that is to be counted, with the iteration that End counts.
unfoldable pub grouped_amount : Counter → Call → ℕ
unfolding amount
grouped_amount number (Call.end clock dur) = 1
grouped_amount k c = amount k c

unfoldable pub asked : Counter → List Call → ℕ
unfolding grouped_amount
asked k [] = 0
asked k (c ∷ rest) = asked k rest + grouped_amount k c

unfoldable pub flushes : List Call → Bool
unfolding is_flush
flushes [] = false
flushes (c ∷ rest) = is_flush c || flushes rest

module _ {C : Type 0} (sink : Sink Performance C) (resolved : Resolved) where
  end-count :
      (k : Counter) (clock : Clock) (dur : ℕ) (r : GroupStream C)
      → count k r.point < word
      → count k (end sink resolved clock dur r).point
        ≡ (count k r.point + grouped_amount k (Call.end clock dur)) % word
  unfolding count amount grouped_amount end collect stamp add_number add_duration measure_total
      add_total add64 put_timestamp
  end-count k clock dur r h = ground arith

  call-count :
      (k : Counter) (c : Call) (r : GroupStream C)
      → is_flush c ≡ false
      → count k r.point < word
      → count k (run_call (grouped_recorder sink resolved) c r).0.point
        ≡ (count k r.point + grouped_amount k c) % word
  unfolding count amount grouped_amount run_call grouped_recorder point_recorder add_operations
      add_number add_size add_errors add_duration add_total add64 put_id put_timestamp begin reset
      is_flush
  call-count k (Call.end clock dur) r e h = end-count k clock dur r h
  call-count k c r e h = ground arith

  replay-count :
      (k : Counter) (calls : List Call) (clock : Clock) (c : C) (interval : ℕ)
      → flushes calls ≡ false
      → count k
          (replay
            (grouped_recorder sink resolved)
            calls
            (new_grouped_recorder clock c interval)).0.point
        ≡ asked k calls % word
  unfolding replay new_grouped_recorder asked count with_gauges flushes
  replay-count k [] clock c interval e = ground arith
  replay-count k (d ∷ rest) clock c interval e = elim (Bool-cases (is_flush d)) [
    | inl last ↦ (let q : true ≡ false = rw (last) at e in cc)
    | inr quiet ↦
        (let q : flushes rest ≡ false = rw (quiet) at e in
          let r =
            (replay (grouped_recorder sink resolved) rest
              (new_grouped_recorder clock c interval)).0 in
          let ih : count k r.point ≡ asked k rest % word = replay-count k rest clock c interval q in
          omega (arith, ih, call-count k d r quiet (omega (arith, ih))))
  ]

module _ {C : Type 0} (sink : Sink Performance C) (resolved : Resolved) where
  -- A new recorder behind the calls.
  abbrev pub after : List Call → Clock → C → ℕ → GroupStream (Logged Performance C)
  after calls clock c interval =
      (replay (grouped_recorder (logged_sink sink) resolved) calls
        (new_grouped_recorder clock ([], c) interval)).0

  -- The point that Flush of a groupStream hands to the collector holds the sums, modulo 2 ^ 64, of
  -- all calls since the recorder was new, with an iteration for each End, also of those that were
  -- in points handed on before.
  pub flush-total :
      (k : Counter) (calls : List Call) (clock now : Clock) (c : C) (interval : ℕ)
      → flushes calls ≡ false
      → handed k
          (flush (logged_sink sink) resolved now (after calls clock c interval)).0.collector.0
        ≡ handed k (after calls clock c interval).collector.0 + asked k calls % word
  unfolding flush logged_sink handed
  flush-total k calls clock now c interval e =
      let r = after calls clock c interval in
      omega (
        arith,
        count-stamp k r.started r.point,
        replay-count (logged_sink sink) resolved k calls clock ([], c) interval e,
      )
