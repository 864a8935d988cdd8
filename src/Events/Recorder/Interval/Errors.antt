-- ===== src/Events/Recorder/Interval/Errors.antt =====
-- The errors that an intervalStream reports (events/recorder_performance_interval.go).
use ftdc.Prelude.{◌≡◌, refl, arith, Bool, true, false, ◌||◌, List, [], ◌∷◌, Bool-cases, inl, inr}
use ftdc.Events.Performance.{Performance}
use ftdc.Events.Recorder.{Clock, Sink, Resolved}
use ftdc.Events.Recorder.Point.{point_recorder}
use ftdc.Events.Recorder.Calls.{Call, run_call}
use ftdc.Events.Recorder.Log.{Logged, logged_sink, errors_of, is_flush}
use ftdc.Events.Recorder.Interval.{
  IntervalStream, interval_recorder, measure_total, begin, reset, end, tick, flush,
}
use ftdc.Events.Recorder.Interval.Conserved.{Action, call, round, act_all}

-- Whether Flush is among the actions.
unfoldable pub flushes : List Action → Bool
unfolding is_flush
flushes [] = false
flushes (call c ∷ rest) = is_flush c || flushes rest
flushes (round clock ∷ rest) = flushes rest

-- The errors of the log are those that the catcher has.
abbrev Caught : {C : Type 0} → IntervalStream (Logged Performance C) → Type 0
Caught r = r.catcher ≡ errors_of r.collector.0

module _ {C : Type 0} (sink : Sink Performance C) (resolved : Resolved) where
  tick-Caught :
      (clock : Clock) (r : IntervalStream (Logged Performance C))
      → Caught r
      → Caught (tick (logged_sink sink) resolved clock r)
  unfolding tick logged_sink errors_of
  tick-Caught clock r h = rw (h) refl

  call-Caught :
      (c : Call) (r : IntervalStream (Logged Performance C))
      → is_flush c ≡ false
      → Caught r
      → Caught (run_call (interval_recorder (logged_sink sink) resolved) c r).0
  unfolding run_call interval_recorder point_recorder begin reset end measure_total is_flush
  call-Caught c r e h = ground (arith, h)

  act_all-Caught :
      (actions : List Action) (r : IntervalStream (Logged Performance C))
      → flushes actions ≡ false
      → Caught r
      → Caught (act_all sink resolved actions r)
  unfolding act_all flushes
  act_all-Caught [] r e h = h
  act_all-Caught (call c ∷ rest) r e h = elim (Bool-cases (is_flush c)) [
    | inl last ↦ (let q : true ≡ false = rw (last) at e in cc)
    | inr quiet ↦
        (let q : flushes rest ≡ false = rw (quiet) at e in
          call-Caught c (act_all sink resolved rest r) quiet (act_all-Caught rest r q h))
  ]
  act_all-Caught (round clock ∷ rest) r e h =
      tick-Caught clock (act_all sink resolved rest r) (act_all-Caught rest r e h)

  -- Flush of an intervalStream, behind calls and rounds of the worker without another Flush,
  -- returns what the catcher resolves of all errors that the collector returned for their points
  -- and for its own, and leaves an empty catcher, where Begin has made a canceler.
  pub flush-errors :
      (actions : List Action) (clock : Clock) (r : IntervalStream (Logged Performance C))
      → r.catcher ≡ errors_of r.collector.0
      → flushes actions ≡ false
      → (act_all sink resolved actions r).canceler ≡ true
      → ((flush (logged_sink sink) resolved clock (act_all sink resolved actions r)).1
          ≡ resolved (
              errors_of
                (flush
                  (logged_sink sink)
                  resolved
                  clock
                  (act_all sink resolved actions r)).0.collector.0))
        × ((flush (logged_sink sink) resolved clock (act_all sink resolved actions r)).0.catcher
            ≡ [])
  unfolding flush logged_sink errors_of
  flush-errors actions clock r h quiet running =
      let caught = act_all-Caught actions r quiet h in
      (rw (running, caught) refl, rw (running) refl)
