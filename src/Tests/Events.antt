-- ===== src/Tests/Events.antt =====
-- The recorders of events at concrete inputs. The collector takes two points.
use ftdc.Prelude.{
  ℕ, zero, suc, ◌+◌, ◌<◌, ◌≡◌, ◌≢◌, ◌%◌, refl, arith, List, [], ◌∷◌, map, length, Option, none,
  some, ltb, if◌then◌else◌,
}
use ftdc.Word.{word}
use ftdc.Result.{Error, overfull, panicked}
use ftdc.Events.Performance.{Performance}
use ftdc.Events.Recorder.{Clock, Recorder, Sink}
use ftdc.Events.Recorder.Calls.{Call, inc_ops, replay, run_call}
use ftdc.Events.Recorder.Log.{Logged, logged_sink, operations, handed, errors_of}
use ftdc.Events.Recorder.Grouped.{GroupStream, new_grouped_recorder, grouped_recorder}
use ftdc.Events.Recorder.Grouped
use ftdc.Events.Recorder.Grouped.Totals.{after, flush-total}
use ftdc.Events.Recorder.Grouped.Totals
use ftdc.Events.Recorder.Interval.{IntervalStream, new_interval_recorder}
use ftdc.Events.Recorder.Interval
use ftdc.Events.Recorder.Interval.Conserved.{
  Action, call, round, act_all, value, asked, act_all-conserved,
}
use ftdc.Events.Recorder.Interval.Errors.{flushes, flush-errors}
use ftdc.Events.Recorder.Shim.{TimerManager, shim_recorder}
use ftdc.Events.Recorder.Shim.Transparent.{timer_replay, replay-shim}
use ftdc.Events.Histogram.{Hdrhist}
use ftdc.Events.Histogram.Grouped.{new_histogram_grouped_recorder, grouped_histogram_recorder}
use ftdc.Events.Histogram.Grouped.Every.{ends, replay-points}
use ftdc.Events.Synchronized.{
  ready, locked, loaded, System, lock, load, store, init, Run, start, later,
}
use ftdc.Events.Synchronized.Family.{update, update_self}
use ftdc.Events.Synchronized.Invariant.{behind, pending}
use ftdc.Events.Synchronized.Linear.{Run-sequential}
use ftdc.Events.Synchronized.Completion.{Steps, Run-completes}

abbrev toy_sink : {P : Type 0} → Sink P ℕ
toy_sink now point taken = if ltb taken 2 then (taken + 1, none) else (taken, some overfull)

abbrev first_error : List Error → Option Error
first_error [] = none
first_error (e ∷ es) = some overfull

-- A clock that stands at `t`.
abbrev at : ℕ → Clock
at t reading = t

abbrev recorder : Recorder (GroupStream ℕ)
recorder = grouped_recorder toy_sink first_error

abbrev fresh : GroupStream ℕ
fresh = new_grouped_recorder (at 5) 0 10

abbrev later_calls : List Call
later_calls = Call.flush (at 7) ∷ []

abbrev program : ℕ → List Call
program zero = inc_ops 3 ∷ later_calls
program (suc zero) = inc_ops 4 ∷ []
program (suc (suc i)) = []

abbrev begun : System (GroupStream ℕ)
begun = init recorder 2 fresh program

no_panic : (c : Call) (u : GroupStream ℕ) → (run_call recorder c u).1 ≢ some panicked
unfolding run_call grouped_recorder Grouped.flush
no_panic (Call.flush clock) u e = first_error-calm _ e
  where
    first_error-calm : (es : List Error) → first_error es ≢ some panicked
    first_error-calm [] e = cc
    first_error-calm (x ∷ es) e = cc
no_panic c u e = cc

two : 0 < 2
two = omega arith

-- Thread 0 has made its first call, and holds the mutex still.
abbrev some_run : (s : System (GroupStream ℕ)) × Run recorder 2 fresh program 3 s
some_run =
    let first = lock 0 two refl refl in
    let second = load 0 two (update_self begun.pc 0 (locked (inc_ops 3) later_calls)) in
    (
      _,
      later (later (later start first) second) (
          store 0 two
            (update_self (update begun.pc 0 (locked (inc_ops 3) later_calls)) 0
              (loaded (inc_ops 3) later_calls fresh))
            (no_panic (inc_ops 3) fresh)),
    )

Run-sequential_example :
    (replay recorder (map (λ e. e.call) some_run.0.log) fresh
      ≡ (some_run.0.shared, map (λ e. e.result) some_run.0.log))
    × ((i : ℕ) → behind i some_run.0.log (pending (some_run.0.pc i)) ≡ program i)
Run-sequential_example = Run-sequential recorder 2 fresh program some_run.1

Run-completes_example :
    (t : System (GroupStream ℕ)) × Steps recorder 2 some_run.0 t
    × ((i : ℕ) → i < 2 → t.pc i ≡ ready [])
Run-completes_example = Run-completes recorder 2 fresh program no_panic some_run.1

abbrev actions : List Action
actions =
    call (Call.end (at 30) 2)
    ∷ round (at 20)
    ∷ call (Call.set_duration 4)
    ∷ call (inc_ops 3)
    ∷ call (Call.begin (at 9))
    ∷ []

act_all-conserved_example :
    value operations (act_all toy_sink first_error actions (new_interval_recorder ([], 0)))
    ≡ asked operations actions % word
act_all-conserved_example = act_all-conserved toy_sink first_error operations actions 0

-- A collector with room for no more points.
abbrev full : IntervalStream (Logged Performance ℕ)
full = new_interval_recorder ([], 2)

flush-errors_example :
    ((Interval.flush
        (logged_sink toy_sink)
        first_error
        (at 40)
        (act_all toy_sink first_error actions full)).1
      ≡ first_error (
          errors_of
            (Interval.flush
              (logged_sink toy_sink)
              first_error
              (at 40)
              (act_all toy_sink first_error actions full)).0.collector.0))
    × ((Interval.flush
          (logged_sink toy_sink)
          first_error
          (at 40)
          (act_all toy_sink first_error actions full)).0.catcher
        ≡ [])
unfolding errors_of new_interval_recorder flushes act_all
flush-errors_example = flush-errors toy_sink first_error actions (at 40) full refl refl refl

abbrev calls : List Call
calls = Call.end (at 30) 2 ∷ inc_ops 3 ∷ Call.end (at 8) 1 ∷ inc_ops 4 ∷ []

flush-total_example :
    handed operations
      (Grouped.flush
        (logged_sink toy_sink)
        first_error
        (at 40)
        (after toy_sink first_error calls (at 5) 0 10)).0.collector.0
    ≡ handed operations (after toy_sink first_error calls (at 5) 0 10).collector.0
      + Grouped.Totals.asked operations calls % word
unfolding Grouped.Totals.flushes
flush-total_example = flush-total toy_sink first_error operations calls (at 5) (at 40) 0 10 refl

-- A histogram that keeps all values.
abbrev toy_histograms : Hdrhist
toy_histograms = record {
  Histogram = List ℕ;
  new = λ least greatest figures. [];
  record_value = λ val h. (val ∷ h, none);
}

replay-points_example :
    length
      (replay (grouped_histogram_recorder toy_histograms (logged_sink toy_sink) first_error) calls (
        new_histogram_grouped_recorder toy_histograms
          (logged_sink toy_sink)
          first_error
          ([], 0)
          10)).0.collector.0
    ≡ ends calls
replay-points_example = replay-points toy_histograms toy_sink first_error calls 0 10

-- A timer that counts how often it is started.
abbrev toy_timer : TimerManager ℕ
toy_timer = record { reset_timer = λ t. 0; start_timer = suc; stop_timer = λ t. t }

replay-shim_example : replay (shim_recorder recorder toy_timer) calls (0, fresh) ≡ (
  (timer_replay toy_timer calls 0, (replay recorder calls fresh).0),
  (replay recorder calls fresh).1,
)
replay-shim_example = replay-shim recorder toy_timer calls fresh 0
