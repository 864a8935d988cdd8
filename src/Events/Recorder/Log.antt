-- ===== src/Events/Recorder/Log.antt =====
-- What a recorder hands to its collector, and what its calls count (events/recorder.go).
use ftdc.Prelude.{◌≡◌, arith, ℕ, ◌+◌, Bool, true, false, List, [], ◌∷◌, Option}
use ftdc.Result.{Error}
use ftdc.Events.Performance.{Performance, stamp, put_timestamp}
use ftdc.Events.Recorder.{Sink, catch}
use ftdc.Events.Recorder.Calls.{
  Call, inc_ops, inc_size, inc_error, inc_iterations, end, flush, set_duration,
}

-- A collector's state beside the points that it was handed, each with the error that it returned; the
-- latest is the first.
abbrev pub Logged : Type 0 → Type 0 → Type 0
Logged P C = List (P × Option Error) × C

unfoldable pub logged_sink : {P C : Type 0} → Sink P C → Sink P (Logged P C)
logged_sink sink now point (log, c) = let (c', e) = sink now point c in (((point, e) ∷ log, c'), e)

-- The errors of the log, as a catcher takes them.
unfoldable pub errors_of : {P : Type 0} → List (P × Option Error) → List Error
unfolding catch
errors_of [] = []
errors_of ((point, e) ∷ log) = catch e (errors_of log)

-- The numbers of a point that calls add to.
pub data Counter : Type 0 where
  number operations size errors duration : Counter

unfoldable pub count : Counter → Performance → ℕ
count number p = p.counters.number
count operations p = p.counters.operations
count size p = p.counters.size
count errors p = p.counters.errors
count duration p = p.timers.duration

pub count-stamp :
    (k : Counter) (started : Option ℕ) (p : Performance) → count k (stamp started p) ≡ count k p
unfolding count stamp put_timestamp
count-stamp k started p = ground arith

-- The sum over all points of a log.
unfoldable pub handed : Counter → List (Performance × Option Error) → ℕ
unfolding count
handed k [] = 0
handed k ((point, e) ∷ log) = handed k log + count k point

-- What a call says that is to be counted.
unfoldable pub amount : Counter → Call → ℕ
amount number (inc_iterations val) = val
amount operations (inc_ops val) = val
amount size (inc_size val) = val
amount errors (inc_error val) = val
amount duration (set_duration dur) = dur
amount duration (end clock dur) = dur
amount k call = 0

unfoldable pub is_flush : Call → Bool
is_flush (flush clock) = true
is_flush call = false
