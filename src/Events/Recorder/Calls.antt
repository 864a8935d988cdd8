-- ===== src/Events/Recorder/Calls.antt =====
-- The methods of events/recorder.go as data, and a sequence of calls.
use ftdc.Prelude.{ℕ, List, [], ◌∷◌, Bool, Option, none}
use ftdc.Result.{Error}
use ftdc.Input.{Outcome}
use ftdc.Events.Recorder.{Clock, Recorder}

-- A call of a method, with its arguments and the clock's readings in it.
pub data Call : Type 0 where
  inc_ops inc_size inc_error inc_iterations : ℕ → Call
  set_state set_workers : ℕ → Call
  set_failed : Bool → Call
  begin reset : Clock → Call
  end : Clock → ℕ → Call
  flush : Clock → Call
  set_id : ℕ → Call
  set_time : Option ℕ → Call
  set_total_duration set_duration : ℕ → Call

module _ {S : Type 0} (r : Recorder S) where
  -- What a call does to the recorder, and the error that it returns. Only Flush returns one.
  unfoldable pub run_call : Call → S → Outcome S
  run_call (inc_ops val) s = (r.inc_ops val s, none)
  run_call (inc_size val) s = (r.inc_size val s, none)
  run_call (inc_error val) s = (r.inc_error val s, none)
  run_call (inc_iterations val) s = (r.inc_iterations val s, none)
  run_call (set_state val) s = (r.set_state val s, none)
  run_call (set_workers val) s = (r.set_workers val s, none)
  run_call (set_failed val) s = (r.set_failed val s, none)
  run_call (begin clock) s = (r.begin clock s, none)
  run_call (reset clock) s = (r.reset clock s, none)
  run_call (end clock dur) s = (r.end clock dur s, none)
  run_call (flush clock) s = r.flush clock s
  run_call (set_id val) s = (r.set_id val s, none)
  run_call (set_time t) s = (r.set_time t s, none)
  run_call (set_total_duration dur) s = (r.set_total_duration dur s, none)
  run_call (set_duration dur) s = (r.set_duration dur s, none)

  -- The state behind the calls, and the errors that they returned; the latest call is the first.
  unfoldable pub replay : List Call → S → S × List (Option Error)
  unfolding run_call
  replay [] s = (s, [])
  replay (c ∷ cs) s = let (s', es) = replay cs s in let (s'', e) = run_call c s' in (s'', e ∷ es)
