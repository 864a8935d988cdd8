-- ===== src/Events/Recorder/Shim.antt =====
-- events/recorder_wrapper_stdlib.go: a recorder that drives a timer beside the one it wraps.
pub mod Transparent
use ftdc.Prelude.{ℕ}
use ftdc.Input.{Outcome}
use ftdc.Events.Recorder.{Clock, Recorder}

-- The timer's methods, as functions of its state. The source has no implementation of it.
pub record TimerManager (T : Type 0) : Type 0 where
  pub reset_timer : T → T
  pub start_timer : T → T
  pub stop_timer : T → T

-- The methods of the wrapped recorder that the shim passes on.
unfoldable pub passed_on : {S T : Type 0} → (S → S) → T × S → T × S
passed_on f (t, s) = (t, f s)

-- NewShimRecorder: the timer first, then the recorder, in the three methods that it declares.
unfoldable pub shim_recorder : {S T : Type 0} → Recorder S → TimerManager T → Recorder (T × S)
unfolding passed_on
shim_recorder r b = record {
  inc_ops = λ val. passed_on (r.inc_ops val);
  inc_size = λ val. passed_on (r.inc_size val);
  inc_error = λ val. passed_on (r.inc_error val);
  inc_iterations = λ val. passed_on (r.inc_iterations val);
  set_state = λ val. passed_on (r.set_state val);
  set_workers = λ val. passed_on (r.set_workers val);
  set_failed = λ val. passed_on (r.set_failed val);
  begin = λ clock (t, s). (b.start_timer t, r.begin clock s);
  reset = λ clock (t, s). (b.reset_timer t, r.reset clock s);
  end = λ clock dur (t, s). (b.stop_timer t, r.end clock dur s);
  flush = λ clock (t, s). let (s', e) = r.flush clock s in ((t, s'), e);
  set_id = λ val. passed_on (r.set_id val);
  set_time = λ time. passed_on (r.set_time time);
  set_total_duration = λ dur. passed_on (r.set_total_duration dur);
  set_duration = λ dur. passed_on (r.set_duration dur);
}
