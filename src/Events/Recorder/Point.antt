-- ===== src/Events/Recorder/Point.antt =====
-- The methods that change the point of a recorder, which the recorders over a Performance declare one
-- by one (events/recorder_performance_*.go).
use ftdc.Prelude.{ℕ}
use ftdc.Input.{Outcome}
use ftdc.Events.Performance.{
  Performance, add_operations, add_number, add_size, add_errors, put_gauges, put_id, put_timestamp,
}
use ftdc.Events.Recorder.{Clock, Recorder}

-- An assignment to parts of `r.point`.
abbrev pub Update : Type 0 → Type 0
Update S = (Performance → Performance) → S → S

-- What SetDuration and SetTotalDuration do to the point, and the methods that do more.
pub record Methods (S : Type 0) : Type 0 where
  pub put_duration : ℕ → Performance → Performance
  pub put_total : ℕ → Performance → Performance
  pub begin : Clock → S → S
  pub reset : Clock → S → S
  pub end : Clock → ℕ → S → S
  pub flush : Clock → S → Outcome S

unfoldable pub point_recorder : {S : Type 0} → Update S → Methods S → Recorder S
unfolding add_operations add_number add_size add_errors put_id put_timestamp
point_recorder update m = record {
  inc_ops = λ val. update (add_operations val);
  inc_size = λ val. update (add_size val);
  inc_error = λ val. update (add_errors val);
  inc_iterations = λ val. update (add_number val);
  set_state = λ val. update (λ p. put_gauges (record p.gauges { state = val }) p);
  set_workers = λ val. update (λ p. put_gauges (record p.gauges { workers = val }) p);
  set_failed = λ val. update (λ p. put_gauges (record p.gauges { failed = val }) p);
  begin = m.begin;
  reset = m.reset;
  end = m.end;
  flush = m.flush;
  set_id = λ val. update (put_id val);
  set_time = λ t. update (put_timestamp t);
  set_total_duration = λ dur. update (m.put_total dur);
  set_duration = λ dur. update (m.put_duration dur);
}
