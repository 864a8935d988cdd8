-- ===== src/Events/Performance.antt =====
-- events/performance.go: one event. A time is in nanoseconds, `none` the zero time; an int64 and a
-- Duration are bit patterns.
use ftdc.Prelude.{ℕ, Bool, false, Option, none, some}
use ftdc.Word.{add64}

pub record PerformanceCounters : Type 0 where
  pub number : ℕ
  pub operations : ℕ
  pub size : ℕ
  pub errors : ℕ

pub record PerformanceTimers : Type 0 where
  pub duration : ℕ
  pub total : ℕ

pub record PerformanceGauges : Type 0 where
  pub state : ℕ
  pub workers : ℕ
  pub failed : Bool

pub record Performance : Type 0 where
  pub timestamp : Option ℕ
  pub id : ℕ
  pub counters : PerformanceCounters
  pub timers : PerformanceTimers
  pub gauges : PerformanceGauges

abbrev pub no_counters : PerformanceCounters
no_counters = record { number = 0; operations = 0; size = 0; errors = 0 }

abbrev pub no_timers : PerformanceTimers
no_timers = record { duration = 0; total = 0 }

-- `PerformanceGauges{}`
abbrev pub no_gauges : PerformanceGauges
no_gauges = record { state = 0; workers = 0; failed = false }

-- `Performance{Gauges: gauges}`
unfoldable pub with_gauges : PerformanceGauges → Performance
with_gauges gauges = record {
  timestamp = none;
  id = 0;
  counters = no_counters;
  timers = no_timers;
  gauges = gauges;
}

-- `r.point.Counters.Operations += val`, and so on.
unfoldable pub add_operations : ℕ → Performance → Performance
unfolding add64
add_operations val p = record p {
  counters = record p.counters { operations = add64 p.counters.operations val };
}

unfoldable pub add_number : ℕ → Performance → Performance
unfolding add64
add_number val p = record p {
  counters = record p.counters { number = add64 p.counters.number val };
}

unfoldable pub add_size : ℕ → Performance → Performance
unfolding add64
add_size val p = record p { counters = record p.counters { size = add64 p.counters.size val } }

unfoldable pub add_errors : ℕ → Performance → Performance
unfolding add64
add_errors val p = record p {
  counters = record p.counters { errors = add64 p.counters.errors val };
}

unfoldable pub add_duration : ℕ → Performance → Performance
unfolding add64
add_duration dur p = record p {
  timers = record p.timers { duration = add64 p.timers.duration dur };
}

unfoldable pub add_total : ℕ → Performance → Performance
unfolding add64
add_total dur p = record p { timers = record p.timers { total = add64 p.timers.total dur } }

unfoldable pub put_duration : ℕ → Performance → Performance
put_duration dur p = record p { timers = record p.timers { duration = dur } }

unfoldable pub put_total : ℕ → Performance → Performance
put_total dur p = record p { timers = record p.timers { total = dur } }

-- The assignments to `r.point.Gauges` and to the other fields.
abbrev pub put_gauges : PerformanceGauges → Performance → Performance
put_gauges gauges p = record p { gauges = gauges }

unfoldable pub put_id : ℕ → Performance → Performance
put_id id p = record p { id = id }

unfoldable pub put_timestamp : Option ℕ → Performance → Performance
put_timestamp t p = record p { timestamp = t }

-- `if r.point.Timestamp.IsZero() { r.point.Timestamp = r.started }`
unfoldable pub stamp : Option ℕ → Performance → Performance
unfolding put_timestamp
stamp started p = elim p.timestamp [ none ↦ put_timestamp started p | some _ ↦ p ]
