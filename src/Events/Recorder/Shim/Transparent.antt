-- ===== src/Events/Recorder/Shim/Transparent.antt =====
-- What a shim adds to the recorder that it wraps (events/recorder_wrapper_stdlib.go).
use ftdc.Prelude.{◌≡◌, refl, List, [], ◌∷◌}
use ftdc.Events.Recorder.{Recorder}
use ftdc.Events.Recorder.Calls.{Call, run_call, replay}
use ftdc.Events.Recorder.Shim.{TimerManager, passed_on, shim_recorder}

-- What a call does to the timer alone.
unfoldable pub timer_call : {T : Type 0} → TimerManager T → Call → T → T
timer_call b (Call.begin clock) = b.start_timer
timer_call b (Call.reset clock) = b.reset_timer
timer_call b (Call.end clock dur) = b.stop_timer
timer_call b c = λ t. t

unfoldable pub timer_replay : {T : Type 0} → TimerManager T → List Call → T → T
unfolding timer_call
timer_replay b [] t = t
timer_replay b (c ∷ calls) t = timer_call b c (timer_replay b calls t)

module _ {S T : Type 0} (r : Recorder S) (b : TimerManager T) where
  run_call-shim :
      (c : Call) (s : S) (t : T)
      → run_call (shim_recorder r b) c (t, s)
        ≡ ((timer_call b c t, (run_call r c s).0), (run_call r c s).1)
  unfolding run_call shim_recorder passed_on timer_call
  run_call-shim (Call.flush clock) s t = refl
  run_call-shim c s t = refl

  -- Calls of a stdShim do to the wrapped recorder what the same calls of it do alone, with the same
  -- errors, and to the timer what its starts, stops and resets do.
  pub replay-shim :
      (calls : List Call) (s : S) (t : T)
      → replay (shim_recorder r b) calls (t, s)
        ≡ ((timer_replay b calls t, (replay r calls s).0), (replay r calls s).1)
  unfolding replay timer_replay
  replay-shim [] s t = refl
  replay-shim (c ∷ calls) s t =
      rw (replay-shim calls s t, run_call-shim c (replay r calls s).0 (timer_replay b calls t)) refl
