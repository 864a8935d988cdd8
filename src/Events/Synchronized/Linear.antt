-- ===== src/Events/Synchronized/Linear.antt =====
-- What the threads of a syncRecorder do, as a sequence of calls (events/recorder_wrapper_sync.go).
use ftdc.Prelude.{ℕ, ◌≡◌, refl, List, map, none, some}
use ftdc.Events.Recorder.{Recorder}
use ftdc.Events.Recorder.Calls.{Call, replay}
use ftdc.Events.Synchronized.{
  ready, locked, loaded, stored, crashed, System, Step, lock, load, store, crash, unlock, init, Run,
  start, later,
}
use ftdc.Events.Synchronized.Invariant.{
  Exclusive-lock, Exclusive-stay, Exclusive-unlock, pending, behind, Inv, Inv-quiet, Inv-made,
}

module _ {S : Type 0} (r : Recorder S) (n : ℕ) (v : S) (program : ℕ → List Call) where
  Inv-init : Inv r n v program (init r n v program)
  unfolding behind replay
  Inv-init = record {
    exclusive = record { held = λ j h. cc; holder = λ j h. cc; within = λ j h. cc };
    fresh = λ j c cs u h. cc;
    order = λ i. refl;
    replayed = refl;
  }

  Step-Inv : {s t : System S} → Step r n s t → Inv r n v program s → Inv r n v program t
  Step-Inv {s} (lock i {c} {cs} lt at free) inv =
      Inv-quiet r n v program s inv i (locked c cs) (some i) (rw (at) refl) (λ d ds u h. cc)
        (Exclusive-lock n s.owner s.pc inv.exclusive i (locked c cs) free lt refl)
  Step-Inv {s} (load i {c} {cs} lt at) inv =
      Inv-quiet r n v program s inv i (loaded c cs s.shared) s.owner (rw (at) refl) (λ d ds u h. cc)
        (Exclusive-stay n s.owner s.pc inv.exclusive i (loaded c cs s.shared) (rw (at) refl) refl)
  Step-Inv {s} (store i {c} {cs} {v = u} lt at calm) inv =
      Inv-made r n v program s inv i c cs u (stored cs) at refl refl (λ d ds w h. cc)
  Step-Inv {s} (crash i {c} {cs} {v = u} lt at panic) inv =
      Inv-made r n v program s inv i c cs u (crashed cs) at refl refl (λ d ds w h. cc)
  Step-Inv {s} (unlock i {cs} lt at) inv =
      Inv-quiet r n v program s inv i (ready cs) none (rw (at) refl) (λ d ds u h. cc)
        (Exclusive-unlock n s.owner s.pc inv.exclusive i (ready cs) (rw (at) refl) refl)

  pub Run-Inv : {k : ℕ} {s : System S} → Run r n v program k s → Inv r n v program s
  Run-Inv start = Inv-init
  Run-Inv (later run step) = Step-Inv step (Run-Inv run)

  -- However `n` threads that call the methods of one syncRecorder are interleaved, where a method
  -- of the wrapped recorder reads its state in one step and writes it in a later one: the
  -- recorder's state, and the errors that the calls returned, are those of the calls made one after
  -- the other, in the order of their writes, and each thread makes its own calls in its own order.
  pub Run-sequential :
      {k : ℕ} {s : System S}
      → Run r n v program k s
      → (replay r (map (λ e. e.call) s.log) v ≡ (s.shared, map (λ e. e.result) s.log))
        × ((i : ℕ) → behind i s.log (pending (s.pc i)) ≡ program i)
  Run-sequential run = (let inv = Run-Inv run in (inv.replayed, inv.order))
