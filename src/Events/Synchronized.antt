-- ===== src/Events/Synchronized.antt =====
-- events/recorder_wrapper_sync.go: threads that call the methods of one syncRecorder.
pub mod Family
pub mod Invariant
pub mod Linear
pub mod Progress
pub mod Completion
use ftdc.Prelude.{ℕ, suc, ◌<◌, ◌≡◌, ◌≢◌, List, [], ◌∷◌, Option, none, some}
use ftdc.Result.{Error, panicked}
use ftdc.Input.{Outcome}
use ftdc.Events.Recorder.{Recorder}
use ftdc.Events.Recorder.Calls.{Call, run_call}
use ftdc.Events.Synchronized.Family.{update}

-- Where a thread stands, with the calls it has still to make. A method of the wrapped recorder is not
-- atomic: it reads the recorder's state (`loaded`), and later writes the new one.
pub data Pc (S : Type 0) : Type 0 where
  ready : List Call → Pc S
  locked : Call → List Call → Pc S
  loaded : Call → List Call → S → Pc S
  stored : List Call → Pc S
  crashed : List Call → Pc S

-- A call that was made: the thread, the call and the error that it returned.
pub record Entry : Type 0 where
  pub thread : ℕ
  pub call : Call
  pub result : Option Error

-- The recorder's state, the thread that holds the mutex, the threads, and all calls whose new state
-- was written, the latest first (the log is not in the source).
pub record System (S : Type 0) : Type 0 where
  pub shared : S
  pub owner : Option ℕ
  pub pc : ℕ → Pc S
  pub log : List Entry

module _ {S : Type 0} (r : Recorder S) (n : ℕ) where
  -- One step of the thread `i`: `r.Lock()`, the reads and the writes of `op(val)`, and `r.Unlock()`.
  -- A panic of the call leaves the mutex locked.
  pub data Step (s : System S) : System S → Type 0 where
    lock :
        (i : ℕ) {c : Call} {cs : List Call}
        → i < n
        → s.pc i ≡ ready (c ∷ cs)
        → s.owner ≡ none
        → Step s (record s { owner = some i; pc = update s.pc i (locked c cs) })
    load :
        (i : ℕ) {c : Call} {cs : List Call}
        → i < n
        → s.pc i ≡ locked c cs
        → Step s (record s { pc = update s.pc i (loaded c cs s.shared) })
    store :
        (i : ℕ) {c : Call} {cs : List Call} {v : S}
        → i < n
        → s.pc i ≡ loaded c cs v
        → (run_call r c v).1 ≢ some panicked
        → Step s (record {
          shared = (run_call r c v).0;
          owner = s.owner;
          pc = update s.pc i (stored cs);
          log = record { thread = i; call = c; result = (run_call r c v).1 } ∷ s.log;
        })
    crash :
        (i : ℕ) {c : Call} {cs : List Call} {v : S}
        → i < n
        → s.pc i ≡ loaded c cs v
        → (run_call r c v).1 ≡ some panicked
        → Step s (record {
          shared = (run_call r c v).0;
          owner = s.owner;
          pc = update s.pc i (crashed cs);
          log = record { thread = i; call = c; result = (run_call r c v).1 } ∷ s.log;
        })
    unlock :
        (i : ℕ) {cs : List Call}
        → i < n
        → s.pc i ≡ stored cs
        → Step s (record s { owner = none; pc = update s.pc i (ready cs) })

  -- NewSynchronizedRecorder over a recorder in the state `v`, and the calls of each thread.
  abbrev pub init : S → (ℕ → List Call) → System S
  init v program = record { shared = v; owner = none; pc = λ i. ready (program i); log = [] }

  -- A run, with the number of its steps.
  pub data Run (v : S) (program : ℕ → List Call) : ℕ → System S → Type 0 where
    start : Run v program 0 (init v program)
    later : {k : ℕ} {s t : System S} → Run v program k s → Step s t → Run v program (suc k) t
