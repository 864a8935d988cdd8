-- ===== src/Events/Synchronized/Progress.antt =====
-- That the threads of a syncRecorder come to an end (events/recorder_wrapper_sync.go).
use ftdc.Prelude.{
  ℕ, suc, ◌+◌, ◌*◌, ◌<◌, ◌≡◌, ◌≢◌, refl, arith, Bool, true, false, List, [], ◌∷◌, length, none,
  some, Option-cases, Bool-cases, inl, inr,
}
use ftdc.Result.{panicked}
use ftdc.Events.Recorder.{Recorder}
use ftdc.Events.Recorder.Calls.{Call, run_call}
use ftdc.Events.Synchronized.Family.{update, update-cases, sum, sum-update, sum-compose}
use ftdc.Events.Synchronized.{
  Pc, ready, locked, loaded, stored, crashed, System, Step, lock, load, store, crash, unlock, Run,
  start, later,
}
use ftdc.Events.Synchronized.Invariant.{in_critical}
use ftdc.Events.Synchronized.Linear.{Run-Inv}

-- The steps that a thread has still to make.
unfoldable pub steps_left : {S : Type 0} → Pc S → ℕ
steps_left (ready cs) = 4 * length cs
steps_left (locked c cs) = 4 * length cs + 3
steps_left (loaded c cs v) = 4 * length cs + 2
steps_left (stored cs) = 4 * length cs + 1
steps_left (crashed cs) = 4 * length cs + 1

abbrev is_crashed : {S : Type 0} → Pc S → Bool
is_crashed (crashed cs) = true
is_crashed p = false

module _ {S : Type 0} (r : Recorder S) (n : ℕ) where
  sum-step :
      (pc : ℕ → Pc S) (i : ℕ) (p : Pc S)
      → i < n
      → steps_left (pc i) ≡ suc (steps_left p)
      → suc (sum steps_left n (update pc i p)) ≡ sum steps_left n pc
  sum-step pc i p lt e = omega (arith, sum-update steps_left n pc i p lt, e)

  pub Step-left :
      {s t : System S} → Step r n s t → suc (sum steps_left n t.pc) ≡ sum steps_left n s.pc
  unfolding steps_left
  Step-left {s} (lock i {c} {cs} lt at free) =
      sum-step s.pc i (locked c cs) lt (rw (at) omega arith)
  Step-left {s} (load i {c} {cs} lt at) =
      sum-step s.pc i (loaded c cs s.shared) lt (rw (at) omega arith)
  Step-left {s} (store i {c} {cs} lt at calm) = sum-step s.pc i (stored cs) lt (rw (at) omega arith)
  Step-left {s} (crash i {c} {cs} lt at panic) =
      sum-step s.pc i (crashed cs) lt (rw (at) omega arith)
  Step-left {s} (unlock i {cs} lt at) = sum-step s.pc i (ready cs) lt (rw (at) omega arith)

calm_update :
    {S : Type 0} (pc : ℕ → Pc S)
    → ((j : ℕ) → is_crashed (pc j) ≡ false)
    → (i : ℕ) (p : Pc S) → is_crashed p ≡ false
    → (j : ℕ) → is_crashed (update pc i p j) ≡ false
calm_update pc h i p up j = elim (update-cases pc i p j) [
  | inl (same, u) ↦ rw (u) up
  | inr (other, u) ↦ rw (u) (h j)
]

module _ {S : Type 0} (r : Recorder S) (n : ℕ) (v : S) (program : ℕ → List Call) where
  -- The steps that threads calling the methods of one syncRecorder have made and those that are
  -- left to them are together four for each of their calls, so that no run has more.
  pub Run-length :
      {k : ℕ} {s : System S}
      → Run r n v program k s
      → k + sum steps_left n s.pc ≡ sum (λ cs. 4 * length cs) n program
  unfolding steps_left sum
  Run-length start = omega (arith, sum-compose (steps_left {S = S}) n program ready)
  Run-length (later run step) = omega (arith, Run-length run, Step-left r n step)

  module _ (calm : (c : Call) (u : S) → (run_call r c u).1 ≢ some panicked) where
    Step-calm :
        {s t : System S}
        → Step r n s t
        → ((j : ℕ) → is_crashed (s.pc j) ≡ false)
        → (j : ℕ) → is_crashed (t.pc j) ≡ false
    Step-calm {s} (lock i {c} {cs} lt at free) h j = calm_update s.pc h i (locked c cs) refl j
    Step-calm {s} (load i {c} {cs} lt at) h j = calm_update s.pc h i (loaded c cs s.shared) refl j
    Step-calm {s} (store i {c} {cs} lt at quiet) h j = calm_update s.pc h i (stored cs) refl j
    Step-calm {s} (crash i {c} {cs} {v = u} lt at panic) h j = absurd (calm c u panic)
    Step-calm {s} (unlock i {cs} lt at) h j = calm_update s.pc h i (ready cs) refl j

    Run-calm :
        {k : ℕ} {s : System S} → Run r n v program k s → (j : ℕ) → is_crashed (s.pc j) ≡ false
    Run-calm start j = refl
    Run-calm (later run step) j = Step-calm step (Run-calm run) j

    -- The thread that holds the mutex goes on.
    holder-Step :
        (s : System S) (j : ℕ) (p : Pc S)
        → s.pc j ≡ p
        → j < n
        → in_critical p ≡ true
        → is_crashed p ≡ false
        → (t : System S) × Step r n s t
    holder-Step s j (ready cs) at lt inside up = cc
    holder-Step s j (locked c cs) at lt inside up = (_, load j lt at)
    holder-Step s j (loaded c cs u) at lt inside up = (_, store j lt at (calm c u))
    holder-Step s j (stored cs) at lt inside up = (_, unlock j lt at)
    holder-Step s j (crashed cs) at lt inside up = cc

    -- A thread goes on where no one holds the mutex.
    free-Step :
        (s : System S) (i : ℕ) (p : Pc S)
        → s.pc i ≡ p
        → i < n
        → p ≢ ready []
        → in_critical p ≡ false
        → s.owner ≡ none
        → (t : System S) × Step r n s t
    free-Step s i (ready []) at lt more out free = absurd (more refl)
    free-Step s i (ready (c ∷ cs)) at lt more out free = (_, lock i lt at free)
    free-Step s i (locked c cs) at lt more out free = cc
    free-Step s i (loaded c cs u) at lt more out free = cc
    free-Step s i (stored cs) at lt more out free = cc
    free-Step s i (crashed cs) at lt more out free = cc

    -- Where no call of the wrapped recorder panics, in every state that threads calling the methods
    -- of one syncRecorder come to, as long as one of them has not made all of its calls, some
    -- thread can make a step.
    pub Run-progress :
        {k : ℕ} {s : System S}
        → Run r n v program k s
        → (i : ℕ) → i < n
        → s.pc i ≢ ready []
        → (t : System S) × Step r n s t
    Run-progress {k} {s} run i lt more =
        let e = (Run-Inv r n v program run).exclusive in
        elim (Option-cases s.owner) [
          | inl free ↦ elim (Bool-cases (in_critical (s.pc i))) [
            | inl inside ↦ (let q : s.owner ≡ some i = e.held i inside in absurd cc)
            | inr out ↦ free-Step s i (s.pc i) refl lt more out free
          ]
          | inr (j, owns) ↦
              holder-Step s j (s.pc j) refl (e.within j owns) (e.holder j owns) (Run-calm run j)
        ]
