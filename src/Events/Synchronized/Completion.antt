-- ===== src/Events/Synchronized/Completion.antt =====
-- That threads which call the methods of a syncRecorder can always finish
-- (events/recorder_wrapper_sync.go).
use ftdc.Prelude.{
  ℕ, zero, suc, ◌≤◌, ◌<◌, ◌≡◌, ◌≢◌, ◌⊎◌, refl, sym, arith, List, [], ◌∷◌, some, inl, inr,
}
use native.Mathlib.Decide.{ℕ_discrete}
use mathlib.Core.Path.{subst}
use ftdc.Result.{panicked}
use ftdc.Events.Recorder.{Recorder}
use ftdc.Events.Recorder.Calls.{Call, run_call}
use ftdc.Events.Synchronized.Family.{sum}
use ftdc.Events.Synchronized.{Pc, ready, locked, loaded, stored, crashed, System, Step, Run, later}
use ftdc.Events.Synchronized.Progress.{steps_left, Step-left, Run-progress}

module _ {S : Type 0} (r : Recorder S) (n : ℕ) where
  -- Steps of the threads, one after the other.
  pub data Steps : System S → System S → Type 0 where
    done : {s : System S} → Steps s s
    onward : {s t u : System S} → Step r n s t → Steps t u → Steps s u

ready_or_not : {S : Type 0} (p : Pc S) → (p ≡ ready []) ⊎ (p ≢ ready [])
ready_or_not (ready []) = inl refl
ready_or_not (ready (c ∷ cs)) = inr (λ e. cc)
ready_or_not (locked c cs) = inr (λ e. cc)
ready_or_not (loaded c cs u) = inr (λ e. cc)
ready_or_not (stored cs) = inr (λ e. cc)
ready_or_not (crashed cs) = inr (λ e. cc)

-- All threads below `m` have made their calls, or one has not.
all_or_one :
    {S : Type 0} (m : ℕ) (pc : ℕ → Pc S)
    → ((i : ℕ) → i < m → pc i ≡ ready []) ⊎ ((i : ℕ) × (i < m) × (pc i ≢ ready []))
all_or_one zero pc = inl (λ i lt. absurd (omega arith))
all_or_one (suc m) pc = elim (ready_or_not (pc m)) [
  | inr more ↦ inr (m, omega arith, more)
  | inl made ↦ elim (all_or_one m pc) [
    | inr (i, lt, more) ↦ inr (i, omega arith, more)
    | inl all ↦ inl λ i lt. elim (ℕ_discrete i m) [
      | yes same ↦ subst (λ j. pc j ≡ ready []) (sym same) made
      | no other ↦ all i (ground arith)
    ]
  ]
]

module _ {S : Type 0} (r : Recorder S) (n : ℕ) (v : S) (program : ℕ → List Call)
    (calm : (c : Call) (u : S) → (run_call r c u).1 ≢ some panicked) where
  completes_within :
      (fuel : ℕ) {k : ℕ} {s : System S}
      → sum steps_left n s.pc ≤ fuel
      → Run r n v program k s
      → (t : System S) × Steps r n s t × ((i : ℕ) → i < n → t.pc i ≡ ready [])
  completes_within zero {k} {s} h run = elim (all_or_one n s.pc) [
    | inl all ↦ (s, done, all)
    | inr (i, lt, more) ↦
        (let (t, step) = Run-progress r n v program calm run i lt more in
          absurd (omega (arith, Step-left r n step, h)))
  ]
  completes_within (suc fuel) {k} {s} h run = elim (all_or_one n s.pc) [
    | inl all ↦ (s, done, all)
    | inr (i, lt, more) ↦
        (let (t, step) = Run-progress r n v program calm run i lt more in
          let (u, steps, all) =
            completes_within fuel (omega (arith, Step-left r n step, h)) (later run step) in
          (u, onward step steps, all))
  ]

  -- Where no call of the wrapped recorder panics, every state that threads calling the methods of
  -- one syncRecorder come to goes on, by further steps, to one in which all of them have made all
  -- of their calls: there is no deadlock.
  pub Run-completes :
      {k : ℕ} {s : System S}
      → Run r n v program k s
      → (t : System S) × Steps r n s t × ((i : ℕ) → i < n → t.pc i ≡ ready [])
  Run-completes {k} {s} run = completes_within (sum steps_left n s.pc) (omega arith) run
