-- ===== src/Events/Synchronized/Invariant.antt =====
-- What every interleaving of the threads of a syncRecorder keeps (events/recorder_wrapper_sync.go).
use ftdc.Prelude.{
  ℕ, ◌<◌, ◌≡◌, ◌≢◌, refl, sym, ap, ◌∙◌, Bool, true, false, List, [], ◌∷◌, map, Option, none, some,
  inl, inr,
}
use ftdc.Events.Recorder.{Recorder}
use ftdc.Events.Recorder.Calls.{Call, run_call, replay}
use ftdc.Events.Synchronized.Family.{update, update-cases}
use ftdc.Events.Synchronized.{Pc, ready, locked, loaded, stored, crashed, Entry, System}
use mathlib.Core.Logic.{ite}
use native.Mathlib.Decide.{ℕ_discrete}

-- Whether the thread is between the Lock and the Unlock of a method.
abbrev pub in_critical : {S : Type 0} → Pc S → Bool
in_critical (ready cs) = false
in_critical (locked c cs) = true
in_critical (loaded c cs v) = true
in_critical (stored cs) = true
in_critical (crashed cs) = true

pub record Exclusive {S : Type 0} (n : ℕ) (owner : Option ℕ) (pc : ℕ → Pc S) : Type 0 where
  pub held : (j : ℕ) → in_critical (pc j) ≡ true → owner ≡ some j
  pub holder : (j : ℕ) → owner ≡ some j → in_critical (pc j) ≡ true
  pub within : (j : ℕ) → owner ≡ some j → j < n

abbrev Fresh : {S : Type 0} → S → (ℕ → Pc S) → Type 0
Fresh {S} shared pc =
    (j : ℕ) (c : Call) (cs : List Call) (v : S) → pc j ≡ loaded c cs v → v ≡ shared

module _ {S : Type 0} (n : ℕ) (owner : Option ℕ) (pc : ℕ → Pc S) (e : Exclusive n owner pc) (i : ℕ)
    (p : Pc S) where
  pub Exclusive-lock :
      owner ≡ none → i < n → in_critical p ≡ true → Exclusive n (some i) (update pc i p)
  Exclusive-lock free lt inside = record {
    held = λ j h. elim (update-cases pc i p j) [
      | inl (same, u) ↦ cc
      | inr (other, u) ↦ (let q : owner ≡ some j = e.held j (rw (u) at h) in cc)
    ];
    holder = λ j h. elim (update-cases pc i p j) [
      | inl (same, u) ↦ cc
      | inr (other, u) ↦ absurd (other cc)
    ];
    within = λ j h. (let q : i ≡ j = cc in rw (q) at lt);
  }

  pub Exclusive-stay :
      in_critical (pc i) ≡ true → in_critical p ≡ true → Exclusive n owner (update pc i p)
  Exclusive-stay before inside = record {
    held = λ j h. elim (update-cases pc i p j) [
      | inl (same, u) ↦ (let q : in_critical (pc j) ≡ true = cc in e.held j q)
      | inr (other, u) ↦ e.held j (rw (u) at h)
    ];
    holder = λ j h. elim (update-cases pc i p j) [
      | inl (same, u) ↦ cc
      | inr (other, u) ↦ (let q : in_critical (pc j) ≡ true = e.holder j h in cc)
    ];
    within = e.within;
  }

  pub Exclusive-unlock :
      in_critical (pc i) ≡ true → in_critical p ≡ false → Exclusive n none (update pc i p)
  Exclusive-unlock before outside = record {
    held = λ j h. elim (update-cases pc i p j) [
      | inl (same, u) ↦ cc
      | inr (other, u) ↦
          (let q : in_critical (pc j) ≡ true = rw (u) at h in
            let r : owner ≡ some j = e.held j q in
            let t : owner ≡ some i = e.held i before in absurd (other cc))
    ];
    holder = λ j h. cc;
    within = λ j h. cc;
  }

module _ {S : Type 0} (shared : S) (pc : ℕ → Pc S) (fresh : Fresh shared pc) (i : ℕ) where
  Fresh-update :
      (p : Pc S)
      → ((c : Call) (cs : List Call) (v : S) → p ≡ loaded c cs v → v ≡ shared)
      → Fresh shared (update pc i p)
  Fresh-update p h j c cs v q = elim (update-cases pc i p j) [
    | inl (same, u) ↦ h c cs v (sym u ∙ q)
    | inr (other, u) ↦ fresh j c cs v (sym u ∙ q)
  ]

-- A thread that writes is the only one that has read.
Fresh-store :
    {S : Type 0} (n : ℕ) (owner : Option ℕ) (pc : ℕ → Pc S)
    → Exclusive n owner pc
    → (i : ℕ) → in_critical (pc i) ≡ true
    → (p : Pc S) → ((c : Call) (cs : List Call) (v : S) → p ≢ loaded c cs v)
    → (shared : S) → Fresh shared (update pc i p)
Fresh-store n owner pc e i inside p h shared j c cs v q = elim (update-cases pc i p j) [
  | inl (same, u) ↦ absurd (h c cs v (sym u ∙ q))
  | inr (other, u) ↦
      (let w : pc j ≡ loaded c cs v = sym u ∙ q in
        let critical : in_critical (pc j) ≡ true = rw (w) refl in
        let t : owner ≡ some j = e.held j critical in
        let t' : owner ≡ some i = e.held i inside in absurd (other cc))
]

-- The calls that a thread has still to make.
abbrev pub pending : {S : Type 0} → Pc S → List Call
pending (ready cs) = cs
pending (locked c cs) = c ∷ cs
pending (loaded c cs v) = c ∷ cs
pending (stored cs) = cs
pending (crashed cs) = cs

-- The calls of the log, the first of the log last, before those that follow.
unfoldable pub behind : ℕ → List Entry → List Call → List Call
behind i [] cs = cs
behind i (e ∷ es) cs = behind i es (ite (ℕ_discrete e.thread i) (e.call ∷ cs) cs)

module _ {S : Type 0} (pc : ℕ → Pc S) (i : ℕ) (p : Pc S) (j : ℕ) where
  pending-update : pending p ≡ pending (pc i) → pending (update pc i p j) ≡ pending (pc j)
  pending-update e = elim (update-cases pc i p j) [
    | inl (same, u) ↦ (let q : pending (pc i) ≡ pending (pc j) = rw (same) refl in rw (u) (e ∙ q))
    | inr (other, u) ↦ rw (u) refl
  ]

  pending-made :
      (c : Call)
      → pending (pc i) ≡ c ∷ pending p
      → ite (ℕ_discrete i j) (c ∷ pending (update pc i p j)) (pending (update pc i p j))
        ≡ pending (pc j)
  pending-made c e =
      let rest = pending (update pc i p j) in
      elim (update-cases pc i p j) [
        | inl (same, u) ↦ elim (update-cases (λ k. rest) i (c ∷ rest) j) [
          | inl (same', w) ↦
              (let q : pending (pc i) ≡ pending (pc j) = rw (same) refl in
                let t : rest ≡ pending p = rw (u) refl in w ∙ ap (λ cs. c ∷ cs) t ∙ sym e ∙ q)
          | inr (other, w) ↦ absurd (other same)
        ]
        | inr (other, u) ↦ elim (update-cases (λ k. rest) i (c ∷ rest) j) [
          | inl (same, w) ↦ absurd (other same)
          | inr (other', w) ↦ w ∙ rw (u) refl
        ]
      ]

module _ {S : Type 0} (r : Recorder S) (n : ℕ) (v : S) (program : ℕ → List Call) where
  pub record Inv (s : System S) : Type 0 where
    pub exclusive : Exclusive n s.owner s.pc
    pub fresh : Fresh s.shared s.pc
    pub order : (i : ℕ) → behind i s.log (pending (s.pc i)) ≡ program i
    pub replayed : replay r (map (λ e. e.call) s.log) v ≡ (s.shared, map (λ e. e.result) s.log)

  -- A step that makes no call.
  pub Inv-quiet :
      (s : System S)
      → Inv s
      → (i : ℕ) (p : Pc S) (owner : Option ℕ) → pending p ≡ pending (s.pc i)
      → ((c : Call) (cs : List Call) (u : S) → p ≡ loaded c cs u → u ≡ s.shared)
      → Exclusive n owner (update s.pc i p)
      → Inv (record s { owner = owner; pc = update s.pc i p })
  Inv-quiet s inv i p owner e h exclusive = record {
    exclusive = exclusive;
    fresh = Fresh-update s.shared s.pc inv.fresh i p h;
    order = λ j. rw (pending-update s.pc i p j e) (inv.order j);
    replayed = inv.replayed;
  }

  -- A step that makes a call on the state that it has read.
  pub Inv-made :
      (s : System S)
      → Inv s
      → (i : ℕ) (c : Call) (cs : List Call) (u : S) (p : Pc S) → s.pc i ≡ loaded c cs u
      → pending p ≡ cs
      → in_critical p ≡ true
      → ((d : Call) (ds : List Call) (w : S) → p ≢ loaded d ds w)
      → Inv (record {
        shared = (run_call r c u).0;
        owner = s.owner;
        pc = update s.pc i p;
        log = record { thread = i; call = c; result = (run_call r c u).1 } ∷ s.log;
      })
  unfolding behind replay
  Inv-made s inv i c cs u p at_call left inside away =
      let critical : in_critical (s.pc i) ≡ true = rw (at_call) refl in
      let todo : pending (s.pc i) ≡ c ∷ pending p = rw (at_call, left) refl in
      let seen : u ≡ s.shared = inv.fresh i c cs u at_call in
      record {
        exclusive = Exclusive-stay n s.owner s.pc inv.exclusive i p critical inside;
        fresh = Fresh-store n s.owner s.pc inv.exclusive i critical p away (run_call r c u).0;
        order = λ j. rw (pending-made s.pc i p j c todo) (inv.order j);
        replayed = rw (inv.replayed, seen) refl;
      }
