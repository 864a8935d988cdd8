-- ===== src/Collector/Sample/Interval.antt =====
-- How often a samplingCollector (collector_sample.go) passes a sample on.
use ftdc.Prelude.{
  ℕ, ◌-◌, ◌≤◌, ◌≡◌, refl, List, [], ◌∷◌, Option, none, some, false, ltb, arith, Bool-cases, inl,
  inr,
}
use ftdc.Input.{Input}
use ftdc.Collector.Interface.{Collector}
use ftdc.Collector.Sample.{SamplingCollector, new_sampling_collector, since, add}

-- The readings of the clock at which a collector was handed a sample, the latest first.
abbrev pub Log : Type 0
Log = List ℕ

-- A collector that notes when it is handed a sample.
unfoldable pub logged : {S : Type 0} → Collector S → Collector (Log × S)
logged inner = record {
  set_metadata = λ input (log, s). let (s', e) = inner.set_metadata input s in ((log, s'), e);
  add = λ now input (log, s). let (s', e) = inner.add now input s in ((now ∷ log, s'), e);
  flushable = record {
    resolve = λ (log, s). inner.resolve s;
    reset = λ (log, s). (log, inner.reset s);
    info = λ (log, s). inner.info s;
  };
}

abbrev pub Spaced : ℕ → Log → Type 0
Spaced interval [] = Unit
Spaced interval (t ∷ []) = Unit
Spaced interval (t ∷ (s ∷ log)) = (interval ≤ t - s) × Spaced interval (s ∷ log)

abbrev latest : Log → Option ℕ
latest [] = none
latest (t ∷ log) = some t

record Kept {S : Type 0} (interval : ℕ) (c : SamplingCollector (Log × S)) : Type 0 where
  every : c.minimum_interval ≡ interval
  last : c.last_collection ≡ latest c.collector.0
  spaced : Spaced interval c.collector.0

module _ {S : Type 0} (inner : Collector S) where
  -- Add for each input, at the clock's reading beside it.
  unfoldable pub add_each :
      List (ℕ × Input) → SamplingCollector (Log × S) → SamplingCollector (Log × S)
  unfolding add logged
  add_each [] c = c
  add_each ((now, input) ∷ calls) c = add_each calls (add (logged inner) now input c).0

  Spaced-more :
      (now interval : ℕ) (log : Log)
      → ltb (since now (latest log)) interval ≡ false
      → Spaced interval log
      → Spaced interval (now ∷ log)
  unfolding since
  Spaced-more now interval [] e h = tt
  Spaced-more now interval (t ∷ log) e h = (ground (arith, e), h)

  add-Kept :
      (interval now : ℕ) (input : Input) (c : SamplingCollector (Log × S))
      → Kept interval c
      → Kept interval (add (logged inner) now input c).0
  unfolding add logged
  add-Kept interval now input c k =
      elim (Bool-cases (ltb (since now c.last_collection) c.minimum_interval)) [
        | inl e ↦ rw (e, add) k
        | inr e ↦
            let e' : ltb (since now (latest c.collector.0)) interval ≡ false =
              rw (k.last, k.every) at e in
            rw (e, add)
              (record {
                every = k.every;
                last = refl;
                spaced = Spaced-more now interval c.collector.0 e' k.spaced;
              })
      ]

  all-Kept :
      (interval : ℕ) (calls : List (ℕ × Input)) (c : SamplingCollector (Log × S))
      → Kept interval c
      → Kept interval (add_each calls c)
  unfolding add_each
  all-Kept interval [] c k = k
  all-Kept interval ((now, input) ∷ calls) c k =
      all-Kept interval calls (add (logged inner) now input c).0 (add-Kept interval now input c k)

  -- However often and when Add of a new samplingCollector is called, the collector that it wraps is
  -- handed samples at times that are the minimum interval apart at least.
  pub add_each-Spaced :
      (interval : ℕ) (calls : List (ℕ × Input)) (s : S)
      → Spaced interval (add_each calls (new_sampling_collector interval ([], s))).collector.0
  unfolding new_sampling_collector
  add_each-Spaced interval calls s =
      (all-Kept interval calls (new_sampling_collector interval ([], s))
        (record { every = refl; last = refl; spaced = tt })).spaced
