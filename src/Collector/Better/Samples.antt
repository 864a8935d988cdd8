-- ===== src/Collector/Better/Samples.antt =====
-- The number of samples that Info of a betterCollector (collector_better.go) reports.
use ftdc.Prelude.{ℕ, ◌+◌, ◌≡◌, refl, Option, none, some, arith, Option-cases, inl, inr}
use ftdc.Result.{Error}
use ftdc.Bson.{Document}
use ftdc.Metrics.Extract.{ExtractedMetrics}
use ftdc.Collector.Better.{BetterCollector, info, add_reference, add_sample, add_next, add}

-- What a call that ends with the error adds to the number of samples.
unfoldable pub counted : Option Error → ℕ
counted none = 1
counted (some _) = 0

add_sample-counted :
    (fs : ℕ → ℕ → ℕ) (m : ExtractedMetrics) (c : BetterCollector)
    → ((add_sample fs m c).0.num_samples ≡ c.num_samples + counted (add_sample fs m c).1)
      × ((add_sample fs m c).0.reference ≡ c.reference)
      × ((add_sample fs m c).0.max_deltas ≡ c.max_deltas)
unfolding add_sample counted
add_sample-counted fs m c = ground arith

add_next-counted :
    (fs : ℕ → ℕ → ℕ) (m : ExtractedMetrics) (c : BetterCollector)
    → ((add_next fs m c).0.num_samples ≡ c.num_samples + counted (add_next fs m c).1)
      × ((add_next fs m c).0.reference ≡ c.reference)
      × ((add_next fs m c).0.max_deltas ≡ c.max_deltas)
unfolding add_next counted
add_next-counted fs m c = ground (arith, add_sample-counted fs m c)

-- Info of a betterCollector counts one sample more behind an Add that returns nil, and as many
-- behind one that fails.
pub info-add :
    (fs : ℕ → ℕ → ℕ) (now : ℕ) (doc : Document) (c : BetterCollector)
    → (info (add fs now doc c).0).sample_count
      ≡ (info c).sample_count + counted (add fs now doc c).1
unfolding info add add_reference counted
info-add fs now doc c = elim (Option-cases c.reference) [
  | inl e ↦ rw (e, add) (omega arith)
  | inr (r, e) ↦ rw (e, add) (ground (arith, add_next-counted fs _ c))
]

pub max_deltas-add :
    (fs : ℕ → ℕ → ℕ) (now : ℕ) (doc : Document) (c : BetterCollector)
    → (add fs now doc c).0.max_deltas ≡ c.max_deltas
unfolding add add_reference
max_deltas-add fs now doc c = elim (Option-cases c.reference) [
  | inl e ↦ rw (e, add) refl
  | inr (r, e) ↦ rw (e, add) (add_next-counted fs _ c).2
]
