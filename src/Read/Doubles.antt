-- ===== src/Read/Doubles.antt =====
-- The samples of a double in a chunk (read.go, and undeltaFloats in util.go).
use ftdc.Prelude.{
  ℕ, zero, suc, ◌+◌, ◌<◌, ◌≡◌, sym, ap, ◌∙◌, List, some, true, arith, get_elem?, get_or, tabulate,
}
use ftdc.Result.{ok, ok_injective}
use ftdc.Bson.{BsonType, same_type, Value}
use ftdc.Series.{get_offset, undelta_floats}
use ftdc.Series.Rows.{row}
use ftdc.Metrics.Extract.{extract_delta}
use ftdc.Metrics.Flatten.{Metric}
use ftdc.Metrics.Restore.{value_at}
use ftdc.Collector.Better.{BetterCollector}
use ftdc.Collector.Better.History.{Follows}
use ftdc.Read.{expand}
use ftdc.Read.Payload.{series_of}
use ftdc.Read.Series.{get_elem?-with_series}

get_elem?-tabulate :
    (f : ℕ → ℕ) (k n j : ℕ) → j < n → get_elem? (tabulate f k n) j ≡ some (f (k + j))
get_elem?-tabulate f k zero j h = absurd (omega arith)
get_elem?-tabulate f k (suc n) zero h = ap (λ i. some (f i)) (omega arith)
get_elem?-tabulate f k (suc n) (suc j) h =
    get_elem?-tabulate f (k + 1) n j (omega arith) ∙ ap (λ i. some (f i)) (omega arith)

-- For a collector that has seen the samples of a history: a sample of a double behind the first, in
-- the chunk, is the difference between the double and the one before it, and not the double that
-- was collected.
pub value_at-double :
    (fs : ℕ → ℕ → ℕ) (hist : ℕ → List Value) (n : ℕ) (c : BetterCollector) (ms : List Metric)
    (j i v p : ℕ) (m : Metric)
    → Follows fs hist n c
    → j < n
    → get_elem? ms i ≡ some m
    → same_type m.original_type BsonType.double ≡ true
    → get_elem? (hist (suc j)) i ≡ some (Value.double v)
    → get_elem? (hist j) i ≡ some (Value.double p)
    → value_at (suc j) (series_of c ms) i ≡ ok (fs v p)
unfolding value_at row expand extract_delta undelta_floats
value_at-double fs hist n c ms j i v p m f below found double now before =
    let e : 0 + i ≡ i = omega arith in
    let z : 0 + j ≡ j = omega arith in
    let stored : fs v p ≡ get_or c.deltas (get_offset c.max_deltas j i) 0 =
      ok_injective (f.differences j i (Value.double v) (Value.double p) below now before) in
    let series =
      get_elem?-tabulate (λ k. get_or c.deltas (get_offset c.max_deltas k i) 0) 0 c.num_samples j
        (omega (arith, f.counted)) in
    rw (rw e at (get_elem?-with_series (row c.deltas c.max_deltas c.num_samples) 0 ms i m found))
      (rw (double, series) (rw z (ap (λ (x : ℕ). ok x) (sym stored))))
