-- ===== src/Read/Series.antt =====
-- The values of a chunk's series (read.go, util.go) where the collector's deltas are the
-- differences of integers.
use ftdc.Prelude.{
  ℕ, zero, suc, ◌+◌, ◌≤◌, ◌<◌, ◌≡◌, refl, sym, ap, ◌∙◌, List, [], ◌∷◌, some, false, arith, length,
  get_or, get_elem?, tabulate,
}
use mathlib.Core.Option.{some-injective}
use ftdc.Result.{ok, ok_injective}
use ftdc.Word.{IsWord, All, add64, sub64, add64-sub64}
use ftdc.Bson.{BsonType, same_type, Value}
use ftdc.Series.{undelta, get_offset}
use ftdc.Series.Rows.{row}
use ftdc.Metrics.Extract.{extract_delta}
use ftdc.Metrics.Exact.{IsInt}
use ftdc.Metrics.Flatten.{Metric}
use ftdc.Metrics.Restore.{value_at}
use ftdc.Metrics.Restore.RoundTrip.{number, HoldsAt}
use ftdc.Read.{expand}
use ftdc.Read.Populate.{with_series}
use ftdc.Read.Payload.{series_of}
use ftdc.Collector.Better.{BetterCollector}
use ftdc.Collector.Better.History.{Follows}

-- undelta, of the differences between the values of `g` from `k` on.
undelta-tabulate :
    (g f : ℕ → ℕ) (n k j : ℕ)
    → ((i : ℕ) → k ≤ i → i ≤ k + n → IsWord (g i))
    → ((i : ℕ) → k ≤ i → i < k + n → f i ≡ sub64 (g (suc i)) (g i))
    → j ≤ n
    → get_elem? (undelta (g k) (tabulate f k n)) j ≡ some (g (k + j))
unfolding undelta
undelta-tabulate g f zero k zero w d h = ap (λ i. some (g i)) (omega arith)
undelta-tabulate g f zero k (suc j) w d h = absurd (omega arith)
undelta-tabulate g f (suc n) k zero w d h = ap (λ i. some (g i)) (omega arith)
undelta-tabulate g f (suc n) k (suc j) w d h =
    let step : add64 (g k) (f k) ≡ g (suc k) = rw (d k (omega arith) (omega arith)) (
      add64-sub64 (g (suc k)) (g k) (w (suc k) (omega arith) (omega arith))
        (w k (omega arith) (omega arith))) in
    let e : suc k ≡ k + 1 = omega arith in
    let e' : k + 1 + j ≡ k + suc j = omega arith in
    rw (step, e)
      (undelta-tabulate g f n (k + 1) j (λ i l u. w i (omega arith) (omega arith))
          (λ i l u. d i (omega arith) (omega arith)) (omega arith)
        ∙ ap (λ i. some (g i)) e')

pub get_elem?-with_series :
    (f : ℕ → List ℕ) (k : ℕ) (ms : List Metric) (i : ℕ) (m : Metric)
    → get_elem? ms i ≡ some m
    → get_elem? (with_series f k ms) i
      ≡ some (record m { values = expand m.original_type m.starting_value (f (k + i)) })
unfolding with_series
get_elem?-with_series f k [] i m h = cc
get_elem?-with_series f k (x ∷ ms) zero m h =
    let e : k + 0 ≡ k = omega arith in let same : x ≡ m = some-injective _ _ h in rw (e, same) refl
get_elem?-with_series f k (x ∷ ms) (suc i) m h =
    let e : k + 1 + i ≡ k + suc i = omega arith in
    rw e at (get_elem?-with_series f (k + 1) ms i m h)

-- Each metric starts with its number, and is no double.
abbrev pub Starts : List Metric → List Value → Type 0
Starts [] [] = Unit
Starts (m ∷ ms) (v ∷ vs) =
    (m.starting_value ≡ number v)
    × (same_type m.original_type BsonType.double ≡ false)
    × Starts ms vs
Starts _ _ = ⊥

Starts-get :
    (ms : List Metric) (vs : List Value) (i : ℕ) (v : Value)
    → Starts ms vs
    → get_elem? vs i ≡ some v
    → (m : Metric) × (get_elem? ms i ≡ some m)
      × (m.starting_value ≡ number v)
      × (same_type m.original_type BsonType.double ≡ false)
Starts-get [] [] i v s h = cc
Starts-get [] (_ ∷ _) i v s h = absurd s
Starts-get (_ ∷ _) [] i v s h = absurd s
Starts-get (m ∷ ms) (w ∷ vs) zero v (p, q, s) h = (m, refl, p ∙ ap number (some-injective _ _ h), q)
Starts-get (m ∷ ms) (w ∷ vs) (suc i) v (p, q, s) h = Starts-get ms vs i v s h

HoldsAt-from :
    (sample : ℕ) (ms : List Metric) (k : ℕ) (vs : List Value)
    → ((i : ℕ) (v : Value) → get_elem? vs i ≡ some v → value_at sample ms (k + i) ≡ ok (number v))
    → HoldsAt sample ms k vs
HoldsAt-from sample ms k [] h = tt
HoldsAt-from sample ms k (v ∷ vs) h =
    let e : k + 0 ≡ k = omega arith in
    (
      rw e at (h 0 v refl),
      HoldsAt-from sample ms (k + 1) vs
          (λ i w g. let e' : k + suc i ≡ k + 1 + i = omega arith in rw e' at (h (suc i) w g)),
    )

All-get :
    (P : Value → Type 0) (vs : List Value) (i : ℕ) (v : Value)
    → All P vs
    → get_elem? vs i ≡ some v
    → P v
All-get P [] i v a h = cc
All-get P (x ∷ vs) zero v a h = rw (some-injective _ _ h) at a.0
All-get P (x ∷ vs) (suc i) v a h = All-get P vs i v a.1 h

get_within :
    (vs ws : List Value) (i : ℕ) (v : Value)
    → length ws ≡ length vs
    → get_elem? vs i ≡ some v
    → get_elem? ws i ≡ some (get_or ws i v)
get_within [] ws i v l h = cc
get_within (x ∷ vs) [] i v l h = absurd (omega arith)
get_within (x ∷ vs) (y ∷ ws) zero v l h = refl
get_within (x ∷ vs) (y ∷ ws) (suc i) v l h = get_within vs ws i v (omega arith) h

number-IsWord : (v : Value) → IsInt v → IsWord (number v)
number-IsWord (Value.int64 n) h = h
number-IsWord v h = absurd h

delta_of_ints :
    (fs : ℕ → ℕ → ℕ) (v p : Value)
    → IsInt v
    → IsInt p
    → extract_delta fs v p ≡ ok (sub64 (number v) (number p))
unfolding extract_delta
delta_of_ints fs (Value.int64 a) (Value.int64 b) h k = refl
delta_of_ints fs (Value.int64 a) p h k = absurd k
delta_of_ints fs v p h k = absurd h

-- The samples of a collector: `n` behind the first, each of the integers `hist j`.
pub record Recorded (fs : ℕ → ℕ → ℕ) (hist : ℕ → List Value) (c : BetterCollector)
    (ms : List Metric) : Type 0 where
  pub follows : (n : ℕ) × Follows fs hist n c
  pub ints : (j : ℕ) → All IsInt (hist j)
  pub sized : (j k : ℕ) → length (hist j) ≡ length (hist k)
  pub starts : Starts ms (hist 0)

-- What comes out of a series is what went in.
value_at-series_of :
    (fs : ℕ → ℕ → ℕ) (hist : ℕ → List Value) (c : BetterCollector) (ms : List Metric)
    → Recorded fs hist c ms
    → (j i : ℕ) (v : Value) → j ≤ c.num_samples
    → get_elem? (hist j) i ≡ some v
    → value_at j (series_of c ms) i ≡ ok (number v)
unfolding value_at row expand
value_at-series_of fs hist c ms rec j i v below h =
    let (n, f) = rec.follows in
    let at : ℕ → Value = λ k. get_or (hist k) i v in
    let got : (k : ℕ) → get_elem? (hist k) i ≡ some (at k) =
      λ k. get_within (hist j) (hist k) i v (rec.sized k j) h in
    let int : (k : ℕ) → IsInt (at k) = λ k. All-get IsInt (hist k) i (at k) (rec.ints k) (got k) in
    let here : at j ≡ v = some-injective _ _ (sym (got j) ∙ h) in
    let (m, found, start, single) = Starts-get ms (hist 0) i (at 0) rec.starts (got 0) in
    let series =
      undelta-tabulate (λ k. number (at k)) (λ k. get_or c.deltas (get_offset c.max_deltas k i) 0)
        c.num_samples 0 j (λ k _ _. number-IsWord (at k) (int k))
        (λ k _ u. ok_injective (
          sym
            (f.differences k i (at (suc k)) (at k) (omega (arith, f.counted)) (got (suc k)) (got k))
          ∙ delta_of_ints fs (at (suc k)) (at k) (int (suc k)) (int k)))
        below in
    let e : 0 + i ≡ i = omega arith in
    rw (rw e at (get_elem?-with_series (row c.deltas c.max_deltas c.num_samples) 0 ms i m found)) (
      rw (single, start, series)
        (let e' : 0 + j ≡ j = omega arith in rw e' (ap (λ (w : Value). ok (number w)) here)))

-- Every sample of the chunk holds its document's values.
pub HoldsAt-series_of :
    (fs : ℕ → ℕ → ℕ) (hist : ℕ → List Value) (c : BetterCollector) (ms : List Metric) (j : ℕ)
    → Recorded fs hist c ms
    → j ≤ c.num_samples
    → HoldsAt j (series_of c ms) 0 (hist j)
HoldsAt-series_of fs hist c ms j rec below = HoldsAt-from j (series_of c ms) 0 (hist j) (λ i v h.
    let e : 0 + i ≡ i = omega arith in rw e (value_at-series_of fs hist c ms rec j i v below h))
