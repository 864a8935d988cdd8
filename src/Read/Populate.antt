-- ===== src/Read/Populate.antt =====
-- The loop of readChunks over the metrics (read.go), on what getPayload wrote.
use ftdc.Prelude.{
  ℕ, zero, suc, ◌+◌, ◌*◌, ◌<◌, ◌≡◌, ◌∙◌, List, [], ◌∷◌, ◌++◌, arith, length, length-append,
  concat_from,
}
use ftdc.Result.{ok}
use ftdc.Word.{All-append, word, IsWord, All}
use ftdc.Series.{Tape, read_deltas}
use ftdc.Series.RoundTrip.{tape, encoding, read_deltas-append, read_deltas-encoding_start}
use ftdc.Metrics.Flatten.{Metric}
use ftdc.Read.{expand, populate}

-- The metrics with their series: the deltas of the first are `f i`, of the next `f (i + 1)`.
unfoldable pub with_series : (ℕ → List ℕ) → ℕ → List Metric → List Metric
unfolding expand
with_series f i [] = []
with_series f i (m ∷ ms) =
    record m { values = expand m.original_type m.starting_value (f i) } ∷ with_series f (i + 1) ms

pub length-concat_from :
    (f : ℕ → List ℕ) (n : ℕ)
    → ((i : ℕ) → length (f i) ≡ n)
    → (i k : ℕ) → length (concat_from f i k) ≡ k * n
length-concat_from f n each i zero = omega arith
length-concat_from f n each i (suc k) =
    length-append (f i) _ ∙ omega (arith, each i, length-concat_from f n each (i + 1) k)

pub All-concat_from :
    (f : ℕ → List ℕ) → ((i : ℕ) → All IsWord (f i)) → (i k : ℕ) → All IsWord (concat_from f i k)
All-concat_from f each i zero = tt
All-concat_from f each i (suc k) =
    All-append IsWord (f i) _ (each i) (All-concat_from f each (i + 1) k)

populate-rows :
    (f : ℕ → List ℕ) (n : ℕ)
    → ((i : ℕ) → length (f i) ≡ n)
    → (i : ℕ) (ms : List Metric) (s : Tape) {t : Tape}
    → read_deltas (length (concat_from f i (length ms))) s ≡ ok (concat_from f i (length ms), t)
    → populate n ms s ≡ ok (with_series f i ms, t)
unfolding populate with_series read_deltas
populate-rows f n each i [] s h = ground arith
populate-rows f n each i (m ∷ ms) s h =
    let (s', p, q) = read_deltas-append (f i) (concat_from f (i + 1) (length ms)) s h in
    let p' = rw (each i) at p in rw p' (rw (populate-rows f n each (i + 1) ms s' q))

-- readChunks' loop gives each metric the series of its row.
pub populate-encoding :
    (f : ℕ → List ℕ) (n : ℕ) (ms : List Metric) (rest : List ℕ)
    → ((i : ℕ) → length (f i) ≡ n)
    → ((i : ℕ) → All IsWord (f i))
    → length ms * n < word
    → populate n ms (tape 0 (encoding 0 (concat_from f 0 (length ms)) ++ rest))
      ≡ ok (with_series f 0 ms, tape 0 rest)
populate-encoding f n ms rest each words small = populate-rows f n each 0 ms _ (
    read_deltas-encoding_start (concat_from f 0 (length ms)) rest
      (All-concat_from f words 0 (length ms))
      (omega (arith, length-concat_from f n each 0 (length ms))))
