-- ===== src/Read/Documents.antt =====
-- The history of the documents that a collector is given, and the metrics of the first of them.
use ftdc.Prelude.{ℕ, zero, suc, ◌+◌, ◌≡◌, List, [], ◌∷◌, map, arith, get_or}
use ftdc.Word.{All}
use ftdc.Bson.{BsonType, Value, Document}
use ftdc.Metrics.Extract.{extract_from_document}
use ftdc.Metrics.Extract.Kinds.{FitAll, is_double}
use ftdc.Metrics.Exact.{IsInt}
use ftdc.Metrics.Flatten.{Metric}
use ftdc.Metrics.Restore.RoundTrip.{number}
use ftdc.Collector.Better.History.{Continues}
use ftdc.Read.Series.{Starts}

-- The values of sample `j`; those of the reference behind the last.
abbrev pub values_at : ℕ × Document → List (ℕ × Document) → ℕ → List Value
values_at x xs j = let (now, doc) = get_or (x ∷ xs) j x in (extract_from_document now doc).values

pub get_or-All {ℓ} :
    (P : ℕ × Document → Type ℓ) (xs : List (ℕ × Document)) (j : ℕ) (d : ℕ × Document)
    → All P xs
    → P d
    → P (get_or xs j d)
get_or-All P [] j d a p = p
get_or-All P (x ∷ xs) zero d a p = a.0
get_or-All P (x ∷ xs) (suc j) d a p = get_or-All P xs j d a.1 p

pub Continues-from :
    (hist : ℕ → List Value) (d : ℕ × Document) (docs : List (ℕ × Document)) (n : ℕ)
    → ((i : ℕ)
        → (extract_from_document (get_or docs i d).0 (get_or docs i d).1).values ≡ hist (suc n + i))
    → Continues hist n docs
Continues-from hist d [] n h = tt
Continues-from hist d ((now, doc) ∷ docs) n h =
    let e : suc n + 0 ≡ suc n = omega arith in
    (
      rw e at (h 0),
      Continues-from hist d docs (suc n)
          (λ i. let e' : suc n + suc i ≡ suc (suc n) + i = omega arith in rw e' at (h (suc i))),
    )

pub Starts-from :
    (ms : List Metric) (vs : List Value) (ts : List BsonType)
    → map Metric.starting_value ms ≡ map number vs
    → map Metric.original_type ms ≡ ts
    → FitAll vs ts
    → All IsInt vs
    → Starts ms vs
unfolding is_double
Starts-from [] [] ts p q f i = tt
Starts-from [] (v ∷ vs) ts p q f i = cc
Starts-from (m ∷ ms) [] ts p q f i = cc
Starts-from (m ∷ ms) (v ∷ vs) [] p q f i = cc
Starts-from (m ∷ ms) (Value.int64 v ∷ vs) (t ∷ ts) p q (f, fs) i =
    let e : m.original_type ≡ t = cc in
    let p' : map Metric.starting_value ms ≡ map number vs = cc in
    let q' : map Metric.original_type ms ≡ ts = cc in
    (cc, rw e f, Starts-from ms vs ts p' q' fs i.1)
Starts-from (m ∷ ms) (v ∷ vs) (t ∷ ts) p q f i = absurd i.0
