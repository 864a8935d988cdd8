-- ===== src/Chunk/Matrix.antt =====
-- bson_matrix.go, and export, exportMatrix and getSeries of iterator_matrix.go: the metrics of a
-- chunk, each with the array of all its values.
pub mod Export
use ftdc.Prelude.{
  ℕ, zero, suc, ◌+◌, ◌==◌, if◌then◌else◌, List, [], ◌∷◌, map, Option, none, some, true, false,
  length, get_elem?,
}
use ftdc.Result.{Result, ok, err, ◌>>=◌, eof, invalid_data_type}
use ftdc.Bson.{Text, BsonType, Value, Document, Array, end, element, nil, cons}
use ftdc.Metrics.Convert.{low32}
use ftdc.Metrics.Flatten.{Metric, metric_key}
use ftdc.Metrics.Restore.{or_panic}
use ftdc.Read.{Chunk}

-- `array.AppendInterface(...)` for each value.
pub array_of : List Value → Array
array_of [] = nil
array_of (v ∷ vs) = cons v (array_of vs)

-- The values of a timestamp, with those of the metric behind it. It is a panic if these are fewer.
unfoldable pub timestamps : List ℕ → List ℕ → Result (List Value)
timestamps [] js = ok []
timestamps (t ∷ ts) [] = or_panic none
timestamps (t ∷ ts) (j ∷ js) = do
  rest ← timestamps ts js
  ok (Value.timestamp (low32 t) (low32 j) ∷ rest)

-- The switch of rehydrateMatrix, of the metric at `sample`: the values and the index behind it.
unfoldable pub rehydrate_values : BsonType → List Metric → ℕ → List ℕ → Result (List Value × ℕ)
unfolding timestamps low32
rehydrate_values BsonType.boolean metrics sample ps =
    ok (map (λ p. Value.boolean (if p == 0 then false else true)) ps, sample + 1)
rehydrate_values BsonType.double metrics sample ps = ok (map Value.double ps, sample + 1)
rehydrate_values BsonType.int64 metrics sample ps = ok (map Value.int64 ps, sample + 1)
rehydrate_values BsonType.int32 metrics sample ps =
    ok (map (λ p. Value.int32 (low32 p)) ps, sample + 1)
rehydrate_values BsonType.date_time metrics sample ps = ok (map Value.date_time ps, sample + 1)
rehydrate_values BsonType.timestamp metrics sample ps = elim ps [
  | [] ↦ ok ([], sample + 2)
  | p ∷ rest ↦ (do
    next ← or_panic (get_elem? metrics (sample + 1))
    vs ← timestamps (p ∷ rest) next.values
    ok (vs, sample + 2))
]
rehydrate_values _ metrics sample ps = err invalid_data_type

-- rehydrateMatrix, behind the test for the end.
unfoldable pub rehydrate_matrix : List Metric → ℕ → Result (Text × Value × ℕ)
unfolding rehydrate_values metric_key array_of
rehydrate_matrix metrics sample = elim (get_elem? metrics sample) [
  | none ↦ err eof
  | some m ↦ (do
    (vs, next) ← rehydrate_values m.original_type metrics sample m.values
    ok (metric_key m, Value.array (array_of vs), next))
]

-- The loop of export, for the rounds left: the elements that are appended.
unfoldable pub export_loop : List Metric → ℕ → ℕ → Result Document
unfolding rehydrate_matrix
export_loop metrics zero sample = ok end
export_loop metrics (suc rounds) sample = elim (rehydrate_matrix metrics sample) [
  | err eof ↦ ok end
  | err e ↦ err e
  | ok (key, v, next) ↦ (do doc ← export_loop metrics rounds next; ok (element key v doc))
]

unfoldable pub export : Chunk → Result Document
unfolding export_loop
export c = export_loop c.metrics (length c.metrics) 0

-- The switch of getSeries; `none` is nil.
unfoldable pub series_values : BsonType → List ℕ → Option (List Value)
unfolding low32
series_values BsonType.int64 ps = some (map Value.int64 ps)
series_values BsonType.timestamp ps = some (map Value.int64 ps)
series_values BsonType.int32 ps = some (map (λ p. Value.int32 (low32 p)) ps)
series_values BsonType.boolean ps =
    some (map (λ p. Value.boolean (if p == 0 then false else true)) ps)
series_values BsonType.double ps = some (map Value.double ps)
series_values BsonType.date_time ps = some (map Value.date_time ps)
series_values _ ps = none

unfoldable pub get_series : Metric → Option (List Value)
unfolding series_values
get_series m = series_values m.original_type m.values

-- exportMatrix: the writes to the map, in order. A later write of a key replaces an earlier one.
unfoldable pub export_matrix : Chunk → List (Text × Option (List Value))
unfolding get_series metric_key
export_matrix c = map (λ m. (metric_key m, get_series m)) c.metrics
