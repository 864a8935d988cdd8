-- ===== src/Chunk/Matrix/Export.antt =====
-- export of iterator_matrix.go beside the flattened documents of iterator_sample.go.
use ftdc.Prelude.{
  ℕ, suc, ◌+◌, ◌≡◌, refl, List, [], ◌∷◌, map, some, Bool, true, false, arith, length, get_elem?,
}
use ftdc.Result.{ok}
use ftdc.Word.{All}
use ftdc.Bson.{BsonType, Value, Document, end, element}
use ftdc.Metrics.Flatten.{Metric, metric_key}
use ftdc.Metrics.Restore.{restore_flat}
use ftdc.Read.{Chunk}
use ftdc.Chunk.Matrix.{array_of, rehydrate_values, rehydrate_matrix, export_loop, export}

-- The types with one metric for each value.
abbrev pub is_plain : BsonType → Bool
is_plain BsonType.boolean = true
is_plain BsonType.double = true
is_plain BsonType.int64 = true
is_plain BsonType.int32 = true
is_plain BsonType.date_time = true
is_plain _ = false

-- For each metric, its key and the values that the flattened documents have under it.
abbrev pub columns : List Metric → Document
columns [] = end
columns (m ∷ ms) =
    element (metric_key m) (Value.array (array_of (map (restore_flat m.original_type) m.values)))
      (columns ms)

plain_values :
    (t : BsonType) (metrics : List Metric) (k : ℕ) (ps : List ℕ)
    → is_plain t ≡ true
    → rehydrate_values t metrics k ps ≡ ok (map (restore_flat t) ps, k + 1)
unfolding rehydrate_values restore_flat
plain_values BsonType.boolean metrics k ps h = refl
plain_values BsonType.double metrics k ps h = refl
plain_values BsonType.int64 metrics k ps h = refl
plain_values BsonType.int32 metrics k ps h = refl
plain_values BsonType.date_time metrics k ps h = refl
plain_values _ metrics k ps h = cc

column :
    (metrics : List Metric) (k : ℕ) (m : Metric)
    → get_elem? metrics k ≡ some m
    → is_plain m.original_type ≡ true
    → rehydrate_matrix metrics k
      ≡ ok (
        metric_key m,
        Value.array (array_of (map (restore_flat m.original_type) m.values)),
        k + 1,
      )
unfolding rehydrate_matrix
column metrics k m found plain =
    rw (found, rehydrate_matrix) (rw (plain_values m.original_type metrics k m.values plain) refl)

loop_columns :
    (metrics ms : List Metric) (k : ℕ)
    → ((i : ℕ) (m : Metric) → get_elem? ms i ≡ some m → get_elem? metrics (k + i) ≡ some m)
    → All (λ m. is_plain m.original_type ≡ true) ms
    → export_loop metrics (length ms) k ≡ ok (columns ms)
unfolding export_loop
loop_columns metrics [] k h p = refl
loop_columns metrics (m ∷ ms) k h p =
    let e : k + 0 ≡ k = omega arith in
    let rest =
      loop_columns metrics ms (k + 1)
        (λ i x g. let e' : k + suc i ≡ k + 1 + i = omega arith in rw e' at (h (suc i) x g)) p.1 in
    rw (column metrics k m (rw e at (h 0 m refl)) p.0, export_loop) (rw rest refl)

-- export of a chunk without timestamps gives a document with, for each metric, its key and the
-- array of the values that restoreFlat makes of the series.
pub export-columns :
    (c : Chunk)
    → All (λ m. is_plain m.original_type ≡ true) c.metrics
    → export c ≡ ok (columns c.metrics)
unfolding export
export-columns c p =
    loop_columns c.metrics c.metrics 0 (λ i m h. let e : 0 + i ≡ i = omega arith in rw e h) p
