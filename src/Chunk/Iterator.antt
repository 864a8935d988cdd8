-- ===== src/Chunk/Iterator.antt =====
-- iterator_combined.go and iterator_matrix.go: the workers that send the documents of all chunks.
-- `chunks` are those that ChunkIterator.Next hands out, `failure` is its Err.
pub mod Samples
pub mod RoundTrip
use ftdc.Bson.Decode.{unmarshal_bson}
use ftdc.Prelude.{ℕ, List, [], ◌∷◌, ◌++◌, map, Option, none, some, Bool, true, false, if◌then◌else◌}
use ftdc.Result.{Error, Result, ok, err, ◌>>=◌}
use ftdc.Bson.{Text, Value, Document}
use ftdc.Metrics.Flatten.{metric_key}
use ftdc.Codec.{Codec}
use ftdc.Read.{Chunk, caught, read_stream}
use ftdc.Chunk.{stream_documents, stream_flattened_documents}
use ftdc.Chunk.Matrix.{export, export_matrix}

-- What a worker has done: the iterator's metadata, what went into its pipe, and its catcher.
pub record IteratorState : Type 0 where
  pub metadata : Option Document
  pub sent : List Document
  pub errors : List Error

abbrev pub new_iterator : IteratorState
new_iterator = record { metadata = none; sent = []; errors = [] }

-- `chunk.Iterator(ctx)` or `chunk.StructuredIterator(ctx)`: the documents that it gives.
unfoldable pub sample_documents : Bool → Chunk → Result (List Document)
unfolding stream_documents stream_flattened_documents
sample_documents flatten c = if flatten then stream_flattened_documents c else stream_documents c

-- `if iter.metadata != nil { iter.metadata = chunk.GetMetadata() }`
unfoldable pub update_metadata : Chunk → Option Document → Option Document
update_metadata c none = none
update_metadata c (some _) = c.metadata

-- The worker of combinedIterator. The Err of a sampleIterator is nil.
unfoldable pub combined_worker :
    Bool → Option Error → List Chunk → IteratorState → Result IteratorState
unfolding sample_documents update_metadata
combined_worker flatten failure [] iter =
    ok (record iter { errors = iter.errors ++ caught failure [] })
combined_worker flatten failure (c ∷ cs) iter = do
  docs ← sample_documents flatten c
  combined_worker flatten failure cs
      (record iter { metadata = update_metadata c iter.metadata; sent = iter.sent ++ docs })

module _ (codec : Codec) (marshal_map : List (Text × Option (List Value)) → Result (List ℕ)) where
  -- The document of a chunk; `marshal_map` is bson.Marshal on the map.
  unfoldable pub matrix_document : Bool → Chunk → Result Document
  unfolding export export_matrix
  matrix_document reflect_ c =
      if reflect_
      then (do payload ← marshal_map (export_matrix c); unmarshal_bson payload)
      else export c

  -- The worker of matrixIterator.
  unfoldable pub matrix_worker : Bool → Option Error → List Chunk → IteratorState → IteratorState
  unfolding matrix_document
  matrix_worker reflect_ failure [] iter = record iter { errors = iter.errors ++ caught failure [] }
  matrix_worker reflect_ failure (c ∷ cs) iter =
      let next = λ (doc : Document).
        matrix_worker reflect_ failure cs (record iter { sent = iter.sent ++ (doc ∷ []) }) in
      elim (matrix_document reflect_ c) [
        | err e ↦ record iter { errors = iter.errors ++ (e ∷ caught failure []) }
        | ok doc ↦ next doc
      ]

-- iterator.go. `resolved` is the Resolve of the catcher, which makes one error of all.
unfoldable pub read_metrics :
    Bool → (List Error → Option Error) → Codec → List ℕ → Result IteratorState
read_metrics flatten resolved codec bytes =
    let (chunks, errors) = read_stream codec bytes in
    combined_worker flatten (resolved errors) chunks new_iterator

-- ReadStructuredMetrics
unfoldable pub read_structured_metrics :
    (List Error → Option Error) → Codec → List ℕ → Result IteratorState
unfolding read_metrics
read_structured_metrics = read_metrics false

module _ (codec : Codec) (marshal_map : List (Text × Option (List Value)) → Result (List ℕ))
    (resolved : List Error → Option Error) where
  -- ReadMatrix
  unfoldable pub read_matrix : List ℕ → IteratorState
  unfolding read_stream matrix_worker
  read_matrix bytes =
      let (chunks, errors) = read_stream codec bytes in
      matrix_worker codec marshal_map false (resolved errors) chunks new_iterator

  -- ReadSeries
  unfoldable pub read_series : List ℕ → IteratorState
  unfolding read_stream matrix_worker
  read_series bytes =
      let (chunks, errors) = read_stream codec bytes in
      matrix_worker codec marshal_map true (resolved errors) chunks new_iterator

-- getFieldNames of csv.go: the first row of a CSV file.
unfoldable pub get_field_names : Chunk → List Text
unfolding metric_key
get_field_names c = map metric_key c.metrics
