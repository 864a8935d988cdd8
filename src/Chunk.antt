-- ===== src/Chunk.antt =====
-- What is read out of a chunk: iterator_sample.go (the samples as documents), bson_matrix.go and
-- iterator_matrix.go (the series as arrays), iterator_combined.go (the samples of all chunks). A
-- channel is the list of what is sent; the context is not cancelled.
pub mod Matrix
pub mod Iterator
use ftdc.Prelude.{ℕ, zero, suc, ◌+◌, List, [], ◌∷◌}
use ftdc.Result.{Result, ok, ◌>>=◌}
use ftdc.Bson.{Value, Document, end, element}
use ftdc.Metrics.Flatten.{Metric, metric_key}
use ftdc.Metrics.Restore.{or_panic, restore_flat, restore_document}
use ftdc.Prelude.{get_elem?}
use ftdc.Read.{Chunk}

-- The document of one sample, flattened: the loop of streamFlattenedDocuments over the metrics.
unfoldable pub flat_document : ℕ → List Metric → Result Document
unfolding metric_key restore_flat
flat_document i [] = ok end
flat_document i (m ∷ ms) = do
  value ← or_panic (get_elem? m.values i)
  doc ← flat_document i ms
  ok (element (metric_key m) (restore_flat m.original_type value) doc)

-- `for i := 0; i < c.nPoints; i++`, for the rounds left and the index.
unfoldable pub stream_from {ℓ} : {A : Type ℓ} → (ℕ → Result A) → ℕ → ℕ → Result (List A)
stream_from f zero i = ok []
stream_from f (suc n) i = do x ← f i; xs ← stream_from f n (i + 1); ok (x ∷ xs)

unfoldable pub stream_flattened_documents : Chunk → Result (List Document)
unfolding flat_document stream_from
stream_flattened_documents c = stream_from (λ i. flat_document i c.metrics) c.n_points 0

-- `doc, _ := restoreDocument(c.reference, i, c.Metrics, 0)`
unfoldable pub structured_document : Chunk → ℕ → Result Document
unfolding restore_document
structured_document c i = do (doc, _) ← restore_document i c.metrics c.reference 0; ok doc

unfoldable pub stream_documents : Chunk → Result (List Document)
unfolding structured_document stream_from
stream_documents c = stream_from (structured_document c) c.n_points 0
