-- ===== src/Chunk/Iterator/RoundTrip.antt =====
-- From a betterCollector (collector_better.go) to ReadStructuredMetrics (iterator.go).
use ftdc.Bson.Decode.RoundTrip.{IsEncodable}
use ftdc.Prelude.{
  ℕ, ◌+◌, ◌≡◌, refl, List, [], ◌∷◌, map, Option, none, some, false, arith, length, get_elem?,
}
use ftdc.Result.{Error, ok}
use ftdc.Word.{All}
use ftdc.Bson.{Document}
use ftdc.Codec.{Codec, CodecLaws}
use ftdc.Metrics.Restore.RoundTrip.{metrics_of_document}
use ftdc.Collector.Better.{BetterCollector, written_documents, resolve}
use ftdc.Collector.Better.History.{add_all}
use ftdc.Read.{Chunk, read_stream}
use ftdc.Read.RoundTrip.{filled, Accepted, samples_lem}
use ftdc.Chunk.{structured_document, stream_documents}
use ftdc.Chunk.Iterator.{
  new_iterator, sample_documents, combined_worker, read_metrics, read_structured_metrics,
}
use ftdc.Chunk.Iterator.Samples.{stream_from-map}

one_chunk :
    (chunk : Chunk) (docs : List Document)
    → stream_documents chunk ≡ ok docs
    → combined_worker false none (chunk ∷ []) new_iterator
      ≡ ok (record { metadata = none; sent = docs; errors = [] })
unfolding combined_worker sample_documents
one_chunk chunk docs h = rw h refl

one_chunk_read :
    (codec : Codec) (resolved : List Error → Option Error) (bytes : List ℕ) (chunk : Chunk)
    (docs : List Document)
    → resolved [] ≡ none
    → read_stream codec bytes ≡ (chunk ∷ [], [])
    → stream_documents chunk ≡ ok docs
    → read_metrics false resolved codec bytes
      ≡ ok (record { metadata = none; sent = docs; errors = [] })
unfolding read_metrics
one_chunk_read codec resolved bytes chunk docs quiet read h =
    rw (read, quiet) (one_chunk chunk docs h)

all_points :
    (chunk : Chunk) (all : List (ℕ × Document))
    → chunk.n_points ≡ length all
    → ((j later : ℕ) (doc : Document)
        → get_elem? all j ≡ some (later, doc)
        → structured_document chunk j ≡ ok (metrics_of_document doc))
    → stream_documents chunk ≡ ok (map (λ x. metrics_of_document x.1) all)
unfolding stream_documents
all_points chunk all n h = rw n (
    stream_from-map (structured_document chunk) (λ (x : ℕ × Document). metrics_of_document x.1) all
      0 (λ j x e. let z : 0 + j ≡ j = omega arith in rw z (h j x.0 x.1 e)))

-- For a collector without a reference and documents of one schema (integers, booleans, dates of the
-- years 1678 to 2262, which are those of UnixNano; no doubles or timestamps) that the collector has
-- room for, of fewer than 2 ^ 32 metrics, where the reference and the documents that Resolve writes
-- are encodable (their bytes are fewer than 2 ^ 31, their keys and regular expressions have no zero
-- byte, their numbers, object ids and subtypes are in the range of their Go types, and they hold no
-- JavaScript with a scope), and zlib restores what it has compressed: every Add returns nil,
-- Resolve returns bytes, and ReadStructuredMetrics of these bytes sends the documents that were
-- added, in order, each without the elements that hold no metric, and no error.
pub read_structured_metrics-resolve :
    (codec : Codec) (laws : CodecLaws codec) (resolved : List Error → Option Error) (now : ℕ)
    (reference : Document) (docs : List (ℕ × Document)) (empty : BetterCollector)
    → resolved [] ≡ none
    → Accepted codec laws now reference docs empty
    → IsEncodable reference
    → All IsEncodable
        (written_documents codec reference (filled codec laws now reference docs empty))
    → (bytes : List ℕ) × ((add_all codec.float_sub ((now, reference) ∷ docs) empty).1 ≡ none)
      × (resolve codec (add_all codec.float_sub ((now, reference) ∷ docs) empty).0 ≡ ok bytes)
      × (read_structured_metrics resolved codec bytes
          ≡ ok (record {
            metadata = none;
            sent = map (λ x. metrics_of_document x.1) ((now, reference) ∷ docs);
            errors = [];
          }))
unfolding read_structured_metrics
read_structured_metrics-resolve codec laws resolved now reference docs empty quiet h enc docs_enc =
    let (added, (bytes, chunk, done, read, n, each)) =
      samples_lem codec laws now reference docs empty h enc docs_enc in
    let all = all_points chunk ((now, reference) ∷ docs) n each in
    (bytes, added, done, one_chunk_read codec resolved bytes chunk _ quiet read all)
