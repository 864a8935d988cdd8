-- ===== src/Tests/RoundTrips.antt =====
-- The encodings, the metrics and the samples of a chunk, at concrete inputs.
use ftdc.Bson.Encode.{document_bytes}
use ftdc.Bson.Decode.{read_from}
use ftdc.Bson.Decode.RoundTrip.{read_from-document_bytes}
use ftdc.Prelude.{Option, ◌+◌}
use ftdc.Prelude.{
  ℕ, ◌≡◌, refl, List, [], ◌∷◌, ◌++◌, none, some, arith, length, get_elem?, Bool, true, false, map,
}
use ftdc.Collector.Batch
use ftdc.Collector.Batch.{BatchCollector}
use ftdc.Read.Batch.{Readable, AllReadable, nothing, one_more, chunks_of, read_stream-resolve_all}
use ftdc.Result.{Error, ok}
use ftdc.Word.{IsWord, sub64}
use ftdc.Bson.{BsonType, same_type, Value, Document, end, element}
use ftdc.Series.{get_offset}
use ftdc.Collector.Better.{
  BetterCollector, started, new_base_collector, add, add_reference, add_next, with_metadata,
  chunk_document, get_payload, payload_of, marshal_all, written_documents, resolve,
}
use ftdc.Collector.Better.Invariant.{new_base_collector-IsValid, add-IsValid}
use ftdc.Collector.Better.History.{add_all, add_first}
use ftdc.Collector.Better.Schema.{Ready}
use ftdc.Metrics.Extract.{extract_from_document, extract_delta}
use ftdc.Metrics.Exact.{exact_document}
use ftdc.Metrics.Restore.RoundTrip.{
  SameFields, field, int64, boolean, no_fields, metrics_of_document, restore_document-extract,
}
use ftdc.Varint.{encode_value, read_uvarint}
use ftdc.Varint.RoundTrip.{read_uvarint-encode_value}
use ftdc.Series.{flush_zeros, read_deltas, undelta}
use ftdc.Series.RoundTrip.{tape, write_all, read_deltas-write_all}
use ftdc.Series.Undelta.{differences, undelta-differences}
use ftdc.Metrics.Flatten.{Metric, metric, metric_for_document}
use ftdc.Metrics.Restore.{value_at, restore_document}
use ftdc.Metrics.Hash.{metric_key_hash}
use ftdc.Metrics.Hash.Schema.{metric_key_hash-SameFields}
use ftdc.Read.{Chunk, caught, read_diagnostic, read_stream}
use ftdc.Read.Stream.{chunk_of, metadata_of, read_diagnostic-marshal_all, read_stream-resolve}
use ftdc.Read.RoundTrip.{Accepted, samples_lem}
use ftdc.Chunk.{structured_document, stream_documents}
use ftdc.Chunk.Iterator.{
  IteratorState, new_iterator, sample_documents, combined_worker, read_structured_metrics,
}
use ftdc.Chunk.Iterator.Samples.{points, combined_worker_lem}
use ftdc.Chunk.Iterator.RoundTrip.{read_structured_metrics-resolve}
use ftdc.Tests.ToyCodec.{
  count_document-IsEncodable, chunk_document-IsEncodable, count_document, toy_codec, toy_laws,
  reference, later_documents, empty_collector,
}

abbrev same_schema : (m n : ℕ) → IsWord n → SameFields (count_document m) (count_document n)
same_schema m n h = field (int64 m n h) no_fields

documents-Accepted : Accepted toy_codec toy_laws 10 reference later_documents empty_collector
unfolding exact_document extract_from_document new_base_collector
documents-Accepted = record {
  valid = new_base_collector-IsValid 4;
  unset = refl;
  exact = refl;
  schema = (
    same_schema 5 5 (omega arith),
    (same_schema 5 9 (omega arith), (same_schema 5 3 (omega arith), tt)),
  );
  fits = omega arith;
  few = omega arith;
  short = omega arith;
}

samples_lem_example :
    ((add_all sub64 ((10, reference) ∷ later_documents) empty_collector).1 ≡ none)
    × ((bytes : List ℕ) × (c : Chunk) × (resolve toy_codec
            (add_all sub64 ((10, reference) ∷ later_documents) empty_collector).0
          ≡ ok bytes)
        × (read_stream toy_codec bytes ≡ (c ∷ [], []))
        × (c.n_points ≡ 3)
        × ((j now : ℕ) (doc : Document)
            → get_elem? ((10, reference) ∷ later_documents) j ≡ some (now, doc)
            → structured_document c j ≡ ok (metrics_of_document doc)))
unfolding add_all add add_reference add_next written_documents with_metadata new_base_collector
    chunk_document get_payload extract_from_document same_type extract_delta get_offset payload_of
    ftdc.Varint.encode_size_value ftdc.Series.write_deltas ftdc.Prelude.Loops.for_range sub64
    ftdc.Bson.Encode.document_bytes encode_value
samples_lem_example =
    samples_lem toy_codec toy_laws 10 reference later_documents empty_collector documents-Accepted
      (count_document-IsEncodable 5 (omega arith))
      (chunk_document-IsEncodable _ _ (omega arith) (omega arith), tt)

read_deltas-write_all_example :
    (out : List ℕ) × ((flush_zeros
        (write_all (0 ∷ 0 ∷ 300 ∷ 0 ∷ []) (record { zero_count = 0; payload = 8 ∷ [] }))).payload
      ≡ (8 ∷ []) ++ out)
    × (read_deltas 4 (tape 0 (out ++ (6 ∷ []))) ≡ ok (0 ∷ 0 ∷ 300 ∷ 0 ∷ [], tape 0 (6 ∷ [])))
read_deltas-write_all_example =
    read_deltas-write_all (0 ∷ 0 ∷ 300 ∷ 0 ∷ []) (8 ∷ []) (6 ∷ [])
      (omega arith, (omega arith, (omega arith, (omega arith, tt)))) (omega arith)

read_uvarint-encode_value_example : read_uvarint (encode_value 300 ++ (6 ∷ [])) ≡ ok (300, 6 ∷ [])
read_uvarint-encode_value_example = read_uvarint-encode_value 300 (6 ∷ []) (omega arith)

-- 5, 2, 2: the first difference wraps around.
undelta-differences_example : undelta 5 (differences 5 (2 ∷ 2 ∷ [])) ≡ 5 ∷ 2 ∷ 2 ∷ []
undelta-differences_example =
    undelta-differences 5 (2 ∷ 2 ∷ []) (omega arith) (omega arith, (omega arith, tt))

-- `{a: n, b: true}`
abbrev flagged : ℕ → Bool → Document
flagged n b = element (b'a' ∷ []) (Value.int64 n) (element (b'b' ∷ []) (Value.boolean b) end)

flagged_schema : SameFields (flagged 5 false) (flagged 6 true)
flagged_schema = field (int64 5 6 (omega arith)) (field (boolean false true) no_fields)

abbrev flagged_metrics : List Metric
flagged_metrics =
    record (metric [] (b'a' ∷ []) 5 BsonType.int64) { values = 5 ∷ 6 ∷ [] }
    ∷ record (metric [] (b'b' ∷ []) 0 BsonType.boolean) { values = 0 ∷ 1 ∷ [] }
    ∷ []

restore_document-extract_example :
    restore_document 1 flagged_metrics (flagged 5 false) 0
    ≡ ok (
      metrics_of_document (flagged 6 true),
      length (extract_from_document 10 (flagged 6 true)).values,
    )
unfolding extract_from_document value_at
restore_document-extract_example =
    restore_document-extract 10 1 flagged_metrics (flagged 5 false) (flagged 6 true) flagged_schema
      (refl, (refl, tt))

metric_key_hash-SameFields_example :
    metric_key_hash toy_codec (flagged 6 true) ≡ metric_key_hash toy_codec (flagged 5 false)
metric_key_hash-SameFields_example = metric_key_hash-SameFields toy_codec flagged_schema

read_diagnostic-marshal_all_example :
    read_diagnostic toy_codec (marshal_all toy_codec (reference ∷ count_document 9 ∷ []))
    ≡ (reference ∷ count_document 9 ∷ [], none)
read_diagnostic-marshal_all_example =
    read_diagnostic-marshal_all toy_codec toy_laws (reference ∷ count_document 9 ∷ [])
      (count_document-IsEncodable 5 (omega arith), (count_document-IsEncodable 9 (omega arith), tt))

abbrev first_sample : BetterCollector
first_sample = (add_reference 10 reference empty_collector).0

-- The document that Resolve writes for it.
abbrev first_chunk : Document
first_chunk =
    chunk_document (started first_sample.started_at) (get_payload toy_codec reference first_sample)

read_stream-resolve_example :
    (bytes : List ℕ) × (resolve toy_codec first_sample ≡ ok bytes)
    × (read_stream toy_codec bytes
        ≡ (chunk_of (metadata_of first_sample) reference first_sample ∷ [], []))
unfolding add_reference new_base_collector extract_from_document written_documents with_metadata
    chunk_document get_payload payload_of metric_for_document ftdc.Varint.encode_size_value
    ftdc.Series.write_deltas ftdc.Prelude.Loops.for_range ftdc.Bson.Encode.document_bytes
read_stream-resolve_example =
    read_stream-resolve toy_codec toy_laws reference first_sample
      (count_document-IsEncodable 5 (omega arith)) refl (omega arith) (omega arith)
      (omega arith, (omega arith, (omega arith, (omega arith, tt)))) refl
      (chunk_document-IsEncodable _ _ (omega arith) (omega arith), tt)

first_sample-Ready : Ready 10 reference 2 first_sample
unfolding add_reference new_base_collector
first_sample-Ready = record {
  valid =
      rw (add_first sub64 10 reference empty_collector refl) at
        (add-IsValid sub64 10 reference empty_collector (new_base_collector-IsValid 4));
  set = refl;
  types = refl;
  counts = refl;
  fits = omega arith;
}

abbrev first_error : List Error → Option Error
first_error [] = none
first_error (e ∷ es) = some e

read_structured_metrics-resolve_example :
    (bytes : List ℕ) × ((add_all sub64 ((10, reference) ∷ later_documents) empty_collector).1
      ≡ none)
    × (resolve toy_codec (add_all sub64 ((10, reference) ∷ later_documents) empty_collector).0
        ≡ ok bytes)
    × (read_structured_metrics first_error toy_codec bytes
        ≡ ok (record {
          metadata = none;
          sent = map (λ x. metrics_of_document x.1) ((10, reference) ∷ later_documents);
          errors = [];
        }))
unfolding add_all add add_reference add_next written_documents with_metadata new_base_collector
    chunk_document get_payload extract_from_document same_type extract_delta get_offset payload_of
    ftdc.Varint.encode_size_value ftdc.Series.write_deltas ftdc.Prelude.Loops.for_range sub64
    ftdc.Bson.Encode.document_bytes encode_value
read_structured_metrics-resolve_example =
    read_structured_metrics-resolve toy_codec toy_laws first_error 10 reference later_documents
      empty_collector refl documents-Accepted (count_document-IsEncodable 5 (omega arith))
      (chunk_document-IsEncodable _ _ (omega arith) (omega arith), tt)

-- A chunk of two points.
abbrev flagged_chunk : Chunk
flagged_chunk = record {
  metrics = flagged_metrics;
  n_points = 2;
  id = none;
  metadata = some reference;
  reference = flagged 5 false;
}

abbrev flagged_state : IteratorState
flagged_state = record {
  metadata = none;
  sent = flagged 5 false ∷ flagged 6 true ∷ [];
  errors = [];
}

combined_worker_lem_example :
    (length flagged_state.sent ≡ length new_iterator.sent + points (flagged_chunk ∷ []))
    × (flagged_state.metadata ≡ none)
    × (flagged_state.errors ≡ new_iterator.errors ++ caught none [])
unfolding combined_worker sample_documents stream_documents structured_document value_at
combined_worker_lem_example =
    combined_worker_lem false none (flagged_chunk ∷ []) new_iterator flagged_state refl refl

first_sample-Readable : Readable toy_codec toy_laws first_sample
unfolding add_reference new_base_collector extract_from_document written_documents with_metadata
    chunk_document get_payload payload_of metric_for_document ftdc.Varint.encode_size_value
    ftdc.Series.write_deltas ftdc.Prelude.Loops.for_range ftdc.Bson.Encode.document_bytes
first_sample-Readable = record {
  reference = reference;
  set = refl;
  encodable = count_document-IsEncodable 5 (omega arith);
  counts = refl;
  few = omega arith;
  short = omega arith;
  words = (omega arith, (omega arith, (omega arith, (omega arith, tt))));
  documents = (chunk_document-IsEncodable _ _ (omega arith) (omega arith), tt);
}

abbrev two_chunks : BatchCollector
two_chunks = record { max_samples = 1; chunks = first_sample ∷ first_sample ∷ [] }

two_chunks-Readable : AllReadable toy_codec toy_laws two_chunks.chunks
two_chunks-Readable = one_more first_sample-Readable (one_more first_sample-Readable nothing)

read_stream-resolve_all_example :
    (bytes : List ℕ) × (Batch.resolve toy_codec two_chunks ≡ ok bytes)
    × (read_stream toy_codec bytes ≡ (chunks_of toy_codec toy_laws none two_chunks-Readable, []))
read_stream-resolve_all_example =
    read_stream-resolve_all toy_codec toy_laws two_chunks two_chunks-Readable

read_from-document_bytes_example :
    read_from (document_bytes (count_document 5) ++ (6 ∷ 7 ∷ []))
    ≡ ok (count_document 5, 6 ∷ 7 ∷ [])
read_from-document_bytes_example =
    read_from-document_bytes (count_document 5) (6 ∷ 7 ∷ [])
      (count_document-IsEncodable 5 (omega arith))
