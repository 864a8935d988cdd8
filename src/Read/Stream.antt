-- ===== src/Read/Stream.antt =====
-- readDiagnostic and readChunks (read.go) on the bytes that Resolve of collector_better.go returns.
use ftdc.Bson.Encode.{document_bytes}
use ftdc.Bson.Decode.RoundTrip.{
  IsEncodable, length-document_bytes, read_from-document_bytes, read_from-nil,
  marshal_bson-IsEncodable,
}
use ftdc.Prelude.{
  ℕ, zero, suc, ◌+◌, ◌^◌, ◌≤◌, ◌<◌, ◌≡◌, refl, ◌∙◌, List, [], ◌∷◌, arith, length, length-append,
  Option, none, some,
}
use ftdc.Result.{ok}
use ftdc.Word.{IsWord, All}
use ftdc.Bson.{Value, Document}
use ftdc.Bson.Lookup.{lookup}
use mathlib.Core.Option
use ftdc.Varint.{encode_size_value}
use ftdc.Codec.{Codec, CodecLaws}
use ftdc.Metrics.Flatten.{metric_for_document}
use ftdc.Collector.Better.{
  BetterCollector, values_of, started, payload_of, get_payload, metadata_document, type_key,
  with_metadata, chunk_document, written_documents, marshal_all, write_documents, resolve,
}
use ftdc.Read.{Chunk, read_chunk, read_chunks, read_diagnostic_loop, read_diagnostic, read_stream}
use ftdc.Read.Payload.{series_of, read_payload-payload_of}

-- The chunk that a collector's state stands for.
abbrev pub chunk_of : Option Document → Document → BetterCollector → Chunk
chunk_of metadata reference c = record {
  metrics = series_of c (metric_for_document [] reference);
  n_points = c.num_samples + 1;
  id = some (started c.started_at);
  metadata = metadata;
  reference = reference;
}

-- The metadata that the chunk comes back with.
abbrev pub metadata_of : BetterCollector → Option Document
metadata_of c = Option.map (metadata_document (started c.started_at)) c.metadata

pub type_of_chunk :
    (id : ℕ) (bytes : List ℕ) → lookup type_key (chunk_document id bytes) ≡ some (Value.int32 1)
unfolding lookup chunk_document
type_of_chunk id bytes = refl

pub type_of_metadata :
    (id : ℕ) (m : Document) → lookup type_key (metadata_document id m) ≡ some (Value.int32 0)
unfolding lookup metadata_document
type_of_metadata id m = refl

module _ (codec : Codec) (laws : CodecLaws codec) where
  marshal_all_size : (docs : List Document) → length docs ≤ length (marshal_all codec docs)
  unfolding marshal_all
  marshal_all_size [] = omega arith
  marshal_all_size (d ∷ ds) = omega (
    arith,
    length-append (document_bytes d) (marshal_all codec ds),
    length-document_bytes d,
    marshal_all_size ds,
  )

  read_diagnostic_loop-marshal_all :
      (docs : List Document) (fuel : ℕ)
      → All IsEncodable docs
      → length docs ≤ fuel
      → read_diagnostic_loop codec (suc fuel) (marshal_all codec docs) ≡ (docs, none)
  unfolding read_diagnostic_loop marshal_all
  read_diagnostic_loop-marshal_all [] fuel h l = rw (read_from-nil, read_diagnostic_loop)
  read_diagnostic_loop-marshal_all (d ∷ ds) zero h l = absurd (omega arith)
  read_diagnostic_loop-marshal_all (d ∷ ds) (suc fuel) h l =
      rw (read_from-document_bytes d (marshal_all codec ds) h.0, read_diagnostic_loop)
        (rw (read_diagnostic_loop-marshal_all ds fuel h.1 (omega arith)))

  -- readDiagnostic sends all of the documents whose bytes were written into the stream one behind
  -- the other, and ends without an error. They are documents whose bytes are fewer than 2 ^ 31,
  -- whose keys and regular expressions have no zero byte, whose numbers, object ids and subtypes
  -- are in the range of their Go types, and which hold no JavaScript with a scope.
  pub read_diagnostic-marshal_all :
      (docs : List Document)
      → All IsEncodable docs
      → read_diagnostic codec (marshal_all codec docs) ≡ (docs, none)
  unfolding read_diagnostic
  read_diagnostic-marshal_all docs h =
      read_diagnostic_loop-marshal_all docs _ h (marshal_all_size docs)

  -- The rounds of readChunks, by the type of the document.
  chunk_round :
      (doc : Document) (metadata : Option Document) (ch : Chunk)
      → lookup type_key doc ≡ some (Value.int32 1)
      → read_chunk codec metadata doc ≡ ok ch
      → read_chunks codec metadata (doc ∷ []) ≡ (ch ∷ [], none)
  unfolding read_chunks
  chunk_round doc metadata ch t r = ground arith

  pub metadata_round :
      (doc : Document) (metadata : Option Document) (docs : List Document)
      → lookup type_key doc ≡ some (Value.int32 0)
      → read_chunks codec metadata (doc ∷ docs) ≡ read_chunks codec (some doc) docs
  unfolding read_chunks
  metadata_round doc metadata docs t = ground arith

  write_documents-marshal_all :
      (docs : List Document)
      → All IsEncodable docs
      → write_documents codec docs ≡ ok (marshal_all codec docs)
  unfolding write_documents marshal_all
  write_documents-marshal_all [] h = refl
  write_documents-marshal_all (d ∷ ds) h =
      rw (marshal_bson-IsEncodable d h.0, write_documents-marshal_all ds h.1) refl

  -- Resolve of a collector with encodable documents meets no error.
  pub resolve-marshal_all :
      (c : BetterCollector) (reference : Document)
      → c.reference ≡ some reference
      → IsEncodable reference
      → All IsEncodable (written_documents codec reference c)
      → resolve codec c ≡ ok (marshal_all codec (written_documents codec reference c))
  unfolding resolve written_documents get_payload payload_of
  resolve-marshal_all c reference e enc docs =
      rw (e, marshal_bson-IsEncodable reference enc)
        (write_documents-marshal_all (written_documents codec reference c) docs)

  module _ (reference : Document) (c : BetterCollector) (enc : IsEncodable reference)
      (same : length (metric_for_document [] reference) ≡ length (values_of c.last_sample))
      (few : length (values_of c.last_sample) < 2 ^ 32) (short : c.num_samples < 2 ^ 32)
      (words : All IsWord c.deltas) where
    pub read_chunk-chunk_document :
        (metadata : Option Document)
        → read_chunk codec metadata
            (chunk_document (started c.started_at) (get_payload codec reference c))
          ≡ ok (chunk_of metadata reference c)
    unfolding read_chunk get_payload chunk_document encode_size_value
    read_chunk-chunk_document metadata =
        rw (laws.decompress-compress (payload_of codec reference c)) (
          read_payload-payload_of codec laws (some (started c.started_at)) metadata reference c enc
            same few short words)

    read_one_chunk :
        (metadata : Option Document)
        → read_chunks codec metadata
            (chunk_document (started c.started_at) (get_payload codec reference c) ∷ [])
          ≡ (chunk_of metadata reference c ∷ [], none)
    read_one_chunk metadata =
        chunk_round _ metadata (chunk_of metadata reference c)
          (type_of_chunk (started c.started_at) (get_payload codec reference c))
          (read_chunk-chunk_document metadata)

    read_chunks-written_documents :
        (m : Option Document)
        → read_chunks codec none (
            with_metadata
              (started c.started_at)
              m
              (chunk_document (started c.started_at) (get_payload codec reference c)))
          ≡ (
            chunk_of (Option.map (metadata_document (started c.started_at)) m) reference c ∷ [],
            none,
          )
    unfolding with_metadata
    read_chunks-written_documents none = read_one_chunk none
    read_chunks-written_documents (some m) =
        metadata_round _ none _ (type_of_metadata (started c.started_at) m)
        ∙ read_one_chunk (some (metadata_document (started c.started_at) m))

    -- Where zlib restores what it has compressed, Resolve of a collector with an encodable
    -- reference that has as many metrics as the last sample, with deltas in the range of int64,
    -- fewer than 2 ^ 32 metrics and samples, and encodable documents to write, returns bytes that
    -- ReadChunks reads, without an error, as one chunk: the reference, one point more than there
    -- are samples behind it, for every metric the series of the collector's deltas, and the
    -- document that holds the metadata. Encodable are documents whose bytes are fewer than 2 ^ 31,
    -- whose keys and regular expressions have no zero byte, whose numbers, object ids and subtypes
    -- are in the range of their Go types, and which hold no JavaScript with a scope.
    pub read_stream-resolve :
        c.reference ≡ some reference
        → All IsEncodable (written_documents codec reference c)
        → (bytes : List ℕ) × (resolve codec c ≡ ok bytes)
          × (read_stream codec bytes ≡ (chunk_of (metadata_of c) reference c ∷ [], []))
    read_stream-resolve e docs = (
      marshal_all codec (written_documents codec reference c),
      resolve-marshal_all c reference e enc docs,
      unfold read_stream in
          rw (read_diagnostic-marshal_all (written_documents codec reference c) docs)
            (unfold written_documents in rw (read_chunks-written_documents c.metadata)),
    )
