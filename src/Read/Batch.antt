-- ===== src/Read/Batch.antt =====
-- ReadChunks (iterator_chunk.go, read.go) on what Resolve of a batchCollector (collector_batch.go)
-- returns.
use ftdc.Bson.Encode.{document_bytes}
use ftdc.Bson.Decode.RoundTrip.{IsEncodable}
use ftdc.Prelude.{
  ℕ, ◌^◌, ◌<◌, ◌≡◌, refl, ◌∙◌, List, [], ◌∷◌, ◌++◌, arith, length, Option, none, some,
}
use mathlib.Core.List.{append_assoc}
use ftdc.Result.{ok}
use ftdc.Word.{IsWord, All, All-append}
use ftdc.Bson.{Value, Document}
use ftdc.Bson.Lookup.{lookup}
use ftdc.Codec.{Codec, CodecLaws}
use ftdc.Metrics.Flatten.{metric_for_document}
use ftdc.Collector.Better
use ftdc.Collector.Better.{
  BetterCollector, values_of, started, get_payload, metadata_document, type_key, with_metadata,
  chunk_document, written_documents, marshal_all,
}
use ftdc.Collector.Batch
use ftdc.Collector.Batch.{BatchCollector, resolve_all}
use ftdc.Read.{Chunk, read_chunk, read_chunks, read_stream}
use ftdc.Read.Stream.{
  chunk_of, type_of_chunk, type_of_metadata, metadata_round, read_chunk-chunk_document,
  read_diagnostic-marshal_all, resolve-marshal_all,
}

module _ (codec : Codec) (laws : CodecLaws codec) where
  -- A collector whose chunk can be read back.
  pub record Readable (c : BetterCollector) : Type 0 where
    pub reference : Document
    pub set : c.reference ≡ some reference
    pub encodable : IsEncodable reference
    pub counts : length (metric_for_document [] reference) ≡ length (values_of c.last_sample)
    pub few : length (values_of c.last_sample) < 2 ^ 32
    pub short : c.num_samples < 2 ^ 32
    pub words : All IsWord c.deltas
    pub documents : All IsEncodable (written_documents codec reference c)

  pub data AllReadable : List BetterCollector → Type 0 where
    nothing : AllReadable []
    one_more :
        {c : BetterCollector} {cs : List BetterCollector}
        → Readable c
        → AllReadable cs
        → AllReadable (c ∷ cs)

  -- The metadata document of a chunk: its own, or else the latest before it.
  abbrev metadata_after : Option Document → ℕ → Option Document → Option Document
  metadata_after before id none = before
  metadata_after before id (some m) = some (metadata_document id m)

  pub chunks_of : Option Document → {cs : List BetterCollector} → AllReadable cs → List Chunk
  chunks_of before nothing = []
  chunks_of before (one_more {c} {cs} r rs) =
      let after = metadata_after before (started c.started_at) c.metadata in
      chunk_of after r.reference c ∷ chunks_of after rs

  all_documents : {cs : List BetterCollector} → AllReadable cs → List Document
  all_documents nothing = []
  all_documents (one_more {c} {cs} r rs) = written_documents codec r.reference c ++ all_documents rs

  marshal_all-append :
      (ds es : List Document)
      → marshal_all codec (ds ++ es) ≡ marshal_all codec ds ++ marshal_all codec es
  unfolding marshal_all
  marshal_all-append [] es = refl
  marshal_all-append (d ∷ ds) es =
      rw
        (
          marshal_all-append ds es,
          append_assoc (document_bytes d) (marshal_all codec ds) (marshal_all codec es),
        )
        refl

  resolve_all-marshal_all :
      {cs : List BetterCollector} (rs : AllReadable cs)
      → resolve_all (Better.resolve codec) cs ≡ ok (marshal_all codec (all_documents rs))
  unfolding resolve_all all_documents marshal_all
  resolve_all-marshal_all nothing = refl
  resolve_all-marshal_all (one_more {c} {cs} r rs) =
      let one : Better.resolve codec c
          ≡ ok (marshal_all codec (written_documents codec r.reference c)) =
        resolve-marshal_all codec laws c r.reference r.set r.encodable r.documents in
      rw
        (
          one,
          resolve_all-marshal_all rs,
          marshal_all-append (written_documents codec r.reference c) (all_documents rs),
        )
        refl

  All-IsEncodable :
      {cs : List BetterCollector} (rs : AllReadable cs) → All IsEncodable (all_documents rs)
  unfolding all_documents
  All-IsEncodable nothing = tt
  All-IsEncodable (one_more {c} {cs} r rs) =
      All-append IsEncodable _ _ r.documents (All-IsEncodable rs)

  chunk_before :
      (doc : Document) (metadata : Option Document) (ch : Chunk) (docs : List Document)
      (chs : List Chunk)
      → lookup type_key doc ≡ some (Value.int32 1)
      → read_chunk codec metadata doc ≡ ok ch
      → read_chunks codec metadata docs ≡ (chs, none)
      → read_chunks codec metadata (doc ∷ docs) ≡ (ch ∷ chs, none)
  unfolding read_chunks
  chunk_before doc metadata ch docs chs t r h = ground arith

  one_round :
      (metadata : Option Document) (c : BetterCollector) (r : Readable c) (docs : List Document)
      (chs : List Chunk)
      → read_chunks codec metadata docs ≡ (chs, none)
      → read_chunks codec metadata
          (chunk_document (started c.started_at) (get_payload codec r.reference c) ∷ docs)
        ≡ (chunk_of metadata r.reference c ∷ chs, none)
  one_round metadata c r docs chs h =
      chunk_before _ metadata (chunk_of metadata r.reference c) docs chs
        (type_of_chunk (started c.started_at) (get_payload codec r.reference c))
        (read_chunk-chunk_document codec laws r.reference c r.encodable r.counts r.few r.short
          r.words metadata)
        h

  written_before :
      (before m : Option Document) (c : BetterCollector) (r : Readable c) (docs : List Document)
      (chs : List Chunk)
      → read_chunks codec (metadata_after before (started c.started_at) m) docs ≡ (chs, none)
      → read_chunks codec before (
          with_metadata
            (started c.started_at)
            m
            (chunk_document (started c.started_at) (get_payload codec r.reference c))
          ++ docs)
        ≡ (chunk_of (metadata_after before (started c.started_at) m) r.reference c ∷ chs, none)
  unfolding with_metadata
  written_before before none c r docs chs h = one_round before c r docs chs h
  written_before before (some m) c r docs chs h =
      let id = started c.started_at in
      metadata_round codec laws (metadata_document id m) before _ (type_of_metadata id m)
      ∙ one_round (some (metadata_document id m)) c r docs chs h

  read_all :
      (before : Option Document) {cs : List BetterCollector} (rs : AllReadable cs)
      → read_chunks codec before (all_documents rs) ≡ (chunks_of before rs, none)
  unfolding all_documents chunks_of written_documents read_chunks
  read_all before nothing = refl
  read_all before (one_more {c} {cs} r rs) =
      written_before before c.metadata c r (all_documents rs) _
        (read_all (metadata_after before (started c.started_at) c.metadata) rs)

  -- Where zlib restores what it has compressed, Resolve of a batchCollector, each chunk of which
  -- has an encodable reference with as many metrics as its last sample, deltas in the range of
  -- int64, fewer than 2 ^ 32 metrics and samples, and encodable documents to write, returns bytes
  -- that ReadChunks reads, without an error, as the chunks of all collectors in order, each with
  -- its own metadata or else the latest before it. Encodable are documents whose bytes are fewer
  -- than 2 ^ 31, whose keys and regular expressions have no zero byte, whose numbers, object ids
  -- and subtypes are in the range of their Go types, and which hold no JavaScript with a scope.
  pub read_stream-resolve_all :
      (c : BatchCollector) (rs : AllReadable c.chunks)
      → (bytes : List ℕ) × (Batch.resolve codec c ≡ ok bytes)
        × (read_stream codec bytes ≡ (chunks_of none rs, []))
  unfolding Batch.resolve read_stream
  read_stream-resolve_all c rs = (
    marshal_all codec (all_documents rs),
    resolve_all-marshal_all rs,
    rw (read_diagnostic-marshal_all codec laws (all_documents rs) (All-IsEncodable rs))
        (rw (read_all none rs) refl),
  )
