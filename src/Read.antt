-- ===== src/Read.antt =====
-- read.go: documents read from a stream of bytes, and the chunks in them. The channels between the
-- two goroutines are lists, in the order of what is sent; the context is not cancelled. A function
-- that sends and then fails returns what it has sent beside the error, `none` for nil.
pub mod Populate
pub mod Payload
pub mod Stream
pub mod Series
pub mod Doubles
pub mod Batch
pub mod Documents
pub mod RoundTrip
use ftdc.Bson.Decode.{read_from}
use ftdc.Prelude.{
  ℕ, zero, suc, ◌+◌, List, [], ◌∷◌, Option, none, some, Bool, true, false, ◌==◌, if◌then◌else◌,
  length,
}
use ftdc.Result.{Error, Result, ok, err, ◌>>=◌, eof, data_not_populated, metrics_mismatch, panicked}
use ftdc.Bson.{BsonType, same_type, Document}
use ftdc.Bson.Lookup.{lookup, time_ok, binary_of, is_num}
use ftdc.Codec.{Codec}
use ftdc.Varint.{read_size}
use ftdc.Series.{Tape, read_deltas, undelta, undelta_floats}
use ftdc.Metrics.Flatten.{Metric, metric_for_document}
use ftdc.Collector.Better.{id_key, type_key, data_key}

-- ftdc.go
pub record Chunk : Type 0 where
  pub metrics : List Metric
  pub n_points : ℕ
  pub id : Option ℕ
  pub metadata : Option Document
  pub reference : Document

-- The deltas of one metric turned into its values.
unfoldable pub expand : BsonType → ℕ → List ℕ → List ℕ
unfolding same_type undelta undelta_floats
expand t starting_value deltas =
    if same_type t BsonType.double
    then undelta_floats starting_value deltas
    else undelta starting_value deltas

-- The loop of readChunks over the metrics. The zeros that are left run on into the next metric.
unfoldable pub populate : ℕ → List Metric → Tape → Result (List Metric × Tape)
unfolding expand
populate ndeltas [] s = ok ([], s)
populate ndeltas (m ∷ ms) s = do
  (deltas, s') ← read_deltas ndeltas s
  (ms', s'') ← populate ndeltas ms s'
  ok (record m { values = expand m.original_type m.starting_value deltas } ∷ ms', s'')

-- `zBytes[4:]`
unfoldable pub behind_size : List ℕ → Result (List ℕ)
behind_size (_ ∷ _ ∷ _ ∷ _ ∷ rest) = ok rest
behind_size _ = err panicked

module _ (codec : Codec) where
  -- readBufMetrics
  unfoldable pub read_buf_metrics : List ℕ → Result (Document × List Metric × List ℕ)
  unfolding metric_for_document
  read_buf_metrics buf = do (doc, rest) ← read_from buf; ok (doc, metric_for_document [] doc, rest)

  -- What readChunks makes of the bytes that were compressed.
  unfoldable pub read_payload : Option ℕ → Option Document → List ℕ → Result Chunk
  unfolding read_buf_metrics populate
  read_payload id metadata buf = do
    (reference, metrics, buf') ← read_buf_metrics buf
    (nmetrics, buf'') ← read_size buf'
    (ndeltas, buf''') ← read_size buf''
    if nmetrics == length metrics
        then (do
          (metrics', _) ← populate ndeltas metrics (record { nzeroes = 0; bytes = buf''' })
          ok (record {
            metrics = metrics';
            n_points = ndeltas + 1;
            id = id;
            metadata = metadata;
            reference = reference;
          }))
        else err metrics_mismatch

  -- One round of readChunks, for a document of type 1.
  unfoldable pub read_chunk : Option Document → Document → Result Chunk
  unfolding lookup time_ok binary_of behind_size
  read_chunk metadata doc = elim (lookup data_key doc) [
    | none ↦ err data_not_populated
    | some v ↦ (do
      z_bytes ← binary_of v
      body ← behind_size z_bytes
      buf ← codec.decompress body
      read_payload (time_ok (lookup id_key doc)) metadata buf)
  ]

  abbrev prepend_chunk : Chunk → List Chunk × Option Error → List Chunk × Option Error
  prepend_chunk c (cs, e) = (c ∷ cs, e)

  -- readChunks: the chunks that are sent, and the error.
  unfoldable pub read_chunks : Option Document → List Document → List Chunk × Option Error
  unfolding lookup is_num
  read_chunks metadata [] = ([], none)
  read_chunks metadata (doc ∷ docs) =
      let doc_type = lookup type_key doc in
      elim (is_num codec.float_is 0 doc_type) [
        | true ↦ read_chunks (some doc) docs
        | false ↦ elim (is_num codec.float_is 1 doc_type) [
          | false ↦ read_chunks metadata docs
          | true ↦ elim (read_chunk metadata doc) [
            | err e ↦ ([], some e)
            | ok c ↦ prepend_chunk c (read_chunks metadata docs)
          ]
        ]
      ]

  -- `if err == io.EOF { err = nil }`
  abbrev pub unless_eof : Error → Option Error
  unless_eof eof = none
  unless_eof e = some e

  abbrev prepend_document : Document → List Document × Option Error → List Document × Option Error
  prepend_document d (ds, e) = (d ∷ ds, e)

  -- readDiagnostic, of the bytes of a stream. The fuel bounds the number of documents: each takes
  -- at least five bytes, so the number of bytes is enough.
  unfoldable pub read_diagnostic_loop : ℕ → List ℕ → List Document × Option Error
  read_diagnostic_loop zero buf = ([], none)
  read_diagnostic_loop (suc fuel) buf = elim (read_from buf) [
    | err e ↦ ([], unless_eof e)
    | ok (doc, rest) ↦ prepend_document doc (read_diagnostic_loop fuel rest)
  ]

  unfoldable pub read_diagnostic : List ℕ → List Document × Option Error
  unfolding read_diagnostic_loop
  read_diagnostic buf = read_diagnostic_loop (suc (length buf)) buf

-- `catcher.Add(err)`
abbrev pub caught : Option Error → List Error → List Error
caught none es = es
caught (some e) es = e ∷ es

-- ReadChunks of iterator_chunk.go: the chunks that its pipe carries, and the errors of its catcher.
unfoldable pub read_stream : Codec → List ℕ → List Chunk × List Error
unfolding read_diagnostic read_chunks
read_stream codec bytes =
    let (docs, e) = read_diagnostic codec bytes in
    let (chunks, e') = read_chunks codec none docs in (chunks, caught e (caught e' []))
