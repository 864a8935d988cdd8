-- ===== src/Collector/Better.antt =====
-- collector_better.go: one chunk, a reference document and the deltas of the samples behind it.
-- `deltas` is one slice with a row of `max_deltas` places for each metric. A write out of its range
-- is a panic in Go.
pub mod Invariant
pub mod Deltas
pub mod Samples
pub mod History
pub mod Schema
use ftdc.Bson.Encode.{document_bytes, marshal_bson}
use ftdc.Prelude.{
  ℕ, ◌+◌, ◌*◌, ◌%◌, ◌^◌, List, [], ◌∷◌, ◌++◌, Option, none, some, ltb, leb, ◌==◌, if◌then◌else◌,
  length, set, replicate,
}
use ftdc.Result.{
  Result, ok, err, ◌>>=◌, overfull, schema_count, schema_types, no_reference, panicked,
}
use ftdc.Bson.{Text, BsonType, same_type, Value, Document, end, element}
use ftdc.Codec.{Codec}
use ftdc.Input.{Outcome, with_document}
use ftdc.Varint.{encode_size_value}
use ftdc.Series.{get_offset, write_deltas}
use ftdc.Metrics.Extract.{ExtractedMetrics, extract_from_document, extract_delta}
use ftdc.Collector.Interface.{CollectorInfo, Collector}

pub record BetterCollector : Type 0 where
  pub metadata : Option Document
  pub reference : Option Document
  pub started_at : Option ℕ
  pub last_sample : Option ExtractedMetrics
  pub deltas : List ℕ
  pub num_samples : ℕ
  pub max_deltas : ℕ

-- NewBaseCollector
unfoldable pub new_base_collector : ℕ → BetterCollector
new_base_collector max_size = record {
  metadata = none;
  reference = none;
  started_at = none;
  last_sample = none;
  deltas = [];
  num_samples = 0;
  max_deltas = max_size;
}

unfoldable pub set_metadata : Document → BetterCollector → Outcome BetterCollector
set_metadata doc c = (record c { metadata = some doc }, none)

unfoldable pub reset : BetterCollector → BetterCollector
reset c = record c { reference = none; last_sample = none; deltas = []; num_samples = 0 }

abbrev pub values_of : Option ExtractedMetrics → List Value
values_of none = []
values_of (some m) = m.values

abbrev pub types_of : Option ExtractedMetrics → List BsonType
types_of none = []
types_of (some m) = m.types

unfoldable pub info : BetterCollector → CollectorInfo
info c = record {
  metrics_count = length (values_of c.last_sample);
  sample_count = (elim c.reference [ none ↦ 0 | some _ ↦ 1 ]) + c.num_samples;
}

-- The loop of Add over the metrics, from index `idx` on: the deltas as they are when it ends.
pub write_sample :
    (ℕ → ℕ → ℕ)
    → ℕ
    → ℕ
    → ℕ
    → List Value
    → List BsonType
    → List Value
    → List BsonType
    → List ℕ
    → Outcome (List ℕ)
write_sample float_sub max n idx [] ts ps qs deltas = (deltas, none)
write_sample float_sub max n idx (v ∷ vs) (t ∷ ts) (p ∷ ps) (q ∷ qs) deltas =
    let place = get_offset max n idx in
    let next =
      λ (delta : ℕ). write_sample float_sub max n (idx + 1) vs ts ps qs (set deltas place delta) in
    let stored : Outcome (List ℕ) = elim (extract_delta float_sub v p) [
      | err e ↦ (deltas, some e)
      | ok delta ↦ if ltb place (length deltas) then next delta else (deltas, some panicked)
    ] in
    if same_type t q then stored else (deltas, some schema_types)
write_sample float_sub max n idx (v ∷ vs) _ _ _ deltas = (deltas, some panicked)

-- The first document: the reference.
unfoldable pub add_reference : ℕ → Document → BetterCollector → Outcome BetterCollector
add_reference now doc c =
    let metrics = extract_from_document now doc in
    (
      record c {
        reference = some doc;
        started_at = metrics.ts;
        last_sample = some metrics;
        deltas = replicate (c.max_deltas * length metrics.values) 0;
      },
      none,
    )

-- Add behind its two guards. The rows that a failed Add has written stay in `deltas`.
unfoldable pub add_sample :
    (ℕ → ℕ → ℕ) → ExtractedMetrics → BetterCollector → Outcome BetterCollector
unfolding write_sample
add_sample float_sub metrics c =
    let (deltas, e) =
      write_sample float_sub c.max_deltas c.num_samples 0 metrics.values metrics.types
        (values_of c.last_sample) (types_of c.last_sample) c.deltas in
    elim e [
      | some x ↦ (record c { deltas = deltas }, some x)
      | none ↦ (
        record c { deltas = deltas; num_samples = c.num_samples + 1; last_sample = some metrics },
        none,
      )
    ]

-- Add, where there is a reference.
unfoldable pub add_next : (ℕ → ℕ → ℕ) → ExtractedMetrics → BetterCollector → Outcome BetterCollector
unfolding add_sample
add_next float_sub metrics c =
    if leb c.max_deltas c.num_samples
    then (c, some overfull)
    else if length metrics.values == length (values_of c.last_sample)
    then add_sample float_sub metrics c
    else (c, some schema_count)

-- Add, of a document.
unfoldable pub add : (ℕ → ℕ → ℕ) → ℕ → Document → BetterCollector → Outcome BetterCollector
unfolding add_reference add_next
add float_sub now doc c = elim c.reference [
  | none ↦ add_reference now doc c
  | some _ ↦ add_next float_sub (extract_from_document now doc) c
]

-- The keys that Resolve writes.
abbrev pub id_key : Text
id_key = b'_' ∷ b'i' ∷ b'd' ∷ []

abbrev pub type_key : Text
type_key = b't' ∷ b'y' ∷ b'p' ∷ b'e' ∷ []

abbrev pub doc_key : Text
doc_key = b'd' ∷ b'o' ∷ b'c' ∷ []

abbrev pub data_key : Text
data_key = b'd' ∷ b'a' ∷ b't' ∷ b'a' ∷ []

-- The datetime that bsonx.EC.Time makes of `startedAt`, which Add has set.
abbrev pub started : Option ℕ → ℕ
started none = 0
started (some ms) = ms

unfoldable pub metadata_document : ℕ → Document → Document
metadata_document id doc =
    element id_key (Value.date_time id)
      (element type_key (Value.int32 0) (element doc_key (Value.document doc) end))

unfoldable pub chunk_document : ℕ → List ℕ → Document
chunk_document id bytes =
    element id_key (Value.date_time id)
      (element type_key (Value.int32 1) (element data_key (Value.binary 0 bytes) end))

-- `if c.metadata != nil`
unfoldable pub with_metadata : ℕ → Option Document → Document → List Document
with_metadata id none chunk = chunk ∷ []
with_metadata id (some m) chunk = metadata_document id m ∷ (chunk ∷ [])

module _ (codec : Codec) where
  -- compressBuffer of util.go; zlib meets no error on a buffer.
  unfoldable pub compress_buffer : List ℕ → List ℕ
  compress_buffer input = encode_size_value (length input % 2 ^ 32) ++ codec.compress input

  -- What getPayload compresses.
  unfoldable pub payload_of : Document → BetterCollector → List ℕ
  payload_of reference c =
      write_deltas c.deltas c.max_deltas c.num_samples (length (values_of c.last_sample)) (
        document_bytes reference
        ++ (encode_size_value (length (values_of c.last_sample) % 2 ^ 32)
            ++ encode_size_value (c.num_samples % 2 ^ 32)))

  unfoldable pub get_payload : Document → BetterCollector → List ℕ
  unfolding compress_buffer
  get_payload reference c = compress_buffer (payload_of reference c)

  -- The documents that Resolve writes one behind the other.
  unfoldable pub written_documents : Document → BetterCollector → List Document
  unfolding with_metadata
  written_documents reference c =
      let id = started c.started_at in
      with_metadata id c.metadata (chunk_document id (get_payload reference c))

  unfoldable pub marshal_all : List Document → List ℕ
  marshal_all [] = []
  marshal_all (d ∷ ds) = document_bytes d ++ marshal_all ds

  -- The calls of WriteTo, one behind the other.
  unfoldable pub write_documents : List Document → Result (List ℕ)
  unfolding marshal_bson
  write_documents [] = ok []
  write_documents (d ∷ ds) = do out ← marshal_bson d; rest ← write_documents ds; ok (out ++ rest)

  -- getPayload returns the error of the reference's WriteTo.
  unfoldable pub resolve : BetterCollector → Result (List ℕ)
  unfolding marshal_bson write_documents
  resolve c = elim c.reference [
    | none ↦ err no_reference
    | some reference ↦ do
      _ ← marshal_bson reference
      write_documents (written_documents reference c)
  ]

  unfoldable pub better_collector : Collector BetterCollector
  unfolding set_metadata add resolve reset info with_document
  better_collector = record {
    set_metadata = λ input c. with_document codec input set_metadata c;
    add = λ now input c. with_document codec input (add codec.float_sub now) c;
    flushable = record { resolve = resolve; reset = reset; info = info };
  }
