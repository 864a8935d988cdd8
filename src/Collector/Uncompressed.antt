-- ===== src/Collector/Uncompressed.antt =====
-- collector_uncompressed.go: the samples as a stream of BSON or of JSON documents.
pub mod Invariant
use ftdc.Prelude.{
  ℕ, List, [], ◌∷◌, ◌++◌, Option, none, some, Bool, true, false, not, leb, ◌==◌, if◌then◌else◌,
  length,
}
use ftdc.Result.{
  Result, ok, err, ◌>>=◌, schema_change, overfull, no_data, not_configured, bad_configuration,
}
use ftdc.Bson.{Document, len}
use ftdc.Bson.Encode.{marshal_bson}
use ftdc.Codec.{Codec}
use ftdc.Input.{Outcome, with_document}
use ftdc.Collector.Interface.{CollectorInfo, Collector}

pub record UncompressedCollector : Type 0 where
  pub export_bson : Bool
  pub export_json : Bool
  pub batch_size : ℕ
  pub metric_count : ℕ
  pub metadata : Option Document
  pub samples : List Document

-- NewUncompressedCollectorJSON
unfoldable pub new_uncompressed_collector_json : ℕ → UncompressedCollector
new_uncompressed_collector_json max_samples = record {
  export_bson = false;
  export_json = true;
  batch_size = max_samples;
  metric_count = 0;
  metadata = none;
  samples = [];
}

-- NewUncompressedCollectorBSON
unfoldable pub new_uncompressed_collector_bson : ℕ → UncompressedCollector
new_uncompressed_collector_bson max_samples = record {
  export_bson = true;
  export_json = false;
  batch_size = max_samples;
  metric_count = 0;
  metadata = none;
  samples = [];
}

unfoldable pub reset : UncompressedCollector → UncompressedCollector
reset c = record c { samples = []; metric_count = 0 }

unfoldable pub info : UncompressedCollector → CollectorInfo
info c = record { metrics_count = c.metric_count; sample_count = length c.samples }

unfoldable pub set_metadata : Document → UncompressedCollector → Outcome UncompressedCollector
set_metadata doc c = (record c { metadata = some doc }, none)

-- `if c.metricCount == 0 { c.metricCount = doc.Len() }`
unfoldable pub count_metrics : Document → UncompressedCollector → UncompressedCollector
unfolding len
count_metrics doc c = if c.metric_count == 0 then record c { metric_count = len doc } else c

-- Add, of a document.
unfoldable pub add : Document → UncompressedCollector → Outcome UncompressedCollector
unfolding count_metrics len
add doc c =
    let c' = count_metrics doc c in
    if len doc == c'.metric_count
    then (if leb c'.batch_size (length c'.samples)
        then (c', some overfull)
        else (record c' { samples = c'.samples ++ (doc ∷ []) }, none))
    else (c', some schema_change)

abbrev same_bool : Bool → Bool → Bool
same_bool true b = b
same_bool false b = not b

module _ (codec : Codec) where
  -- marshalWrite: what is written into the buffer.
  unfoldable pub marshal_write : UncompressedCollector → Document → Result (List ℕ)
  unfolding marshal_bson
  marshal_write c doc =
      if same_bool c.export_bson c.export_json
      then err not_configured
      else if c.export_bson
      then marshal_bson doc
      else if c.export_json
      then (do data_ ← codec.ext_json doc; ok (data_ ++ (10 ∷ [])))
      else err bad_configuration

  -- The loop of Resolve.
  unfoldable pub write_samples : UncompressedCollector → List Document → Result (List ℕ)
  unfolding marshal_write
  write_samples c [] = ok []
  write_samples c (d ∷ ds) = do out ← marshal_write c d; rest ← write_samples c ds; ok (out ++ rest)

  abbrev with_metadata : Option Document → List Document → List Document
  with_metadata none ds = ds
  with_metadata (some m) ds = m ∷ ds

  unfoldable pub resolve : UncompressedCollector → Result (List ℕ)
  unfolding write_samples
  resolve c =
      if length c.samples == 0
      then err no_data
      else write_samples c (with_metadata c.metadata c.samples)

  unfoldable pub uncompressed_collector : Collector UncompressedCollector
  unfolding with_document set_metadata add resolve reset info
  uncompressed_collector = record {
    set_metadata = λ input c. with_document codec input set_metadata c;
    add = λ now input c. with_document codec input add c;
    flushable = record { resolve = resolve; reset = reset; info = info };
  }
