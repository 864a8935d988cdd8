-- ===== src/Tests/Values.antt =====
-- Doubles, matrices, uncompressed and sampling collectors at concrete inputs.
use ftdc.Prelude.{ℕ, ◌≡◌, ◌≢◌, refl, List, [], ◌∷◌, none, arith, if◌then◌else◌, ◌&&◌, ◌++◌}
use ftdc.Result.{ok, err, invalid_binary_subtype}
use ftdc.Bson.{BsonType, end, len}
use ftdc.Input.{Input, document}
use ftdc.Metrics.Flatten.{metric}
use ftdc.Collector.Better.{new_base_collector, better_collector}
use ftdc.Collector.Uncompressed
use ftdc.Collector.Uncompressed.{UncompressedCollector, new_uncompressed_collector_bson}
use ftdc.Collector.Uncompressed.Invariant.{
  all_valid, all_bytes, metadata_valid, metadata_bytes, add_uncompressed-IsValid, resolve_bson,
}
use ftdc.Collector.Sample.{new_sampling_collector}
use ftdc.Collector.Sample.Interval.{Spaced, add_each, add_each-Spaced}
use ftdc.Read.{Chunk}
use ftdc.Chunk.Matrix.{export}
use ftdc.Chunk.Matrix.Export.{columns, export-columns}
use ftdc.Tests.ToyCodec.{count_document, toy_codec}

abbrev two_columns : Chunk
two_columns = record {
  metrics =
      record (metric [] (b'a' ∷ []) 5 BsonType.int64) { values = 5 ∷ 6 ∷ [] }
      ∷ record (metric [] (b'b' ∷ []) 0 BsonType.boolean) { values = 0 ∷ 1 ∷ [] }
      ∷ [];
  n_points = 2;
  id = none;
  metadata = none;
  reference = end;
}

export-columns_example : export two_columns ≡ ok (columns two_columns.metrics)
export-columns_example = export-columns two_columns (refl, (refl, tt))

abbrev empty_samples : UncompressedCollector
empty_samples = new_uncompressed_collector_bson 2

abbrev one_stored : UncompressedCollector
one_stored = (Uncompressed.add (count_document 5) empty_samples).0

add_uncompressed-IsValid_example :
    Uncompressed.Invariant.IsValid (Uncompressed.add (count_document 5) empty_samples).0
unfolding new_uncompressed_collector_bson
add_uncompressed-IsValid_example =
    add_uncompressed-IsValid (count_document 5) empty_samples
      (record { within = omega arith; even = tt })

stored : one_stored.samples ≢ []
unfolding Uncompressed.add new_uncompressed_collector_bson len Uncompressed.count_metrics
stored e = cc

resolve_bson_example : Uncompressed.resolve toy_codec one_stored ≡ (
    if metadata_valid one_stored.metadata && all_valid one_stored.samples
    then ok (metadata_bytes one_stored.metadata ++ all_bytes one_stored.samples)
    else err invalid_binary_subtype)
unfolding Uncompressed.add new_uncompressed_collector_bson len Uncompressed.count_metrics
resolve_bson_example = resolve_bson toy_codec one_stored refl refl stored

abbrev calls : List (ℕ × Input)
calls =
    (100, document (count_document 5))
    ∷ (104, document (count_document 6))
    ∷ (110, document (count_document 7))
    ∷ []

add_each-Spaced_example :
    Spaced 10
      (add_each
        (better_collector toy_codec)
        calls
        (new_sampling_collector 10 ([], new_base_collector 4))).collector.0
add_each-Spaced_example =
    add_each-Spaced (better_collector toy_codec) 10 calls (new_base_collector 4)
