-- ===== src/Tests/Collectors.antt =====
-- The collectors at concrete inputs.
use ftdc.Prelude.{◌+◌, ◌≡◌, refl, [], ◌∷◌, none, some, arith, length, leb, ◌==◌, if◌then◌else◌}
use ftdc.Result.{overfull, schema_count, schema_types}
use ftdc.Word.{sub64}
use ftdc.Bson.{Value, Document, end, element}
use ftdc.Metrics.Extract.{extract_from_document}
use ftdc.Collector.Better
use ftdc.Collector.Better.{BetterCollector, new_base_collector, values_of, types_of}
use ftdc.Collector.Better.Invariant.{same_types, add_lem, new_base_collector-IsValid, add-IsValid}
use ftdc.Collector.Batch
use ftdc.Collector.Batch.{new_batch_collector, last_chunk}
use ftdc.Collector.Batch.Invariant.{schema_error, new_batch_collector-IsValid, add_batch-IsValid}
use ftdc.Collector.Batch.Add.{add_batch_lem}
use ftdc.Collector.Dynamic
use ftdc.Collector.Dynamic.{new_dynamic_collector}
use ftdc.Collector.Better.Samples.{counted}
use ftdc.Collector.Dynamic.Add.{info-add_dynamic}
use ftdc.Tests.ToyCodec.{count_document, reference, empty_collector}

-- A collector with a reference and no other sample.
abbrev one_sample : BetterCollector
one_sample = (Better.add sub64 10 reference empty_collector).0

-- `{a: 4, b: 5}`
abbrev two_counts : Document
two_counts = element (b'a' ∷ []) (Value.int64 4) (element (b'b' ∷ []) (Value.int64 5) end)

one_sample-IsValid : Better.Invariant.IsValid one_sample
one_sample-IsValid = add-IsValid sub64 10 reference empty_collector (new_base_collector-IsValid 4)

add-IsValid_example : Better.Invariant.IsValid (Better.add sub64 20 (count_document 9) one_sample).0
add-IsValid_example = add-IsValid sub64 20 (count_document 9) one_sample one_sample-IsValid

add_lem_example : (Better.add sub64 20 two_counts one_sample).1 ≡ (
    if leb one_sample.max_deltas one_sample.num_samples
    then some overfull
    else if length (extract_from_document 20 two_counts).values
        == length (values_of one_sample.last_sample)
    then (if same_types
          (extract_from_document 20 two_counts).types
          (types_of one_sample.last_sample)
        then none
        else some schema_types)
    else some schema_count)
unfolding Better.add Better.add_reference new_base_collector
add_lem_example = add_lem sub64 20 two_counts reference one_sample one_sample-IsValid refl

add_batch-IsValid_example :
    Batch.Invariant.IsValid (Batch.add sub64 10 reference (new_batch_collector 2)).0
add_batch-IsValid_example =
    add_batch-IsValid sub64 10 reference (new_batch_collector 2) (new_batch_collector-IsValid 2)

add_batch_lem_example :
    (last : BetterCollector) × (last_chunk
        (Batch.add sub64 10 reference (new_batch_collector 1)).0.chunks
      ≡ some last)
    × ((Batch.add sub64 20
          (count_document 9)
          (Batch.add sub64 10 reference (new_batch_collector 1)).0).1
        ≡ (if leb
              (Batch.add sub64 10 reference (new_batch_collector 1)).0.max_samples
              (Better.info last).sample_count
            then none
            else schema_error (extract_from_document 20 (count_document 9)) last))
    × (length
          (Batch.add sub64 20
            (count_document 9)
            (Batch.add sub64 10 reference (new_batch_collector 1)).0).0.chunks
        ≡ (if leb
              (Batch.add sub64 10 reference (new_batch_collector 1)).0.max_samples
              (Better.info last).sample_count
            then length (Batch.add sub64 10 reference (new_batch_collector 1)).0.chunks + 1
            else length (Batch.add sub64 10 reference (new_batch_collector 1)).0.chunks))
    × ((Batch.info
          (Batch.add sub64 20
            (count_document 9)
            (Batch.add sub64 10 reference (new_batch_collector 1)).0).0).sample_count
        ≡ (Batch.info (Batch.add sub64 10 reference (new_batch_collector 1)).0).sample_count
          + counted
              (Batch.add sub64 20
                (count_document 9)
                (Batch.add sub64 10 reference (new_batch_collector 1)).0).1)
add_batch_lem_example =
    add_batch_lem sub64 20 (count_document 9)
      (Batch.add sub64 10 reference (new_batch_collector 1)).0
      (add_batch-IsValid sub64 10 reference (new_batch_collector 1) (new_batch_collector-IsValid 1))

empty_dynamic-IsValid : Dynamic.Add.IsValid (new_dynamic_collector 2)
unfolding new_dynamic_collector
empty_dynamic-IsValid = record {
  batches = (new_batch_collector-IsValid 2, tt);
  nonempty = omega arith;
}
