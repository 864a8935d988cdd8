-- ===== src/Tests/Streams.antt =====
-- The streaming collectors at concrete inputs. The writer appends to a list of bytes.
use ftdc.Prelude.{none}
use ftdc.Bson.{Value, Document, element}
use ftdc.Prelude.{ℕ, ◌+◌, ◌≤◌, ◌<◌, ◌≡◌, ◌⊎◌, refl, List, [], ◌∷◌, ◌++◌, some, arith, length}
use ftdc.Result.{Result, ok}
use ftdc.Bson.{same_type, end}
use ftdc.Metrics.Extract.{extract_from_document, extract_delta}
use ftdc.Series.{get_offset}
use ftdc.Collector.Better.{
  better_collector, new_base_collector, marshal_all, written_documents, chunk_document,
}
use ftdc.Codec.{Codec}
use ftdc.Input.{document, read_document}
use ftdc.Collector.StreamingDynamic.{
  StreamingDynamicCollector, over, new_streaming_dynamic_collector, add_streaming, add_document,
}
use ftdc.Collector.StreamingDynamic.Change.{add_document-changes}
use ftdc.Collector.Streaming
use ftdc.Collector.Streaming.{
  StreamingCollector, new_streaming_collector, inner_collector, flush_collector, add,
}
use ftdc.Collector.Streaming.Count.{taken, add_streaming_lem, count-add}
use ftdc.Tests.ToyCodec.{count_document, toy_codec, reference}

abbrev append_bytes : List ℕ → List ℕ → List ℕ × Result ℕ
append_bytes payload w = (w ++ payload, ok (length payload))

abbrev codec : Codec
codec = toy_codec

abbrev empty_stream : StreamingCollector (List ℕ)
empty_stream = new_streaming_collector 2 []

abbrev one_held : StreamingCollector (List ℕ)
one_held = (add codec (some append_bytes) 10 (document reference) empty_stream).0

abbrev two_flushed : StreamingCollector (List ℕ)
two_flushed = (add codec (some append_bytes) 20 (document (count_document 9)) one_held).0

add_streaming_lem_example :
    ((one_held.count + 1 < one_held.max_samples)
      × (two_flushed ≡ taken codec append_bytes 20 (document (count_document 9)) one_held))
    ⊎ ((payload : List ℕ) × (one_held.max_samples ≤ one_held.count + 1)
        × ((inner_collector codec).resolve
              (taken codec append_bytes 20 (document (count_document 9)) one_held).collector
            ≡ ok payload)
        × (append_bytes payload one_held.output ≡ (two_flushed.output, ok (length payload)))
        × (two_flushed ≡ record one_held {
          output = two_flushed.output;
          count = 0;
          collector =
              (inner_collector codec).reset
                (taken codec append_bytes 20 (document (count_document 9)) one_held).collector;
        }))
unfolding add new_streaming_collector better_collector read_document new_base_collector
    extract_from_document same_type extract_delta get_offset marshal_all written_documents
    chunk_document ftdc.Collector.Better.get_payload ftdc.Varint.encode_size_value
    ftdc.Collector.Better.payload_of ftdc.Series.write_deltas ftdc.Prelude.Loops.for_range
    ftdc.Word.sub64 ftdc.Varint.encode_value
add_streaming_lem_example =
    add_streaming_lem codec append_bytes 20 (document (count_document 9)) one_held two_flushed refl

count-add_example :
    (((inner_collector codec).info one_held.collector).sample_count ≤ one_held.count)
    × (one_held.count < one_held.max_samples)
    × (one_held.max_samples ≡ empty_stream.max_samples)
unfolding new_streaming_collector add better_collector read_document new_base_collector
count-add_example =
    count-add codec append_bytes 10 (document reference) empty_stream one_held (omega arith)
      (omega arith) refl

-- `{a: 4, b: 5}`
abbrev two_counts : Document
two_counts = element (b'a' ∷ []) (Value.int64 4) (element (b'b' ∷ []) (Value.int64 5) end)

abbrev one_streamed : StreamingDynamicCollector (List ℕ)
one_streamed =
    (add_document codec (some append_bytes) 10 reference (new_streaming_dynamic_collector 4 [])).0

abbrev changed : StreamingDynamicCollector (List ℕ)
changed = (add_document codec (some append_bytes) 20 two_counts one_streamed).0

add_document-changes_example :
    (payload : List ℕ) × (w : List ℕ) × (Streaming.resolve codec
        (some append_bytes)
        one_streamed.streaming
      ≡ ok payload)
    × (append_bytes payload one_streamed.streaming.output ≡ (w, ok (length payload)))
    × (add_streaming codec
          (some append_bytes)
          20
          two_counts
          (over (new_streaming_collector one_streamed.streaming.max_samples w))
        ≡ (changed, none))
    × (changed.hash ≡ [])
unfolding add_document new_streaming_dynamic_collector Streaming.info add better_collector
    read_document new_base_collector marshal_all written_documents chunk_document
    ftdc.Collector.Better.get_payload ftdc.Varint.encode_size_value ftdc.Collector.Better.payload_of
    ftdc.Series.write_deltas ftdc.Prelude.Loops.for_range extract_from_document
add_document-changes_example =
    add_document-changes codec append_bytes 20 two_counts one_streamed changed refl refl
      (omega arith) refl
