-- ===== src/Collector/WriterCollector.antt =====
-- writer.go: a streaming dynamic collector behind an io.WriteCloser.
use ftdc.Bson.Decode.{unmarshal_bson}
use ftdc.Prelude.{ℕ, List, Option, none, some, length}
use ftdc.Result.{Error, ok, err}
use ftdc.Codec.{Codec}
use ftdc.Input.{Outcome}
use ftdc.Collector.Streaming.{Writer}
use ftdc.Collector.StreamingDynamic.{
  StreamingDynamicCollector, new_streaming_dynamic_collector, add_document, flush,
}

-- NewWriterCollector
unfoldable pub new_writer_collector : {W : Type 0} → ℕ → W → StreamingDynamicCollector W
unfolding new_streaming_dynamic_collector
new_writer_collector chunk_size writer = new_streaming_dynamic_collector chunk_size writer

module _ {W : Type 0} (codec : Codec) (writer : Writer W) where
  -- Write: the count that it returns stands beside the error.
  unfoldable pub write :
      ℕ → List ℕ → StreamingDynamicCollector W → StreamingDynamicCollector W × ℕ × Option Error
  unfolding add_document
  write now input w = elim (unmarshal_bson input) [
    | err e ↦ (w, 0, some e)
    | ok doc ↦ let (w', e) = add_document codec writer now doc w in (w', length input, e)
  ]

  -- Close; `close_writer` is the Close of the writer.
  unfoldable pub close :
      (StreamingDynamicCollector W → Outcome (StreamingDynamicCollector W))
      → StreamingDynamicCollector W
      → Outcome (StreamingDynamicCollector W)
  unfolding flush
  close close_writer w =
      let (w', e) = flush codec writer w in
      elim e [ some x ↦ (w', some x) | none ↦ close_writer w' ]
