-- ===== src/Collector/StreamingDynamic.antt =====
-- collector_streaming.go: the streaming collector that flushes where the schema changes. Its writer
-- is also the one of the streamingCollector in it, whose `output` stands for both.
pub mod Change
use ftdc.Prelude.{ℕ, [], none, some, not, ltb, ◌==◌, ◌||◌, if◌then◌else◌}
use ftdc.Bson.{Text, Document}
use ftdc.Bson.Lookup.{same_text}
use ftdc.Codec.{Codec}
use ftdc.Input.{Input, document, Outcome, with_document}
use ftdc.Metrics.Hash.{metric_key_hash}
use ftdc.Collector.Interface.{Flushable}
use ftdc.Collector.Dynamic.{is_empty}
use ftdc.Collector.Streaming
use ftdc.Collector.Streaming.{
  Writer, StreamingCollector, new_streaming_collector, new_streaming_uncompressed_collector_json,
  new_streaming_uncompressed_collector_bson, flush_collector, to_output,
}

pub record StreamingDynamicCollector (W : Type 0) : Type 0 where
  pub hash : Text
  pub metric_count : ℕ
  pub streaming : StreamingCollector W

abbrev pub over : {W : Type 0} → StreamingCollector W → StreamingDynamicCollector W
over s = record { hash = []; metric_count = 0; streaming = s }

-- NewStreamingDynamicCollector
unfoldable pub new_streaming_dynamic_collector : {W : Type 0} → ℕ → W → StreamingDynamicCollector W
unfolding new_streaming_collector
new_streaming_dynamic_collector max writer = over (new_streaming_collector max writer)

-- NewStreamingDynamicUncompressedCollectorBSON
unfoldable pub new_streaming_dynamic_uncompressed_collector_bson :
    {W : Type 0} → ℕ → W → StreamingDynamicCollector W
unfolding new_streaming_uncompressed_collector_bson
new_streaming_dynamic_uncompressed_collector_bson max writer =
    over (new_streaming_uncompressed_collector_bson max writer)

-- NewStreamingDynamicUncompressedCollectorJSON
unfoldable pub new_streaming_dynamic_uncompressed_collector_json :
    {W : Type 0} → ℕ → W → StreamingDynamicCollector W
unfolding new_streaming_uncompressed_collector_json
new_streaming_dynamic_uncompressed_collector_json max writer =
    over (new_streaming_uncompressed_collector_json max writer)

unfoldable pub reset : {W : Type 0} → StreamingDynamicCollector W → StreamingDynamicCollector W
unfolding new_streaming_collector
reset c = over (new_streaming_collector c.streaming.max_samples c.streaming.output)

-- Write to the collector's `output`.
unfoldable pub to_stream : {W : Type 0} → Writer W → Writer (StreamingDynamicCollector W)
to_stream none = none
to_stream (some write) = some λ payload c.
    let (w, r) = write payload c.streaming.output in
    (record c { streaming = record c.streaming { output = w } }, r)

module _ {W : Type 0} (codec : Codec) (write : Writer W) where
  unfoldable pub flushable : Flushable (StreamingDynamicCollector W)
  unfolding reset
  flushable = record {
    resolve = λ c. Streaming.resolve codec write c.streaming;
    reset = reset;
    info = λ c. Streaming.info codec write c.streaming;
  }

  unfoldable pub flush : StreamingDynamicCollector W → Outcome (StreamingDynamicCollector W)
  unfolding flush_collector flushable to_stream
  flush c = flush_collector flushable (to_stream write) c

  -- `return errors.WithStack(c.streamingCollector.Add(doc))`
  unfoldable pub add_streaming :
      ℕ → Document → StreamingDynamicCollector W → Outcome (StreamingDynamicCollector W)
  add_streaming now doc c =
      let (s, e) = Streaming.add codec write now (document doc) c.streaming in
      (record c { streaming = s }, e)

  -- A flush, an error of which is returned, and then `add_streaming`.
  unfoldable pub flush_and_add :
      ℕ → Document → StreamingDynamicCollector W → Outcome (StreamingDynamicCollector W)
  unfolding flush add_streaming
  flush_and_add now doc c =
      let (c', e) = flush c in elim e [ some x ↦ (c', some x) | none ↦ add_streaming now doc c' ]

  -- Add, of a document.
  unfoldable pub add_document :
      ℕ → Document → StreamingDynamicCollector W → Outcome (StreamingDynamicCollector W)
  unfolding metric_key_hash same_text flush_and_add add_streaming
  add_document now doc c =
      let (doc_hash, num) = metric_key_hash codec doc in
      if is_empty c.hash
      then (let c' = record c { hash = doc_hash; metric_count = num } in
          if ltb 0 c'.streaming.count then flush_and_add now doc c' else add_streaming now doc c')
      else if not (c.metric_count == num) || not (same_text c.hash doc_hash)
      then flush_and_add now doc c
      else add_streaming now doc c

  unfoldable pub add :
      ℕ → Input → StreamingDynamicCollector W → Outcome (StreamingDynamicCollector W)
  unfolding with_document add_document
  add now input c = with_document codec input (add_document now) c
