-- ===== src/Collector/StreamingDynamic/Change.antt =====
-- What the streaming dynamic collector (collector_streaming.go) does where the schema changes.
use ftdc.Prelude.{
  ℕ, ◌≤◌, ◌≡◌, List, [], none, some, Bool, true, false, not, ◌==◌, ◌||◌, arith, length, inl, inr,
}
use ftdc.Result.{Result, ok}
use ftdc.Bson.{Document}
use ftdc.Bson.Lookup.{same_text}
use ftdc.Codec.{Codec}
use ftdc.Metrics.Hash.{metric_key_hash}
use ftdc.Collector.Dynamic.{is_empty}
use ftdc.Collector.Streaming
use ftdc.Collector.Streaming.{new_streaming_collector}
use ftdc.Collector.Streaming.Flush.{flush_collector_lem}
use ftdc.Collector.StreamingDynamic.{
  StreamingDynamicCollector, over, reset, to_stream, flushable, flush, add_streaming, flush_and_add,
  add_document,
}

module _ {W : Type 0} (codec : Codec) (write : List ℕ → W → W × Result ℕ) where
  -- The document's hash or number of metrics is not the collector's.
  abbrev pub changes : Document → StreamingDynamicCollector W → Bool
  changes doc c =
      let (doc_hash, num) = metric_key_hash codec doc in
      not (c.metric_count == num) || not (same_text c.hash doc_hash)

  abbrev into_stream : List ℕ → StreamingDynamicCollector W → StreamingDynamicCollector W × Result ℕ
  into_stream payload c =
      let (w, r) = write payload c.streaming.output in
      (record c { streaming = record c.streaming { output = w } }, r)

  flush_and_add_inv :
      (now : ℕ) (doc : Document) (c c' : StreamingDynamicCollector W)
      → flush_and_add codec (some write) now doc c ≡ (c', none)
      → (flush codec (some write) c ≡ ((flush codec (some write) c).0, none))
        × (add_streaming codec (some write) now doc (flush codec (some write) c).0 ≡ (c', none))
  unfolding flush_and_add
  flush_and_add_inv now doc c c' h = ground arith

  flushed :
      (c d : StreamingDynamicCollector W)
      → 1 ≤ (Streaming.info codec (some write) c.streaming).sample_count
      → flush codec (some write) c ≡ (d, none)
      → (payload : List ℕ) × (w : W) × (Streaming.resolve codec (some write) c.streaming
          ≡ ok payload)
        × (write payload c.streaming.output ≡ (w, ok (length payload)))
        × (d ≡ over (new_streaming_collector c.streaming.max_samples w))
  unfolding flush flushable to_stream reset
  flushed c d some_samples h =
      elim (flush_collector_lem (flushable codec (some write)) into_stream c d h) [
        | inl (e, _) ↦ absurd (omega (arith, e))
        | inr (payload, s, r, w, t) ↦ (
          payload,
          (write payload c.streaming.output).0,
          r,
          ground (arith, w),
          ground (arith, w, t),
        )
      ]

  add_streaming-hash :
      (now : ℕ) (doc : Document) (c c' : StreamingDynamicCollector W)
      → add_streaming codec (some write) now doc c ≡ (c', none)
      → c'.hash ≡ c.hash
  unfolding add_streaming
  add_streaming-hash now doc c c' h = ground (arith, h)

  changing :
      (now : ℕ) (doc : Document) (c c' : StreamingDynamicCollector W)
      → is_empty c.hash ≡ false
      → changes doc c ≡ true
      → add_document codec (some write) now doc c ≡ (c', none)
      → flush_and_add codec (some write) now doc c ≡ (c', none)
  unfolding add_document
  changing now doc c c' set change h = rw (set, change) at h

  -- An Add of a streamingDynamicCollector that has a hash and a sample, with a document of another
  -- hash or number of metrics, that returns nil: the writer has taken all of the bytes that Resolve
  -- returned, the document was added to a new streamingCollector over a betterCollector and the
  -- same writer, and the hash is empty.
  pub add_document-changes :
      (now : ℕ) (doc : Document) (c c' : StreamingDynamicCollector W)
      → is_empty c.hash ≡ false
      → changes doc c ≡ true
      → 1 ≤ (Streaming.info codec (some write) c.streaming).sample_count
      → add_document codec (some write) now doc c ≡ (c', none)
      → (payload : List ℕ) × (w : W) × (Streaming.resolve codec (some write) c.streaming
          ≡ ok payload)
        × (write payload c.streaming.output ≡ (w, ok (length payload)))
        × (add_streaming codec
              (some write)
              now
              doc
              (over (new_streaming_collector c.streaming.max_samples w))
            ≡ (c', none))
        × (c'.hash ≡ [])
  add_document-changes now doc c c' set change some_samples h =
      let (one, two) = flush_and_add_inv now doc c c' (changing now doc c c' set change h) in
      let (payload, w, r, x, d) = flushed c (flush codec (some write) c).0 some_samples one in
      let two' = rw d at two in (payload, w, r, x, two', add_streaming-hash now doc _ c' two')
