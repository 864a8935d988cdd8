-- ===== src/Collector/Streaming/Count.antt =====
-- The number of samples that a streamingCollector (collector_streaming.go) holds back.
use ftdc.Prelude.{
  ℕ, ◌+◌, ◌≤◌, ◌<◌, ◌≡◌, refl, List, [], ◌∷◌, none, some, leb, if◌then◌else◌, arith, length,
  length-append, Bool-cases, inl, inr, ◌⊎◌,
}
use ftdc.Result.{Result, ok, Result-cases}
use ftdc.Bson.{Document}
use ftdc.Codec.{Codec}
use ftdc.Input.{Input, read_document, Outcome, with_document}
use ftdc.Collector.Better
use ftdc.Collector.Better.{BetterCollector, better_collector}
use ftdc.Collector.Better.Samples.{counted, info-add}
use ftdc.Collector.Uncompressed
use ftdc.Collector.Uncompressed.{UncompressedCollector, uncompressed_collector}
use ftdc.Collector.Streaming.{
  Inner, better, uncompressed, inner_collector, StreamingCollector, to_output, flush, flushable,
  add, reset, info, resolve,
}
use ftdc.Collector.Streaming.Flush.{flush_collector_lem}

with_document_inv :
    {S : Type 0} (codec : Codec) (input : Input) (method : Document → S → Outcome S) (s : S)
    → (with_document codec input method s).1 ≡ none
    → (doc : Document) × (with_document codec input method s ≡ method doc s)
unfolding with_document
with_document_inv codec input method s h = elim (Result-cases (read_document codec input)) [
  | inl (doc, e) ↦ (doc, rw (e, with_document) refl)
  | inr (x, e) ↦ absurd (ground (arith, h, e))
]

better_counts :
    (codec : Codec) (now : ℕ) (doc : Document) (c : BetterCollector)
    → (Better.add codec.float_sub now doc c).1 ≡ none
    → 1 ≤ (Better.info (Better.add codec.float_sub now doc c).0).sample_count
unfolding counted
better_counts codec now doc c h = ground (arith, info-add codec.float_sub now doc c, h)

uncompressed_counts :
    (doc : Document) (c : UncompressedCollector)
    → (Uncompressed.add doc c).1 ≡ none
    → 1 ≤ length (Uncompressed.add doc c).0.samples
unfolding Uncompressed.add
uncompressed_counts doc c h =
    ground (arith, h, length-append (Uncompressed.count_metrics doc c).samples (doc ∷ []))

-- A collector that has taken a sample has one.
inner_counts :
    (codec : Codec) (now : ℕ) (input : Input) (s : Inner)
    → ((inner_collector codec).add now input s).1 ≡ none
    → 1 ≤ ((inner_collector codec).info ((inner_collector codec).add now input s).0).sample_count
unfolding inner_collector better_collector uncompressed_collector Uncompressed.info
inner_counts codec now input (better c) h =
    let (doc, e) = with_document_inv codec input (Better.add codec.float_sub now) c h in
    rw e (better_counts codec now doc c (rw e at h))
inner_counts codec now input (uncompressed c) h =
    let (doc, e) = with_document_inv codec input Uncompressed.add c h in
    rw e (uncompressed_counts doc c (rw e at h))

uncompressed_more :
    (doc : Document) (c : UncompressedCollector)
    → length (Uncompressed.add doc c).0.samples ≤ length c.samples + 1
unfolding Uncompressed.add Uncompressed.count_metrics
uncompressed_more doc c = ground (arith, length-append c.samples (doc ∷ []))

better_more :
    (codec : Codec) (now : ℕ) (doc : Document) (c : BetterCollector)
    → (Better.info (Better.add codec.float_sub now doc c).0).sample_count
      ≤ (Better.info c).sample_count + 1
unfolding counted
better_more codec now doc c = ground (arith, info-add codec.float_sub now doc c)

-- A collector takes one sample at most, and has none behind a Reset.
inner_more :
    (codec : Codec) (now : ℕ) (input : Input) (s : Inner)
    → ((inner_collector codec).add now input s).1 ≡ none
    → ((inner_collector codec).info ((inner_collector codec).add now input s).0).sample_count
      ≤ ((inner_collector codec).info s).sample_count + 1
unfolding inner_collector better_collector uncompressed_collector Uncompressed.info
inner_more codec now input (better c) h =
    let (doc, e) = with_document_inv codec input (Better.add codec.float_sub now) c h in
    rw e (better_more codec now doc c)
inner_more codec now input (uncompressed c) h =
    let (doc, e) = with_document_inv codec input Uncompressed.add c h in
    rw e (uncompressed_more doc c)

inner_reset :
    (codec : Codec) (s : Inner)
    → ((inner_collector codec).info ((inner_collector codec).reset s)).sample_count ≡ 0
unfolding inner_collector better_collector uncompressed_collector Uncompressed.info Better.info
    Better.reset Uncompressed.reset
inner_reset codec (better c) = ground arith
inner_reset codec (uncompressed c) = refl

module _ {W : Type 0} (codec : Codec) (write : List ℕ → W → W × Result ℕ) where
  -- The collector behind the Add of the collector that it wraps.
  abbrev pub taken : ℕ → Input → StreamingCollector W → StreamingCollector W
  taken now input c = record c {
    collector = ((inner_collector codec).add now input c.collector).0;
    count = c.count + 1;
  }

  add_taken :
      (now : ℕ) (input : Input) (c c' : StreamingCollector W)
      → add codec (some write) now input c ≡ (c', none)
      → (((inner_collector codec).add now input c.collector).1 ≡ none)
        × ((if leb c.max_samples (c.count + 1)
              then flush codec (some write) (taken now input c)
              else (taken now input c, none))
            ≡ (c', none))
  unfolding add
  add_taken now input c c' h = (ground (arith, h), ground (arith, h))

  abbrev into_output : List ℕ → StreamingCollector W → StreamingCollector W × Result ℕ
  into_output payload c = let (w, r) = write payload c.output in (record c { output = w }, r)

  flushed :
      (c c' : StreamingCollector W)
      → 1 ≤ ((inner_collector codec).info c.collector).sample_count
      → flush codec (some write) c ≡ (c', none)
      → (payload : List ℕ) × ((inner_collector codec).resolve c.collector ≡ ok payload)
        × (write payload c.output ≡ (c'.output, ok (length payload)))
        × (c' ≡ record c {
          output = c'.output;
          count = 0;
          collector = (inner_collector codec).reset c.collector;
        })
  unfolding flush flushable info resolve reset to_output
  flushed c c' some_samples h =
      elim (flush_collector_lem (flushable codec (some write)) into_output c c' h) [
        | inl (e, _) ↦ absurd (omega (arith, e))
        | inr (payload, s, r, w, t) ↦ (payload, r, ground (arith, w, t), ground (arith, w, t))
      ]

  -- An Add of a streamingCollector that returns nil has either kept the document, where there is
  -- room for another one behind it, or the writer has taken all of the bytes that Resolve returned
  -- with the document in, and the collector was reset.
  pub add_streaming_lem :
      (now : ℕ) (input : Input) (c c' : StreamingCollector W)
      → add codec (some write) now input c ≡ (c', none)
      → ((c.count + 1 < c.max_samples) × (c' ≡ taken now input c))
        ⊎ ((payload : List ℕ) × (c.max_samples ≤ c.count + 1)
            × ((inner_collector codec).resolve (taken now input c).collector ≡ ok payload)
            × (write payload c.output ≡ (c'.output, ok (length payload)))
            × (c' ≡ record c {
              output = c'.output;
              count = 0;
              collector = (inner_collector codec).reset (taken now input c).collector;
            }))
  add_streaming_lem now input c c' h =
      let (one, next) = add_taken now input c c' h in
      elim (Bool-cases (leb c.max_samples (c.count + 1))) [
        | inl full ↦
            let h' : flush codec (some write) (taken now input c) ≡ (c', none) = rw full at next in
            let (payload, r, w, t) =
              flushed (taken now input c) c' (inner_counts codec now input c.collector one) h' in
            inr (payload, ground (arith, full), r, w, t)
        | inr room ↦ inl (ground (arith, room), ground (arith, next, room))
      ]

  -- Behind an Add that returns nil, a streamingCollector with room for one sample at least holds
  -- fewer samples than it flushes at, and its count is at least the number of samples that the
  -- collector in it holds, where it was before.
  pub count-add :
      (now : ℕ) (input : Input) (c c' : StreamingCollector W)
      → 1 ≤ c.max_samples
      → ((inner_collector codec).info c.collector).sample_count ≤ c.count
      → add codec (some write) now input c ≡ (c', none)
      → (((inner_collector codec).info c'.collector).sample_count ≤ c'.count)
        × (c'.count < c'.max_samples)
        × (c'.max_samples ≡ c.max_samples)
  count-add now input c c' one held h =
      let (added, _) = add_taken now input c c' h in
      elim (add_streaming_lem now input c c' h) [
        | inl (room, e) ↦
            let more = inner_more codec now input c.collector added in
            rw e ((omega (arith, more, held)), room, refl)
        | inr (payload, full, r, w, e) ↦
            let none_left = inner_reset codec (taken now input c).collector in
            rw e (omega (arith, none_left), one, refl)
      ]
