-- ===== src/Collector/Streaming.antt =====
-- collector_streaming.go: FlushCollector, and the collector that flushes to a writer when it is full.
pub mod Flush
pub mod Count
use ftdc.Prelude.{ℕ, ◌+◌, List, Option, none, some, leb, ◌==◌, if◌then◌else◌, length}
use ftdc.Result.{Result, ok, err, invalid_writer, short_write}
use ftdc.Codec.{Codec}
use ftdc.Input.{Input, Outcome}
use ftdc.Collector.Interface.{CollectorInfo, Flushable, Collector}
use ftdc.Collector.Better.{BetterCollector, new_base_collector, better_collector}
use ftdc.Collector.Uncompressed.{
  UncompressedCollector, uncompressed_collector, new_uncompressed_collector_json,
  new_uncompressed_collector_bson,
}

-- How io.Writer.Write changes the state `T` that the writer is a part of; the number of bytes
-- written, or an error. `none` is a nil writer.
abbrev pub Writer : Type 0 → Type 0
Writer T = Option (List ℕ → T → T × Result ℕ)

module _ {T : Type 0} (c : Flushable T) where
  -- FlushCollector behind `writer.Write(payload)`.
  unfoldable pub after_write : List ℕ → T × Result ℕ → Outcome T
  after_write payload (t, ok n) =
      if n == length payload then (c.reset t, none) else (t, some short_write)
  after_write payload (t, err e) = (t, some e)

  -- FlushCollector, of a collector and a writer in the state `t`.
  unfoldable pub flush_collector : Writer T → T → Outcome T
  unfolding after_write
  flush_collector none t = (t, some invalid_writer)
  flush_collector (some write) t =
      if (c.info t).sample_count == 0 then (t, none) else elim (c.resolve t) [
        | err e ↦ (t, some e)
        | ok payload ↦ after_write payload (write payload t)
      ]

-- The collectors that a streamingCollector is built over.
pub data Inner : Type 0 where
  better : BetterCollector → Inner
  uncompressed : UncompressedCollector → Inner

abbrev into : {A B : Type 0} → (A → B) → Outcome A → Outcome B
into f (a, e) = (f a, e)

-- The method of the collector that the interface value holds.
unfoldable pub inner_collector : Codec → Collector Inner
inner_collector codec = record {
  set_metadata = λ input. elim [
    | better c ↦ into better ((better_collector codec).set_metadata input c)
    | uncompressed c ↦ into uncompressed ((uncompressed_collector codec).set_metadata input c)
  ];
  add = λ now input. elim [
    | better c ↦ into better ((better_collector codec).add now input c)
    | uncompressed c ↦ into uncompressed ((uncompressed_collector codec).add now input c)
  ];
  flushable = record {
    resolve = elim [
      | better c ↦ (better_collector codec).resolve c
      | uncompressed c ↦ (uncompressed_collector codec).resolve c
    ];
    reset = elim [
      | better c ↦ better ((better_collector codec).reset c)
      | uncompressed c ↦ uncompressed ((uncompressed_collector codec).reset c)
    ];
    info = elim [
      | better c ↦ (better_collector codec).info c
      | uncompressed c ↦ (uncompressed_collector codec).info c
    ];
  };
}

-- `W` is the state of the writer.
pub record StreamingCollector (W : Type 0) : Type 0 where
  pub output : W
  pub max_samples : ℕ
  pub count : ℕ
  pub collector : Inner

-- NewStreamingCollector, newStreamingCollector
unfoldable pub new_streaming_collector : {W : Type 0} → ℕ → W → StreamingCollector W
new_streaming_collector max_samples writer = record {
  output = writer;
  max_samples = max_samples;
  count = 0;
  collector = better (new_base_collector max_samples);
}

-- NewStreamingUncompressedCollectorJSON
unfoldable pub new_streaming_uncompressed_collector_json :
    {W : Type 0} → ℕ → W → StreamingCollector W
new_streaming_uncompressed_collector_json max_samples writer = record {
  output = writer;
  max_samples = max_samples;
  count = 0;
  collector = uncompressed (new_uncompressed_collector_json max_samples);
}

-- NewStreamingUncompressedCollectorBSON
unfoldable pub new_streaming_uncompressed_collector_bson :
    {W : Type 0} → ℕ → W → StreamingCollector W
new_streaming_uncompressed_collector_bson max_samples writer = record {
  output = writer;
  max_samples = max_samples;
  count = 0;
  collector = uncompressed (new_uncompressed_collector_bson max_samples);
}

-- Write to the collector's `output`.
unfoldable pub to_output : {W : Type 0} → Writer W → Writer (StreamingCollector W)
to_output none = none
to_output (some write) =
    some λ payload c. let (w, r) = write payload c.output in (record c { output = w }, r)

module _ {W : Type 0} (codec : Codec) (write : Writer W) where
  unfoldable pub set_metadata : Input → StreamingCollector W → Outcome (StreamingCollector W)
  unfolding inner_collector
  set_metadata input c =
      let (s, e) = (inner_collector codec).set_metadata input c.collector in
      (record c { collector = s }, e)

  unfoldable pub reset : StreamingCollector W → StreamingCollector W
  unfolding inner_collector
  reset c = record c { count = 0; collector = (inner_collector codec).reset c.collector }

  unfoldable pub info : StreamingCollector W → CollectorInfo
  unfolding inner_collector
  info c = (inner_collector codec).info c.collector

  unfoldable pub resolve : StreamingCollector W → Result (List ℕ)
  unfolding inner_collector
  resolve c = (inner_collector codec).resolve c.collector

  unfoldable pub flushable : Flushable (StreamingCollector W)
  unfolding reset info resolve
  flushable = record { resolve = resolve; reset = reset; info = info }

  unfoldable pub flush : StreamingCollector W → Outcome (StreamingCollector W)
  unfolding flush_collector flushable to_output
  flush c = flush_collector flushable (to_output write) c

  unfoldable pub add : ℕ → Input → StreamingCollector W → Outcome (StreamingCollector W)
  unfolding inner_collector flush
  add now input c =
      let (s, e) = (inner_collector codec).add now input c.collector in
      elim e [
        | some x ↦ (record c { collector = s }, some x)
        | none ↦
            let c' = record c { collector = s; count = c.count + 1 } in
            if leb c'.max_samples c'.count then flush c' else (c', none)
      ]
