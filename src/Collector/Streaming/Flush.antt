-- ===== src/Collector/Streaming/Flush.antt =====
-- FlushCollector (collector_streaming.go), by its result.
use ftdc.Prelude.{ℕ, ◌≡◌, List, none, some, ◌==◌, arith, length, Bool-cases, inl, inr, ◌⊎◌}
use ftdc.Result.{Result, ok, err, Result-cases}
use ftdc.Collector.Interface.{Flushable}
use ftdc.Collector.Streaming.{after_write, flush_collector}

module _ {T : Type 0} (c : Flushable T) where
  after_write_inv :
      (payload : List ℕ) (r : T × Result ℕ) (t : T)
      → after_write c payload r ≡ (t, none)
      → (r ≡ (r.0, ok (length payload))) × (t ≡ c.reset r.0)
  unfolding after_write
  after_write_inv payload (s, ok n) t h = ground arith
  after_write_inv payload (s, err e) t h = cc

  -- FlushCollector to a writer returns nil where there is nothing to write, and then nothing has
  -- changed, or where the writer took all of the bytes that Resolve returned, and then the
  -- collector was reset.
  pub flush_collector_lem :
      (write : List ℕ → T → T × Result ℕ) (t t' : T)
      → flush_collector c (some write) t ≡ (t', none)
      → (((c.info t).sample_count ≡ 0) × (t' ≡ t))
        ⊎ ((payload : List ℕ) × (s : T) × (c.resolve t ≡ ok payload)
            × (write payload t ≡ (s, ok (length payload)))
            × (t' ≡ c.reset s))
  unfolding flush_collector
  flush_collector_lem write t t' h = elim (Bool-cases ((c.info t).sample_count == 0)) [
    | inl e ↦ inl (ground (arith, e), ground (arith, h, e))
    | inr e ↦ elim (Result-cases (c.resolve t)) [
      | inl (payload, p) ↦
          let h' : after_write c payload (write payload t) ≡ (t', none) = ground (arith, h, e, p) in
          let (q, r) = after_write_inv payload (write payload t) t' h' in
          inr (payload, (write payload t).0, p, q, r)
      | inr (x, p) ↦ absurd (ground (arith, h, e, p))
    ]
  ]
