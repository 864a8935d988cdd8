-- ===== src/Collector/Dynamic/Add.antt =====
-- Add of a dynamicCollector (collector_dynamic.go): which batch takes the document, and the hash.
use ftdc.Prelude.{ℕ, ◌+◌, ◌≤◌, ◌≡◌, refl, List, [], ◌∷◌, ◌++◌, arith, length}
use ftdc.Word.{All, All-append}
use ftdc.Bson.{Document}
use ftdc.Codec.{Codec}
use ftdc.Input.{Outcome}
use ftdc.Collector.Better.Samples.{counted}
use ftdc.Collector.Better
use ftdc.Collector.Batch
use ftdc.Collector.Batch.{BatchCollector, new_batch_collector, sum_info, at_first, at_last}
use ftdc.Collector.Batch.Invariant.{
  add_batch-IsValid, new_batch_collector-IsValid, at_last-All, length-at_last, append_nonempty,
}
use ftdc.Collector.Batch.Add.{info-add_batch}
use ftdc.Collector.Dynamic.{DynamicCollector, new_dynamic_collector, info, add}

pub record IsValid (c : DynamicCollector) : Type 0 where
  pub batches : All Batch.Invariant.IsValid c.chunks
  pub nonempty : 1 ≤ length c.chunks

at_first-All :
    {A : Type 0} (P : A → Type 0) (f : A → Outcome A) (cs : List A)
    → ((c : A) → P c → P (f c).0)
    → All P cs
    → All P (at_first f cs).0
unfolding at_first
at_first-All P f [] step h = tt
at_first-All P f (c ∷ cs) step h = (step c h.0, h.1)

length-at_first :
    {A : Type 0} (f : A → Outcome A) (cs : List A) → length (at_first f cs).0 ≡ length cs
unfolding at_first
length-at_first f [] = refl
length-at_first f (c ∷ cs) = refl

pub new_dynamic_collector-IsValid : (n : ℕ) → IsValid (new_dynamic_collector n)
unfolding new_dynamic_collector
new_dynamic_collector-IsValid n = record {
  batches = (new_batch_collector-IsValid n, tt);
  nonempty = omega arith;
}

module _ (codec : Codec) (now : ℕ) (doc : Document) where
  -- Add keeps the batches of a dynamicCollector well-formed, and at least one of them.
  pub add_dynamic-IsValid : (c : DynamicCollector) → IsValid c → IsValid (add codec now doc c).0
  unfolding add
  add_dynamic-IsValid c v =
      let f = Batch.add codec.float_sub now doc in
      let step = λ (b : BatchCollector) (h : Batch.Invariant.IsValid b).
        add_batch-IsValid codec.float_sub now doc b h in
      let new = step _ (new_batch_collector-IsValid c.max_samples) in
      let first = at_first-All Batch.Invariant.IsValid f c.chunks step v.batches in
      let last = at_last-All Batch.Invariant.IsValid f c.chunks step v.batches in
      let more =
        All-append Batch.Invariant.IsValid c.chunks ((f (new_batch_collector c.max_samples)).0 ∷ [])
          v.batches (new, tt) in
      ground (
        arith,
        first,
        last,
        more,
        length-at_first f c.chunks,
        length-at_last f c.chunks,
        append_nonempty c.chunks (f (new_batch_collector c.max_samples)).0,
      )

  abbrev samples : List BatchCollector → ℕ
  samples cs = (sum_info Batch.info cs).sample_count

  samples-append :
      (cs : List BatchCollector) (c : BatchCollector)
      → samples (cs ++ (c ∷ [])) ≡ samples cs + (Batch.info c).sample_count
  unfolding sum_info
  samples-append [] c = omega arith
  samples-append (d ∷ cs) c = omega (arith, samples-append cs c)

  samples-at_first :
      (cs : List BatchCollector)
      → All Batch.Invariant.IsValid cs
      → 1 ≤ length cs
      → samples (at_first (Batch.add codec.float_sub now doc) cs).0
        ≡ samples cs + counted (at_first (Batch.add codec.float_sub now doc) cs).1
  unfolding sum_info at_first
  samples-at_first [] h l = absurd (omega arith)
  samples-at_first (c ∷ cs) h l = omega (arith, info-add_batch codec.float_sub now doc c h.0)

  samples-at_last :
      (cs : List BatchCollector)
      → All Batch.Invariant.IsValid cs
      → 1 ≤ length cs
      → samples (at_last (Batch.add codec.float_sub now doc) cs).0
        ≡ samples cs + counted (at_last (Batch.add codec.float_sub now doc) cs).1
  unfolding sum_info at_last
  samples-at_last [] h l = absurd (omega arith)
  samples-at_last (c ∷ []) h l = omega (arith, info-add_batch codec.float_sub now doc c h.0)
  samples-at_last (c ∷ (d ∷ cs)) h l = omega (arith, samples-at_last (d ∷ cs) h.1 (omega arith))

  new_count : (n : ℕ) → (Batch.info (new_batch_collector n)).sample_count ≡ 0
  unfolding Batch.info new_batch_collector sum_info Better.info Better.new_base_collector
  new_count n = omega arith

  -- Info of a well-formed dynamicCollector counts one sample more behind an Add that returns nil,
  -- and as many behind one that fails.
  pub info-add_dynamic :
      (c : DynamicCollector)
      → IsValid c
      → (info (add codec now doc c).0).sample_count
        ≡ (info c).sample_count + counted (add codec now doc c).1
  unfolding add info
  info-add_dynamic c v =
      let f = Batch.add codec.float_sub now doc in
      let b = new_batch_collector c.max_samples in
      let more = samples-append c.chunks (f b).0 in
      let one =
        info-add_batch codec.float_sub now doc b (new_batch_collector-IsValid c.max_samples) in
      let zero_count = new_count c.max_samples in
      let first = samples-at_first c.chunks v.batches v.nonempty in
      let last = samples-at_last c.chunks v.batches v.nonempty in
      ground (arith, more, one, zero_count, first, last)
