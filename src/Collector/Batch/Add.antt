-- ===== src/Collector/Batch/Add.antt =====
-- What Add of a batchCollector (collector_batch.go) returns, and the samples that Info counts.
use ftdc.Prelude.{
  ℕ, ◌+◌, ◌≡◌, refl, ◌∙◌, List, [], ◌∷◌, ◌++◌, none, some, leb, if◌then◌else◌, arith, length,
  length-append, Bool-cases, inl, inr,
}
use ftdc.Bson.{Document}
use ftdc.Metrics.Extract.{extract_from_document}
use ftdc.Collector.Better
use ftdc.Collector.Better.{BetterCollector, new_base_collector}
use ftdc.Collector.Better.Samples.{counted, info-add}
use ftdc.Collector.Batch.{BatchCollector, sum_info, info, at_last, last_chunk, add}
use ftdc.Collector.Batch.Invariant.{
  IsChunk, IsValid, last-All, last_exists, at_last-error, length-at_last, schema_error,
  add_chunk-error,
}

abbrev samples : List BetterCollector → ℕ
samples cs = (sum_info Better.info cs).sample_count

samples-append :
    (cs : List BetterCollector) (c : BetterCollector)
    → samples (cs ++ (c ∷ [])) ≡ samples cs + (Better.info c).sample_count
unfolding sum_info
samples-append [] c = omega arith
samples-append (d ∷ cs) c = omega (arith, samples-append cs c)

samples-at_last :
    (fs : ℕ → ℕ → ℕ) (now : ℕ) (doc : Document) (cs : List BetterCollector) {last : BetterCollector}
    → last_chunk cs ≡ some last
    → samples (at_last (Better.add fs now doc) cs).0
      ≡ samples cs + counted (at_last (Better.add fs now doc) cs).1
unfolding sum_info at_last last_chunk
samples-at_last fs now doc [] e = cc
samples-at_last fs now doc (c ∷ []) e = omega (arith, info-add fs now doc c)
samples-at_last fs now doc (c ∷ (d ∷ cs)) e = omega (arith, samples-at_last fs now doc (d ∷ cs) e)

empty_count : (n : ℕ) → (Better.info (new_base_collector n)).sample_count ≡ 0
unfolding Better.info new_base_collector
empty_count n = omega arith

-- Info of a well-formed batchCollector counts one sample more behind an Add that returns nil, and
-- as many behind one that fails.
pub info-add_batch :
    (fs : ℕ → ℕ → ℕ) (now : ℕ) (doc : Document) (c : BatchCollector)
    → IsValid c
    → (info (add fs now doc c).0).sample_count
      ≡ (info c).sample_count + counted (add fs now doc c).1
unfolding info add
info-add_batch fs now doc c v =
    let (last, e) = last_exists c.chunks v.nonempty in
    elim (Bool-cases (leb c.max_samples (Better.info last).sample_count)) [
      | inl full ↦
          rw (e, full, add)
            (omega (
              arith,
              samples-append c.chunks (Better.add fs now doc (new_base_collector c.max_samples)).0,
              info-add fs now doc (new_base_collector c.max_samples),
              empty_count c.max_samples,
            ))
      | inr room ↦ rw (e, room, add) (samples-at_last fs now doc c.chunks e)
    ]

length-add_batch :
    (fs : ℕ → ℕ → ℕ) (now : ℕ) (doc : Document) (c : BatchCollector) {last : BetterCollector}
    → last_chunk c.chunks ≡ some last
    → length (add fs now doc c).0.chunks ≡ (
        if leb c.max_samples (Better.info last).sample_count
        then length c.chunks + 1
        else length c.chunks)
unfolding add
length-add_batch fs now doc c {last} e =
    let chunk = (Better.add fs now doc (new_base_collector c.max_samples)).0 in
    elim (Bool-cases (leb c.max_samples (Better.info last).sample_count)) [
      | inl full ↦ rw (e, full, add) (length-append c.chunks (chunk ∷ []))
      | inr room ↦ rw (e, room, add) (length-at_last (Better.add fs now doc) c.chunks)
    ]

-- Add of a well-formed batchCollector starts another chunk where the last one is full, with a nil
-- error, and otherwise adds no chunk and returns what the last chunk says of the schema. It never
-- returns the error of a full chunk. Info counts one sample more behind an Add that returns nil,
-- and as many behind one that fails.
pub add_batch_lem :
    (fs : ℕ → ℕ → ℕ) (now : ℕ) (doc : Document) (c : BatchCollector)
    → IsValid c
    → (last : BetterCollector) × (last_chunk c.chunks ≡ some last)
      × ((add fs now doc c).1 ≡ (
          if leb c.max_samples (Better.info last).sample_count
          then none
          else schema_error (extract_from_document now doc) last))
      × (length (add fs now doc c).0.chunks ≡ (
          if leb c.max_samples (Better.info last).sample_count
          then length c.chunks + 1
          else length c.chunks))
      × ((info (add fs now doc c).0).sample_count
          ≡ (info c).sample_count + counted (add fs now doc c).1)
unfolding add Better.add Better.add_reference new_base_collector
add_batch_lem fs now doc c v =
    let (last, e) = last_exists c.chunks v.nonempty in
    let chunk = last-All (IsChunk c.max_samples) c.chunks v.chunked e in
    (
      last,
      e,
      elim (Bool-cases (leb c.max_samples (Better.info last).sample_count)) [
        | inl full ↦ rw (e, full, add) refl
        | inr room ↦
            rw (e, room, add)
              (at_last-error (Better.add fs now doc) c.chunks e
                ∙ add_chunk-error fs now c.max_samples doc last chunk (ground (arith, room)))
      ],
      length-add_batch fs now doc c e,
      info-add_batch fs now doc c v,
    )
