-- ===== src/Collector/Batch/Invariant.antt =====
-- The well-formed states of a batchCollector (collector_batch.go).
use ftdc.Prelude.{
  ℕ, suc, ◌≤◌, ◌<◌, ◌≡◌, refl, ap, ◌∙◌, List, [], ◌∷◌, ◌++◌, Option, none, some, leb, ◌==◌,
  if◌then◌else◌, arith, length, Option-cases, Bool-cases, inl, inr,
}
use ftdc.Result.{Error, schema_count, schema_types}
use ftdc.Word.{All, All-append}
use ftdc.Bson.{Document}
use ftdc.Metrics.Extract.{ExtractedMetrics, extract_from_document}
use ftdc.Input.{Outcome}
use ftdc.Collector.Better
use ftdc.Collector.Better.{BetterCollector, new_base_collector, values_of, types_of}
use ftdc.Collector.Better.Invariant.{
  same_types, add_lem, new_base_collector-IsValid, add-IsValid, reset-IsValid,
}
use ftdc.Collector.Better.Samples.{max_deltas-add, counted, info-add}
use ftdc.Collector.Batch.{BatchCollector, new_batch_collector, at_last, last_chunk, add}

-- The samples that a chunk of a batch of chunks of `n` holds at most: one is added to an empty chunk
-- whatever `n` is.
abbrev pub size_limit : ℕ → ℕ
size_limit n = if n == 0 then 1 else n

pub record IsChunk (n : ℕ) (c : BetterCollector) : Type 0 where
  pub valid : Better.Invariant.IsValid c
  pub capacity : c.max_deltas ≡ n
  pub bounded : (Better.info c).sample_count ≤ size_limit n

pub record IsValid (c : BatchCollector) : Type 0 where
  pub chunked : All (IsChunk c.max_samples) c.chunks
  pub nonempty : 1 ≤ length c.chunks

empty-IsChunk : (n : ℕ) → IsChunk n (new_base_collector n)
unfolding new_base_collector Better.info
empty-IsChunk n = record {
  valid = new_base_collector-IsValid n;
  capacity = refl;
  bounded = omega arith;
}

add-IsChunk :
    (fs : ℕ → ℕ → ℕ) (now n : ℕ) (doc : Document) (c : BetterCollector)
    → IsChunk n c
    → (Better.info c).sample_count < size_limit n
    → IsChunk n (Better.add fs now doc c).0
unfolding counted
add-IsChunk fs now n doc c h room = record {
  valid = add-IsValid fs now doc c h.valid;
  capacity = max_deltas-add fs now doc c ∙ h.capacity;
  bounded = ground (arith, info-add fs now doc c, room);
}

-- What at_last changes of a list is its last item.
at_last-All_last :
    {A : Type 0} (P : A → Type 0) (f : A → Outcome A) (cs : List A) {last : A}
    → last_chunk cs ≡ some last
    → P (f last).0
    → All P cs
    → All P (at_last f cs).0
unfolding at_last last_chunk
at_last-All_last P f [] e step h = tt
at_last-All_last P f (c ∷ []) {last} e step h =
    let same : c ≡ last = ground (arith, e) in (rw same step, tt)
at_last-All_last P f (c ∷ (d ∷ cs)) e step h = (h.0, at_last-All_last P f (d ∷ cs) e step h.1)

pub last-All :
    (P : BetterCollector → Type 0) (cs : List BetterCollector) {last : BetterCollector}
    → All P cs
    → last_chunk cs ≡ some last
    → P last
unfolding last_chunk
last-All P [] h e = cc
last-All P (c ∷ []) h e = ground (arith, h.0)
last-All P (c ∷ (d ∷ cs)) h e = last-All P (d ∷ cs) h.1 e

empty_room : (n : ℕ) → (Better.info (new_base_collector n)).sample_count < size_limit n
unfolding Better.info new_base_collector
empty_room n = ground arith

pub at_last-All :
    {A : Type 0} (P : A → Type 0) (f : A → Outcome A) (cs : List A)
    → ((c : A) → P c → P (f c).0)
    → All P cs
    → All P (at_last f cs).0
unfolding at_last
at_last-All P f [] step h = tt
at_last-All P f (c ∷ []) step h = (step c h.0, tt)
at_last-All P f (c ∷ (d ∷ cs)) step h = (h.0, at_last-All P f (d ∷ cs) step h.1)

pub length-at_last :
    {A : Type 0} (f : A → Outcome A) (cs : List A) → length (at_last f cs).0 ≡ length cs
unfolding at_last
length-at_last f [] = refl
length-at_last f (c ∷ []) = refl
length-at_last f (c ∷ (d ∷ cs)) = ap suc (length-at_last f (d ∷ cs))

pub append_nonempty : {A : Type 0} (cs : List A) (x : A) → 1 ≤ length (cs ++ (x ∷ []))
append_nonempty [] x = omega arith
append_nonempty (c ∷ cs) x = omega arith

-- Add of a batchCollector keeps every chunk well-formed, with the capacity of the batch and no more
-- samples than `max_samples`, or one where that is 0, and at least one chunk.
pub add_batch-IsValid :
    (fs : ℕ → ℕ → ℕ) (now : ℕ) (doc : Document) (c : BatchCollector)
    → IsValid c
    → IsValid (add fs now doc c).0
unfolding add
add_batch-IsValid fs now doc c v = elim (Option-cases (last_chunk c.chunks)) [
  | inl e ↦ rw (e, add) v
  | inr (last, e) ↦ elim (Bool-cases (leb c.max_samples (Better.info last).sample_count)) [
    | inl full ↦
        let step =
          add-IsChunk fs now c.max_samples doc _ (empty-IsChunk c.max_samples)
            (empty_room c.max_samples) in
        rw (e, full, add)
          (record {
            chunked = All-append (IsChunk c.max_samples) c.chunks _ v.chunked (step, tt);
            nonempty = append_nonempty c.chunks _;
          })
    | inr room ↦
        rw (e, room, add)
          (record {
            chunked =
                at_last-All_last (IsChunk c.max_samples) (Better.add fs now doc) c.chunks e
                  (add-IsChunk fs now c.max_samples doc last
                    (last-All (IsChunk c.max_samples) c.chunks v.chunked e) (ground (arith, room)))
                  v.chunked;
            nonempty = omega (arith, length-at_last (Better.add fs now doc) c.chunks, v.nonempty);
          })
  ]
]

pub last_exists :
    {A : Type 0} (cs : List A) → 1 ≤ length cs → (last : A) × (last_chunk cs ≡ some last)
unfolding last_chunk
last_exists [] h = absurd (omega arith)
last_exists (c ∷ []) h = (c, refl)
last_exists (c ∷ (d ∷ cs)) h = last_exists (d ∷ cs) (omega arith)

pub at_last-error :
    {A : Type 0} (f : A → Outcome A) (cs : List A) {last : A}
    → last_chunk cs ≡ some last
    → (at_last f cs).1 ≡ (f last).1
unfolding at_last last_chunk
at_last-error f [] e = cc
at_last-error f (c ∷ []) e = cc
at_last-error f (c ∷ (d ∷ cs)) e = at_last-error f (d ∷ cs) e

-- What an Add to a chunk that is not full returns: an error where the schema differs.
unfoldable pub schema_error : ExtractedMetrics → BetterCollector → Option Error
schema_error m c = elim c.reference [
  | none ↦ none
  | some _ ↦
      if length m.values == length (values_of c.last_sample)
      then (if same_types m.types (types_of c.last_sample) then none else some schema_types)
      else some schema_count
]

pub add_chunk-error :
    (fs : ℕ → ℕ → ℕ) (now n : ℕ) (doc : Document) (c : BetterCollector)
    → IsChunk n c
    → (Better.info c).sample_count < n
    → (Better.add fs now doc c).1 ≡ schema_error (extract_from_document now doc) c
unfolding schema_error Better.info Better.add Better.add_reference
add_chunk-error fs now n doc c h room = elim (Option-cases c.reference) [
  | inl e ↦ rw (e, Better.add, schema_error) refl
  | inr (r, e) ↦
      let cap = h.capacity in
      rw (e, schema_error) (ground (arith, add_lem fs now doc r c h.valid e, cap))
]

pub new_batch_collector-IsValid : (n : ℕ) → IsValid (new_batch_collector n)
unfolding new_batch_collector
new_batch_collector-IsValid n = record { chunked = (empty-IsChunk n, tt); nonempty = omega arith }
