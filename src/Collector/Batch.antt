-- ===== src/Collector/Batch.antt =====
-- collector_batch.go: a sequence of betterCollectors, the last one of which is being filled.
pub mod Invariant
pub mod Add
use ftdc.Prelude.{ℕ, ◌+◌, List, [], ◌∷◌, ◌++◌, Option, none, some, leb, if◌then◌else◌}
use ftdc.Result.{Result, ok, ◌>>=◌, panicked}
use ftdc.Bson.{Document}
use ftdc.Codec.{Codec}
use ftdc.Input.{Outcome, with_document}
use ftdc.Collector.Interface.{CollectorInfo, Collector}
use ftdc.Collector.Better
use ftdc.Collector.Better.{BetterCollector, new_base_collector}

pub record BatchCollector : Type 0 where
  pub max_samples : ℕ
  pub chunks : List BetterCollector

-- NewBatchCollector, newBatchCollector
unfoldable pub new_batch_collector : ℕ → BatchCollector
new_batch_collector size = record { max_samples = size; chunks = new_base_collector size ∷ [] }

abbrev pub no_info : CollectorInfo
no_info = record { metrics_count = 0; sample_count = 0 }

abbrev pub add_info : CollectorInfo → CollectorInfo → CollectorInfo
add_info a b = record {
  metrics_count = a.metrics_count + b.metrics_count;
  sample_count = a.sample_count + b.sample_count;
}

-- The loop of Info over the chunks, whatever their type.
unfoldable pub sum_info {ℓ} : {A : Type ℓ} → (A → CollectorInfo) → List A → CollectorInfo
sum_info f [] = no_info
sum_info f (c ∷ cs) = add_info (f c) (sum_info f cs)

unfoldable pub info : BatchCollector → CollectorInfo
unfolding sum_info
info c = sum_info Better.info c.chunks

unfoldable pub reset : BatchCollector → BatchCollector
reset c = record c { chunks = new_base_collector c.max_samples ∷ [] }

-- A method of `chunks[0]`. An empty slice is a panic.
unfoldable pub at_first {ℓ} : {A : Type ℓ} → (A → Outcome A) → List A → Outcome (List A)
at_first f [] = ([], some panicked)
at_first f (c ∷ cs) = let (c', e) = f c in (c' ∷ cs, e)

-- A method of `chunks[len(chunks)-1]`.
unfoldable pub at_last {ℓ} : {A : Type ℓ} → (A → Outcome A) → List A → Outcome (List A)
at_last f [] = ([], some panicked)
at_last f (c ∷ []) = let (c', e) = f c in (c' ∷ [], e)
at_last f (c ∷ (d ∷ cs)) = let (cs', e) = at_last f (d ∷ cs) in (c ∷ cs', e)

unfoldable pub set_metadata : Document → BatchCollector → Outcome BatchCollector
unfolding at_first
set_metadata doc c =
    let (chunks, e) = at_first (Better.set_metadata doc) c.chunks in
    (record c { chunks = chunks }, e)

unfoldable pub last_chunk {ℓ} : {A : Type ℓ} → List A → Option A
last_chunk [] = none
last_chunk (c ∷ []) = some c
last_chunk (c ∷ (d ∷ cs)) = last_chunk (d ∷ cs)

-- Add, of a document.
unfoldable pub add : (ℕ → ℕ → ℕ) → ℕ → Document → BatchCollector → Outcome BatchCollector
unfolding at_last last_chunk
add float_sub now doc c = elim (last_chunk c.chunks) [
  | none ↦ (c, some panicked)
  | some last ↦
      if leb c.max_samples (Better.info last).sample_count
      then (let (chunk, e) = Better.add float_sub now doc (new_base_collector c.max_samples) in
          (record c { chunks = c.chunks ++ (chunk ∷ []) }, e))
      else (let (chunks, e) = at_last (Better.add float_sub now doc) c.chunks in
          (record c { chunks = chunks }, e))
]

-- The loop of Resolve: the chunks' outputs, one behind the other.
unfoldable pub resolve_all {ℓ} : {A : Type ℓ} → (A → Result (List ℕ)) → List A → Result (List ℕ)
resolve_all f [] = ok []
resolve_all f (c ∷ cs) = do out ← f c; rest ← resolve_all f cs; ok (out ++ rest)

module _ (codec : Codec) where
  unfoldable pub resolve : BatchCollector → Result (List ℕ)
  unfolding resolve_all
  resolve c = resolve_all (Better.resolve codec) c.chunks

  unfoldable pub batch_collector : Collector BatchCollector
  unfolding with_document set_metadata add resolve reset info
  batch_collector = record {
    set_metadata = λ input c. with_document codec input set_metadata c;
    add = λ now input c. with_document codec input (add codec.float_sub now) c;
    flushable = record { resolve = resolve; reset = reset; info = info };
  }
