-- ===== src/Collector/Dynamic.antt =====
-- collector_dynamic.go: a sequence of batchCollectors, a new one where the hash of the metrics' keys
-- is not the first document's.
pub mod Add
use ftdc.Prelude.{ℕ, List, [], ◌∷◌, ◌++◌, Bool, true, false, if◌then◌else◌}
use ftdc.Result.{Result}
use ftdc.Bson.{Text, Document}
use ftdc.Bson.Lookup.{same_text}
use ftdc.Codec.{Codec}
use ftdc.Input.{Outcome, with_document}
use ftdc.Metrics.Hash.{metric_key_hash}
use ftdc.Collector.Interface.{CollectorInfo, Collector}
use ftdc.Collector.Batch
use ftdc.Collector.Batch.{
  BatchCollector, new_batch_collector, sum_info, at_first, at_last, resolve_all,
}

pub record DynamicCollector : Type 0 where
  pub max_samples : ℕ
  pub chunks : List BatchCollector
  pub hash : Text
  pub current_num : ℕ

-- NewDynamicCollector
unfoldable pub new_dynamic_collector : ℕ → DynamicCollector
new_dynamic_collector max_samples = record {
  max_samples = max_samples;
  chunks = new_batch_collector max_samples ∷ [];
  hash = [];
  current_num = 0;
}

unfoldable pub info : DynamicCollector → CollectorInfo
unfolding sum_info
info c = sum_info Batch.info c.chunks

unfoldable pub reset : DynamicCollector → DynamicCollector
reset c = record c { chunks = new_batch_collector c.max_samples ∷ []; hash = [] }

unfoldable pub set_metadata : Document → DynamicCollector → Outcome DynamicCollector
unfolding at_first
set_metadata doc c =
    let (chunks, e) = at_first (Batch.set_metadata doc) c.chunks in
    (record c { chunks = chunks }, e)

-- `c.hash == ""`
abbrev pub is_empty : Text → Bool
is_empty [] = true
is_empty (_ ∷ _) = false

module _ (codec : Codec) where
  -- Add, of a document.
  unfoldable pub add : ℕ → Document → DynamicCollector → Outcome DynamicCollector
  unfolding at_first at_last metric_key_hash same_text
  add now doc c =
      let (doc_hash, num) = metric_key_hash codec doc in
      let add_doc = Batch.add codec.float_sub now doc in
      if is_empty c.hash
      then (let (chunks, e) = at_first add_doc c.chunks in
          (record c { chunks = chunks; hash = doc_hash; current_num = num }, e))
      else if same_text c.hash doc_hash
      then (let (chunks, e) = at_last add_doc c.chunks in (record c { chunks = chunks }, e))
      else (let (chunk, e) = add_doc (new_batch_collector c.max_samples) in
          (record c { chunks = c.chunks ++ (chunk ∷ []) }, e))

  unfoldable pub resolve : DynamicCollector → Result (List ℕ)
  unfolding resolve_all
  resolve c = resolve_all (Batch.resolve codec) c.chunks

  unfoldable pub dynamic_collector : Collector DynamicCollector
  unfolding with_document set_metadata add resolve reset info
  dynamic_collector = record {
    set_metadata = λ input c. with_document codec input set_metadata c;
    add = λ now input c. with_document codec input (add now) c;
    flushable = record { resolve = resolve; reset = reset; info = info };
  }
