-- ===== src/Metrics/Hash.antt =====
-- bson_hash.go: the keys of a document's metrics, which the dynamic collectors hash to see a change
-- of schema. What is written into the checksum is kept as one list of bytes.
pub mod Schema
use ftdc.Prelude.{ℕ, ◌+◌, List, [], ◌∷◌, ◌++◌, ltb, if◌then◌else◌}
use ftdc.Bson.{Text, Value, Document, Array, end, element, nil, cons}
use ftdc.Codec.{Codec}
use ftdc.Metrics.Key.{dot, decimal}

-- The bytes that were written, and the number of metrics seen.
pub record Hashed : Type 0 where
  pub written : List ℕ
  pub seen : ℕ

abbrev pub nothing_hashed : Hashed
nothing_hashed = record { written = []; seen = 0 }

abbrev pub both_hashed : Hashed → Hashed → Hashed
both_hashed a b = record { written = a.written ++ b.written; seen = a.seen + b.seen }

abbrev pub hashed : Text → ℕ → Hashed
hashed key n = record { written = key; seen = n }

unfoldable mutual
  pub metric_key_hash_value : Text → Value → Hashed
  metric_key_hash_value key (Value.array a) = metric_key_hash_array key 0 a
  metric_key_hash_value key (Value.document d) = metric_key_hash_document key d
  metric_key_hash_value key (Value.boolean _) = hashed key 1
  metric_key_hash_value key (Value.double _) = hashed key 1
  metric_key_hash_value key (Value.int32 _) = hashed key 1
  metric_key_hash_value key (Value.int64 _) = hashed key 1
  metric_key_hash_value key (Value.date_time _) = hashed key 1
  metric_key_hash_value key (Value.timestamp _ _) = hashed key 2
  metric_key_hash_value key _ = nothing_hashed

  -- the loop of metricKeyHashArray, from index `idx` on
  pub metric_key_hash_array : Text → ℕ → Array → Hashed
  metric_key_hash_array key idx nil = nothing_hashed
  metric_key_hash_array key idx (cons v a) =
      both_hashed (metric_key_hash_value (key ++ (dot ∷ decimal idx)) v)
        (metric_key_hash_array key (idx + 1) a)

  pub metric_key_hash_document : Text → Document → Hashed
  metric_key_hash_document key end = nothing_hashed
  metric_key_hash_document key (element k v d) =
      both_hashed (metric_key_hash_value (key ++ (dot ∷ k)) v) (metric_key_hash_document key d)

module _ (codec : Codec) where
  unfoldable pub metric_key_hash : Document → Text × ℕ
  unfolding metric_key_hash_document
  metric_key_hash doc = let h = metric_key_hash_document [] doc in (codec.fnv64 h.written, h.seen)

  unfoldable pub metric_key_md5 : Document → Text × ℕ
  unfolding metric_key_hash_document
  metric_key_md5 doc = let h = metric_key_hash_document [] doc in (codec.md5 h.written, h.seen)

  unfoldable pub metric_key_sha1 : Document → Text × ℕ
  unfolding metric_key_hash_document
  metric_key_sha1 doc = let h = metric_key_hash_document [] doc in (codec.sha1 h.written, h.seen)

-- The keys, and the number of metrics.
pub record Keys : Type 0 where
  pub keys : List Text
  pub seen : ℕ

abbrev pub no_keys : Keys
no_keys = record { keys = []; seen = 0 }

-- `if num > 0 { seen += num; keys = append(keys, k...) }`, before the keys behind it.
abbrev pub both_keys : Keys → Keys → Keys
both_keys a b =
    if ltb 0 a.seen then record { keys = a.keys ++ b.keys; seen = a.seen + b.seen } else b

abbrev pub one_key : Text → ℕ → Keys
one_key key n = record { keys = key ∷ []; seen = n }

unfoldable mutual
  pub is_metrics_value : Text → Value → Keys
  is_metrics_value key (Value.array a) = is_metrics_array key 0 a
  is_metrics_value key (Value.document d) = is_metrics_document key d
  is_metrics_value key (Value.boolean _) = one_key key 1
  is_metrics_value key (Value.double _) = one_key key 1
  is_metrics_value key (Value.int32 _) = one_key key 1
  is_metrics_value key (Value.int64 _) = one_key key 1
  is_metrics_value key (Value.date_time _) = one_key key 1
  is_metrics_value key (Value.timestamp _ _) = one_key key 2
  is_metrics_value key _ = no_keys

  pub is_metrics_array : Text → ℕ → Array → Keys
  is_metrics_array key idx nil = no_keys
  is_metrics_array key idx (cons v a) =
      both_keys (is_metrics_value (key ++ decimal idx) v) (is_metrics_array key (idx + 1) a)

  pub is_metrics_document : Text → Document → Keys
  is_metrics_document key end = no_keys
  is_metrics_document key (element k v d) =
      both_keys (is_metrics_value (key ++ (b'/' ∷ k)) v) (is_metrics_document key d)

-- `strings.Join(keys, "\n")`
pub join_lines : List Text → Text
join_lines [] = []
join_lines (k ∷ []) = k
join_lines (k ∷ (k' ∷ ks)) = k ++ (10 ∷ join_lines (k' ∷ ks))

unfoldable pub metrics_hash : Document → Text × ℕ
unfolding is_metrics_document join_lines
metrics_hash doc = let m = is_metrics_document [] doc in (join_lines m.keys, m.seen)
