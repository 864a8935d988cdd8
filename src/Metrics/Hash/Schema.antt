-- ===== src/Metrics/Hash/Schema.antt =====
-- The hash of bson_hash.go beside what bson_extract.go takes from a document, and in documents of
-- one schema.
use ftdc.Prelude.{
  ℕ, ◌+◌, ◌≡◌, refl, sym, ap, ◌∙◌, [], ◌∷◌, ◌++◌, true, arith, length, length-append,
}
use ftdc.Bson.{Text, Value, Document, Array, end, element, nil, cons}
use ftdc.Codec.{Codec}
use ftdc.Metrics.Key.{dot, decimal}
use ftdc.Metrics.Extract.{
  extract_from_value, extract_from_array, extract_from_elements, extract_from_document,
}
use ftdc.Metrics.Restore.RoundTrip.{
  is_opaque, SameSchema, SameItems, SameFields, double, document, array, boolean, date_time, int32,
  timestamp, int64, opaque, no_items, item, no_fields, field,
}
use ftdc.Metrics.Hash.{
  Hashed, nothing_hashed, metric_key_hash_value, metric_key_hash_array, metric_key_hash_document,
  metric_key_hash, is_metrics_value, is_metrics_array, is_metrics_document, metrics_hash, Keys,
  both_keys,
}

module _ (now : ℕ) where
  mutual
    unfolding metric_key_hash_value extract_from_value

    seen_value :
        (key : Text) (v : Value)
        → (metric_key_hash_value key v).seen ≡ length (extract_from_value now v).values
    seen_value key (Value.array a) = seen_array key 0 a
    seen_value key (Value.document d) = seen_document key d
    seen_value key (Value.boolean b) = refl
    seen_value key (Value.double f) = refl
    seen_value key (Value.int32 n) = refl
    seen_value key (Value.int64 n) = refl
    seen_value key (Value.date_time n) = refl
    seen_value key (Value.timestamp t i) = refl
    seen_value key _ = refl

    seen_array :
        (key : Text) (idx : ℕ) (a : Array)
        → (metric_key_hash_array key idx a).seen ≡ length (extract_from_array now a).values
    seen_array key idx nil = refl
    seen_array key idx (cons v a) = omega (
      arith,
      seen_value (key ++ (dot ∷ decimal idx)) v,
      seen_array key (idx + 1) a,
      length-append (extract_from_value now v).values (extract_from_array now a).values,
    )

    seen_document :
        (key : Text) (d : Document)
        → (metric_key_hash_document key d).seen ≡ length (extract_from_elements now d).values
    seen_document key end = refl
    seen_document key (element k v d) = omega (
      arith,
      seen_value (key ++ (dot ∷ k)) v,
      seen_document key d,
      length-append (extract_from_value now v).values (extract_from_elements now d).values,
    )

-- metricKeyHash counts as many metrics as extractMetricsFromDocument takes from the document.
pub metric_key_hash-count :
    (codec : Codec) (now : ℕ) (doc : Document)
    → (metric_key_hash codec doc).1 ≡ length (extract_from_document now doc).values
unfolding metric_key_hash extract_from_document
metric_key_hash-count codec now doc = seen_document now [] doc

opaque_hash :
    (key : Text) (v : Value) → is_opaque v ≡ true → metric_key_hash_value key v ≡ nothing_hashed
unfolding is_opaque metric_key_hash_value
opaque_hash key (Value.double f) e = cc
opaque_hash key (Value.document d) e = cc
opaque_hash key (Value.array a) e = cc
opaque_hash key (Value.boolean b) e = cc
opaque_hash key (Value.date_time n) e = cc
opaque_hash key (Value.int32 n) e = cc
opaque_hash key (Value.timestamp t i) e = cc
opaque_hash key (Value.int64 n) e = cc
opaque_hash key _ e = refl

mutual
  unfolding metric_key_hash_value

  same_value :
      {v w : Value} (key : Text)
      → SameSchema v w
      → metric_key_hash_value key w ≡ metric_key_hash_value key v
  same_value key (document s) = same_document key s
  same_value key (array s) = same_array key 0 s
  same_value key (opaque {v} {w} p q) = opaque_hash key w q ∙ sym (opaque_hash key v p)
  same_value key (double f g r) = refl
  same_value key (boolean b c) = refl
  same_value key (date_time m n r) = refl
  same_value key (int32 m n r) = refl
  same_value key (timestamp s i t j p q) = refl
  same_value key (int64 m n r) = refl

  same_array :
      {a b : Array} (key : Text) (idx : ℕ)
      → SameItems a b
      → metric_key_hash_array key idx b ≡ metric_key_hash_array key idx a
  same_array key idx no_items = refl
  same_array key idx (item s ss) =
      rw (same_value (key ++ (dot ∷ decimal idx)) s, same_array key (idx + 1) ss) refl

  same_document :
      {d e : Document} (key : Text)
      → SameFields d e
      → metric_key_hash_document key e ≡ metric_key_hash_document key d
  same_document key no_fields = refl
  same_document key (field {k} s ss) =
      rw (same_value (key ++ (dot ∷ k)) s, same_document key ss) refl

-- metricKeyHash gives two documents of one schema the same hash and the same number of metrics. The
-- numbers of the second are in the range of their Go types and its dates in that of UnixNano, the
-- years 1678 to 2262.
pub metric_key_hash-SameFields :
    (codec : Codec) {reference doc : Document}
    → SameFields reference doc
    → metric_key_hash codec doc ≡ metric_key_hash codec reference
unfolding metric_key_hash
metric_key_hash-SameFields codec s =
    ap (λ (h : Hashed). (codec.fnv64 h.written, h.seen)) (same_document [] s)

both_seen : (a b : Keys) → (both_keys a b).seen ≡ a.seen + b.seen
both_seen a b = ground arith

mutual
  unfolding metric_key_hash_value is_metrics_value

  keys_value :
      (k l : Text) (v : Value) → (is_metrics_value k v).seen ≡ (metric_key_hash_value l v).seen
  keys_value k l (Value.array a) = keys_array k l 0 0 a
  keys_value k l (Value.document d) = keys_document k l d
  keys_value k l (Value.boolean b) = refl
  keys_value k l (Value.double f) = refl
  keys_value k l (Value.int32 n) = refl
  keys_value k l (Value.int64 n) = refl
  keys_value k l (Value.date_time n) = refl
  keys_value k l (Value.timestamp t i) = refl
  keys_value k l _ = refl

  keys_array :
      (k l : Text) (i j : ℕ) (a : Array)
      → (is_metrics_array k i a).seen ≡ (metric_key_hash_array l j a).seen
  keys_array k l i j nil = refl
  keys_array k l i j (cons v a) =
      let ih = keys_array k l (i + 1) (j + 1) a in
      let iv = keys_value (k ++ decimal i) (l ++ (dot ∷ decimal j)) v in
      both_seen (is_metrics_value (k ++ decimal i) v) (is_metrics_array k (i + 1) a)
      ∙ omega (arith, iv, ih)

  keys_document :
      (k l : Text) (d : Document)
      → (is_metrics_document k d).seen ≡ (metric_key_hash_document l d).seen
  keys_document k l end = refl
  keys_document k l (element key v d) =
      let ih = keys_document k l d in
      let iv = keys_value (k ++ (b'/' ∷ key)) (l ++ (dot ∷ key)) v in
      both_seen (is_metrics_value (k ++ (b'/' ∷ key)) v) (is_metrics_document k d)
      ∙ omega (arith, iv, ih)

-- metricsHash and metricKeyHash count the same metrics in every document.
pub metrics_hash-count :
    (codec : Codec) (doc : Document) → (metrics_hash doc).1 ≡ (metric_key_hash codec doc).1
unfolding metrics_hash metric_key_hash
metrics_hash-count codec doc = keys_document [] [] doc
