-- ===== src/Metrics/Restore/RoundTrip.antt =====
-- restoreDocument (bson_restore.go) on what extractMetricsFromDocument (bson_extract.go) takes from
-- a document of the same schema.
use ftdc.Prelude.{
  ℕ, suc, ◌+◌, ◌^◌, ◌<◌, ◌≡◌, refl, ap, ◌∙◌, List, [], ◌∷◌, ◌++◌, Option, none, some, Bool, true,
  false, arith, length, length-append,
}
use ftdc.Result.{Result, ok}
use ftdc.Word.{IsWord}
use ftdc.Bson.{Text, Value, Document, Array, end, element, nil, cons}
use ftdc.Metrics.Convert.{low32, low32-int64_of_int32, IsNanoRange, epoch_ms_lem}
use ftdc.Metrics.Extract.{
  extract_from_value, extract_from_array, extract_from_elements, extract_from_document,
}
use ftdc.Metrics.Flatten.{Metric}
use ftdc.Metrics.Restore.{
  value_at, append_some, cons_some, restore_value, restore_array, restore_document,
}

-- A type that holds no metric.
unfoldable pub is_opaque : Value → Bool
is_opaque (Value.double _) = false
is_opaque (Value.document _) = false
is_opaque (Value.array _) = false
is_opaque (Value.boolean _) = false
is_opaque (Value.date_time _) = false
is_opaque (Value.int32 _) = false
is_opaque (Value.timestamp _ _) = false
is_opaque (Value.int64 _) = false
is_opaque _ = true

-- Two documents with the same keys and, at each key, the same type, but for types without metrics.
-- The second one's numbers are in the range of their Go types, and its dates in that of UnixNano, the
-- years 1678 to 2262, outside of which epochMs wraps.
mutual
  pub data SameSchema : Value → Value → Type 0 where
    double : (f g : ℕ) → IsWord g → SameSchema (Value.double f) (Value.double g)
    document : {d e : Document} → SameFields d e → SameSchema (Value.document d) (Value.document e)
    array : {a b : Array} → SameItems a b → SameSchema (Value.array a) (Value.array b)
    boolean : (b c : Bool) → SameSchema (Value.boolean b) (Value.boolean c)
    date_time : (m n : ℕ) → IsNanoRange n → SameSchema (Value.date_time m) (Value.date_time n)
    int32 : (m n : ℕ) → n < 2 ^ 32 → SameSchema (Value.int32 m) (Value.int32 n)
    timestamp :
        (s i t j : ℕ)
        → t < 2 ^ 32
        → j < 2 ^ 32
        → SameSchema (Value.timestamp s i) (Value.timestamp t j)
    int64 : (m n : ℕ) → IsWord n → SameSchema (Value.int64 m) (Value.int64 n)
    opaque : {v w : Value} → is_opaque v ≡ true → is_opaque w ≡ true → SameSchema v w

  pub data SameItems : Array → Array → Type 0 where
    no_items : SameItems nil nil
    item :
        {v w : Value} {a b : Array}
        → SameSchema v w
        → SameItems a b
        → SameItems (cons v a) (cons w b)

  pub data SameFields : Document → Document → Type 0 where
    no_fields : SameFields end end
    field :
        {k : Text} {v w : Value} {d e : Document}
        → SameSchema v w
        → SameFields d e
        → SameFields (element k v d) (element k w e)

-- A document without what holds no metric.
unfoldable mutual
  pub metrics_of_value : Value → Option Value
  metrics_of_value (Value.double f) = some (Value.double f)
  metrics_of_value (Value.document d) = some (Value.document (metrics_of_document d))
  metrics_of_value (Value.array a) = some (Value.array (metrics_of_array a))
  metrics_of_value (Value.boolean b) = some (Value.boolean b)
  metrics_of_value (Value.date_time n) = some (Value.date_time n)
  metrics_of_value (Value.int32 n) = some (Value.int32 n)
  metrics_of_value (Value.timestamp t i) = some (Value.timestamp t i)
  metrics_of_value (Value.int64 n) = some (Value.int64 n)
  metrics_of_value _ = none

  pub metrics_of_array : Array → Array
  metrics_of_array nil = nil
  metrics_of_array (cons v a) = cons_some (metrics_of_value v) (metrics_of_array a)

  pub metrics_of_document : Document → Document
  metrics_of_document end = end
  metrics_of_document (element k v d) = append_some k (metrics_of_value v) (metrics_of_document d)

-- The number that a series stores for an extracted value.
abbrev pub number : Value → ℕ
number (Value.double f) = f
number (Value.int64 n) = n
number _ = 0

-- From metric `idx` on, the metrics hold these values at the sample.
abbrev pub HoldsAt : ℕ → List Metric → ℕ → List Value → Type 0
HoldsAt sample metrics idx [] = Unit
HoldsAt sample metrics idx (v ∷ vs) =
    (value_at sample metrics idx ≡ ok (number v)) × HoldsAt sample metrics (idx + 1) vs

HoldsAt-append :
    (sample : ℕ) (metrics : List Metric) (idx : ℕ) (vs ws : List Value)
    → HoldsAt sample metrics idx (vs ++ ws)
    → HoldsAt sample metrics idx vs × HoldsAt sample metrics (idx + length vs) ws
HoldsAt-append sample metrics idx [] ws h = let e : idx + 0 ≡ idx = omega arith in (tt, rw e h)
HoldsAt-append sample metrics idx (v ∷ vs) ws (h, hs) =
    let (l, r) = HoldsAt-append sample metrics (idx + 1) vs ws hs in
    let e : idx + suc (length vs) ≡ idx + 1 + length vs = omega arith in ((h, l), rw e r)

opaque_restore :
    (sample : ℕ) (metrics : List Metric) (v : Value) (idx : ℕ)
    → is_opaque v ≡ true
    → restore_value sample metrics v idx ≡ ok (none, idx)
unfolding is_opaque restore_value
opaque_restore sample metrics (Value.double f) idx e = cc
opaque_restore sample metrics (Value.document d) idx e = cc
opaque_restore sample metrics (Value.array a) idx e = cc
opaque_restore sample metrics (Value.boolean b) idx e = cc
opaque_restore sample metrics (Value.date_time n) idx e = cc
opaque_restore sample metrics (Value.int32 n) idx e = cc
opaque_restore sample metrics (Value.timestamp t i) idx e = cc
opaque_restore sample metrics (Value.int64 n) idx e = cc
opaque_restore sample metrics _ idx e = refl

opaque_metrics :
    (now : ℕ) (v : Value)
    → is_opaque v ≡ true
    → ((extract_from_value now v).values ≡ []) × (metrics_of_value v ≡ none)
unfolding is_opaque extract_from_value metrics_of_value
opaque_metrics now (Value.double f) e = cc
opaque_metrics now (Value.document d) e = cc
opaque_metrics now (Value.array a) e = cc
opaque_metrics now (Value.boolean b) e = cc
opaque_metrics now (Value.date_time n) e = cc
opaque_metrics now (Value.int32 n) e = cc
opaque_metrics now (Value.timestamp t i) e = cc
opaque_metrics now (Value.int64 n) e = cc
opaque_metrics now _ e = (refl, refl)

abbrev at : {A : Type 0} → A → ℕ → Result (A × ℕ)
at r idx = ok (r, idx)

ok_at_end : {A : Type 0} (r : A) (idx : ℕ) → at r idx ≡ at r (idx + 0)
ok_at_end r idx = ap (at r) (omega arith)

ok_at_append :
    {A : Type 0} (r : A) (idx : ℕ) (vs ws : List Value)
    → at r (idx + length vs + length ws) ≡ at r (idx + length (vs ++ ws))
ok_at_append r idx vs ws = ap (at r) (omega (arith, length-append vs ws))

low32-small : (n : ℕ) → n < 2 ^ 32 → low32 n ≡ n
unfolding low32
low32-small n h = omega arith

module _ (now sample : ℕ) (metrics : List Metric) where
  mutual
    unfolding restore_value extract_from_value metrics_of_value

    restores_value :
        {v w : Value}
        → SameSchema v w
        → (idx : ℕ) → HoldsAt sample metrics idx (extract_from_value now w).values
        → restore_value sample metrics v idx
          ≡ ok (metrics_of_value w, idx + length (extract_from_value now w).values)
    restores_value (double f g r) idx h = rw h.0
    restores_value (document {d} {e} s) idx h = rw (restores_document s idx h)
    restores_value (array {a} {b} s) idx h = rw (restores_array s idx h)
    restores_value (boolean b true) idx h = rw h.0
    restores_value (boolean b false) idx h = rw h.0
    restores_value (date_time m n r) idx h = rw h.0 (rw (epoch_ms_lem n r))
    restores_value (int32 m n r) idx h = rw h.0 (rw (low32-int64_of_int32 n r))
    restores_value (timestamp s i t j p q) idx h =
        rw (h.0, h.1.0) (rw (low32-small t p, low32-small j q))
    restores_value (int64 m n r) idx h = rw h.0
    restores_value (opaque {v} {w} p q) idx h =
        rw (opaque_restore sample metrics v idx p)
          (rw ((opaque_metrics now w q).0, (opaque_metrics now w q).1) (ok_at_end none idx))

    restores_array :
        {a b : Array}
        → SameItems a b
        → (idx : ℕ) → HoldsAt sample metrics idx (extract_from_array now b).values
        → restore_array sample metrics a idx
          ≡ ok (metrics_of_array b, idx + length (extract_from_array now b).values)
    restores_array no_items idx h = ok_at_end nil idx
    restores_array (item {v} {w} {a} {b} s ss) idx h =
        let vs = (extract_from_value now w).values in
        let ws = (extract_from_array now b).values in
        let (front, back) = HoldsAt-append sample metrics idx vs ws h in
        rw (restores_value s idx front) (
          rw (restores_array ss (idx + length vs) back)
            (ok_at_append (cons_some (metrics_of_value w) (metrics_of_array b)) idx vs ws))

    restores_document :
        {d e : Document}
        → SameFields d e
        → (idx : ℕ) → HoldsAt sample metrics idx (extract_from_elements now e).values
        → restore_document sample metrics d idx
          ≡ ok (metrics_of_document e, idx + length (extract_from_elements now e).values)
    restores_document no_fields idx h = ok_at_end end idx
    restores_document (field {k} {v} {w} {d} {e} s ss) idx h =
        let vs = (extract_from_value now w).values in
        let ws = (extract_from_elements now e).values in
        let (front, back) = HoldsAt-append sample metrics idx vs ws h in
        rw (restores_value s idx front) (
          rw (restores_document ss (idx + length vs) back)
            (ok_at_append (append_some k (metrics_of_value w) (metrics_of_document e)) idx vs ws))

-- restoreDocument, with a reference of the same schema as `doc` and metrics that hold at the sample
-- what extractMetricsFromDocument takes from `doc`, returns `doc` without the elements that hold no
-- metric, and the index behind its metrics. The numbers of `doc` are in the range of their Go types
-- and its dates in that of UnixNano, the years 1678 to 2262.
pub restore_document-extract :
    (now sample : ℕ) (metrics : List Metric) (reference doc : Document)
    → SameFields reference doc
    → HoldsAt sample metrics 0 (extract_from_document now doc).values
    → restore_document sample metrics reference 0
      ≡ ok (metrics_of_document doc, length (extract_from_document now doc).values)
unfolding extract_from_document
restore_document-extract now sample metrics reference doc s h =
    restores_document now sample metrics s 0 h ∙ ap (at (metrics_of_document doc)) (omega arith)
