-- ===== src/Metrics/Restore.antt =====
-- bson_restore.go: documents rebuilt from a reference document and the series of its metrics.
pub mod RoundTrip
use ftdc.Prelude.{
  ℕ, zero, suc, ◌+◌, List, Option, none, some, Bool, false, true, ◌==◌, if◌then◌else◌, get_elem?,
}
use ftdc.Result.{Result, ok, err, ◌>>=◌, panicked}
use ftdc.Bson.{Text, BsonType, Value, Document, Array, end, element, nil, cons}
use ftdc.Metrics.Convert.{low32}
use ftdc.Metrics.Flatten.{Metric}

abbrev pub or_panic {ℓ} : {A : Type ℓ} → Option A → Result A
or_panic none = err panicked
or_panic (some a) = ok a

-- `metrics[idx].Values[sample]`
unfoldable pub value_at : ℕ → List Metric → ℕ → Result ℕ
value_at sample metrics idx = do
  m ← or_panic (get_elem? metrics idx)
  or_panic (get_elem? m.values sample)

-- The element is left out where Go returns nil.
abbrev pub append_some : Text → Option Value → Document → Document
append_some k none d = d
append_some k (some v) d = element k v d

abbrev pub cons_some : Option Value → Array → Array
cons_some none a = a
cons_some (some v) a = cons v a

-- Each takes the index of the next metric and returns the index behind those that it used. The
-- element keeps the reference's key.
unfoldable mutual
  pub restore_value : ℕ → List Metric → Value → ℕ → Result (Option Value × ℕ)
  restore_value sample metrics (Value.array a) idx = do
    (out, idx') ← restore_array sample metrics a idx
    ok (some (Value.array out), idx')
  restore_value sample metrics (Value.document d) idx = do
    (doc, idx') ← restore_document sample metrics d idx
    ok (some (Value.document doc), idx')
  restore_value sample metrics (Value.boolean _) idx = do
    value ← value_at sample metrics idx
    ok (some (Value.boolean (if value == 0 then false else true)), idx + 1)
  restore_value sample metrics (Value.double _) idx = do
    value ← value_at sample metrics idx
    ok (some (Value.double value), idx + 1)
  restore_value sample metrics (Value.int32 _) idx = do
    value ← value_at sample metrics idx
    ok (some (Value.int32 (low32 value)), idx + 1)
  restore_value sample metrics (Value.int64 _) idx = do
    value ← value_at sample metrics idx
    ok (some (Value.int64 value), idx + 1)
  restore_value sample metrics (Value.date_time _) idx = do
    value ← value_at sample metrics idx
    ok (some (Value.date_time value), idx + 1)
  restore_value sample metrics (Value.timestamp _ _) idx = do
    t ← value_at sample metrics idx
    i ← value_at sample metrics (idx + 1)
    ok (some (Value.timestamp (low32 t) (low32 i)), idx + 2)
  restore_value sample metrics _ idx = ok (none, idx)

  pub restore_array : ℕ → List Metric → Array → ℕ → Result (Array × ℕ)
  restore_array sample metrics nil idx = ok (nil, idx)
  restore_array sample metrics (cons v a) idx = do
    (item, idx') ← restore_value sample metrics v idx
    (items, idx'') ← restore_array sample metrics a idx'
    ok (cons_some item items, idx'')

  pub restore_document : ℕ → List Metric → Document → ℕ → Result (Document × ℕ)
  restore_document sample metrics end idx = ok (end, idx)
  restore_document sample metrics (element k v d) idx = do
    (elem, idx') ← restore_value sample metrics v idx
    (doc, idx'') ← restore_document sample metrics d idx'
    ok (append_some k elem doc, idx'')

unfoldable pub restore_flat : BsonType → ℕ → Value
restore_flat BsonType.boolean value = Value.boolean (if value == 0 then false else true)
restore_flat BsonType.double value = Value.double value
restore_flat BsonType.int32 value = Value.int32 (low32 value)
restore_flat BsonType.date_time value = Value.date_time value
restore_flat _ value = Value.int64 value
