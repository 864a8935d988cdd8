-- ===== src/Metrics/Extract.antt =====
-- bson_extract.go: the values of a document that are metrics, in order.
pub mod Kinds
use ftdc.Prelude.{ℕ, List, [], ◌∷◌, ◌++◌, Option, none, some, if◌then◌else◌}
use ftdc.Result.{Result, ok, err, invalid_type, panicked}
use ftdc.Word.{sub64}
use ftdc.Bson.{BsonType, Value, Document, Array, end, element, nil, cons}
use ftdc.Metrics.Convert.{int64_of_int32, epoch_ms}

-- `ts` is `none` where Go has the zero time.
pub record ExtractedMetrics : Type 0 where
  pub values : List Value
  pub types : List BsonType
  pub ts : Option ℕ

abbrev pub no_metrics : ExtractedMetrics
no_metrics = record { values = []; types = []; ts = none }

-- The values of one element, before those of the elements behind it; the first time counts.
abbrev pub joined : ExtractedMetrics → ExtractedMetrics → ExtractedMetrics
joined data_ rest = record {
  values = data_.values ++ rest.values;
  types = data_.types ++ rest.types;
  ts = elim data_.ts [ none ↦ rest.ts | some t ↦ some t ];
}

abbrev pub single : Value → BsonType → ExtractedMetrics
single v t = record { values = v ∷ []; types = t ∷ []; ts = none }

-- `if metrics.ts.IsZero() { metrics.ts = time.Now() }`
abbrev pub stamped : ℕ → ExtractedMetrics → ExtractedMetrics
stamped now m = record m { ts = elim m.ts [ none ↦ some now | some t ↦ some t ] }

-- `now` stands for the readings of the clock during one call.
unfoldable mutual
  pub extract_from_value : ℕ → Value → ExtractedMetrics
  extract_from_value now (Value.array a) = extract_from_array now a
  extract_from_value now (Value.document d) = stamped now (extract_from_elements now d)
  extract_from_value now (Value.boolean b) =
      single (Value.int64 (if b then 1 else 0)) BsonType.boolean
  extract_from_value now (Value.double f) = single (Value.double f) BsonType.double
  extract_from_value now (Value.int32 i) = single (Value.int64 (int64_of_int32 i)) BsonType.int32
  extract_from_value now (Value.int64 i) = single (Value.int64 i) BsonType.int64
  extract_from_value now (Value.date_time ms) =
      single (Value.int64 (epoch_ms ms)) BsonType.date_time
  extract_from_value now (Value.timestamp t i) = record {
    values = Value.int64 t ∷ Value.int64 i ∷ [];
    types = BsonType.timestamp ∷ BsonType.timestamp ∷ [];
    ts = none;
  }
  extract_from_value now _ = no_metrics

  pub extract_from_array : ℕ → Array → ExtractedMetrics
  extract_from_array now nil = no_metrics
  extract_from_array now (cons v a) = joined (extract_from_value now v) (extract_from_array now a)

  -- the loop of extractMetricsFromDocument
  pub extract_from_elements : ℕ → Document → ExtractedMetrics
  extract_from_elements now end = no_metrics
  extract_from_elements now (element k v d) =
      joined (extract_from_value now v) (extract_from_elements now d)

unfoldable pub extract_from_document : ℕ → Document → ExtractedMetrics
unfolding extract_from_value
extract_from_document now d = stamped now (extract_from_elements now d)

-- `float_sub` is the subtraction of two doubles, on their bits. A mix of the two types, on which
-- Go panics, does not come up where the types have been compared.
unfoldable pub extract_delta : (ℕ → ℕ → ℕ) → Value → Value → Result ℕ
extract_delta float_sub (Value.double current) (Value.double previous) =
    ok (float_sub current previous)
extract_delta float_sub (Value.int64 current) (Value.int64 previous) = ok (sub64 current previous)
extract_delta float_sub (Value.double current) _ = err panicked
extract_delta float_sub (Value.int64 current) _ = err panicked
extract_delta float_sub _ _ = err invalid_type
