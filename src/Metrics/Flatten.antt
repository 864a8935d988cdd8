-- ===== src/Metrics/Flatten.antt =====
-- bson_metric.go and ftdc.go: the metrics that a reference document describes.
pub mod Agree
use ftdc.Prelude.{ℕ, ◌+◌, ◌*◌, List, [], ◌∷◌, ◌++◌, map, if◌then◌else◌}
use ftdc.Bson.{Text, BsonType, Value, Document, Array, end, element, nil, cons}
use ftdc.Metrics.Convert.{int64_of_int32, epoch_ms}
use ftdc.Metrics.Key.{dot, decimal, join}

pub record Metric : Type 0 where
  pub parent_path : List Text
  pub key_name : Text
  pub values : List ℕ
  pub starting_value : ℕ
  pub original_type : BsonType

-- Metric.Key
unfoldable pub metric_key : Metric → Text
unfolding join
metric_key m = join (m.parent_path ++ (m.key_name ∷ []))

abbrev pub metric : List Text → Text → ℕ → BsonType → Metric
metric path key start t = record {
  parent_path = path;
  key_name = key;
  values = [];
  starting_value = start;
  original_type = t;
}

-- The copy that metricForType makes of each metric of an embedded document.
abbrev pub relocated : List Text → Metric → Metric
relocated path ne = metric path ne.key_name ne.starting_value ne.original_type

-- ".inc"
abbrev pub inc_suffix : Text
inc_suffix = b'.' ∷ b'i' ∷ b'n' ∷ b'c' ∷ []

unfoldable mutual
  pub metric_for_type : Text → List Text → Value → List Metric
  metric_for_type key path (Value.array a) = metric_for_array key path 0 a
  metric_for_type key path (Value.document d) =
      map (relocated (path ++ (key ∷ []))) (metric_for_document (path ++ (key ∷ [])) d)
  metric_for_type key path (Value.boolean b) =
      metric path key (if b then 1 else 0) BsonType.boolean ∷ []
  metric_for_type key path (Value.double f) = metric path key f BsonType.double ∷ []
  metric_for_type key path (Value.int32 i) = metric path key (int64_of_int32 i) BsonType.int32 ∷ []
  metric_for_type key path (Value.int64 i) = metric path key i BsonType.int64 ∷ []
  metric_for_type key path (Value.date_time ms) =
      metric path key (epoch_ms ms) BsonType.date_time ∷ []
  metric_for_type key path (Value.timestamp t i) =
      metric path key (t * 1000) BsonType.timestamp
      ∷ metric path (key ++ inc_suffix) i BsonType.timestamp
      ∷ []
  metric_for_type key path _ = []

  -- the loop of metricForArray, from index `idx` on
  pub metric_for_array : Text → List Text → ℕ → Array → List Metric
  metric_for_array key path idx nil = []
  metric_for_array key path idx (cons v a) =
      metric_for_type (key ++ (dot ∷ decimal idx)) path v ++ metric_for_array key path (idx + 1) a

  pub metric_for_document : List Text → Document → List Metric
  metric_for_document path end = []
  metric_for_document path (element k v d) = metric_for_type k path v ++ metric_for_document path d
