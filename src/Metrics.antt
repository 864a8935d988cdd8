-- ===== src/Metrics.antt =====
-- How a document becomes metrics: bson_extract.go, bson_metric.go, bson_restore.go, bson_hash.go, and the
-- conversions of util.go.
pub mod Extract
pub mod Flatten
pub mod Restore
pub mod Key
pub mod Convert
pub mod Hash
pub mod Exact
