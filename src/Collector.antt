-- ===== src/Collector.antt =====
-- collector.go and the collector_*.go files.
pub mod Interface
pub mod Better
pub mod Batch
pub mod Dynamic
pub mod Sample
pub mod Uncompressed
pub mod Streaming
pub mod StreamingDynamic
pub mod WriterCollector
