-- ===== src/Events.antt =====
-- The package events: what a test records, and the recorders that turn it into samples.
pub mod Performance
pub mod Recorder
pub mod Histogram
pub mod Synchronized
pub mod Custom
