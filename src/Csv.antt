-- ===== src/Csv.antt =====
-- csv.go: chunks as rows of text, and rows of text as a stream of chunks.
pub mod Number
pub mod Write
pub mod Dump
pub mod Convert
pub mod Rows
pub mod RoundTrip
pub mod Uniform
