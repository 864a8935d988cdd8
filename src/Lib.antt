-- ===== src/Lib.antt =====
-- A model of the ftdc package of this repository, which collects documents of metrics, stores them
-- as compressed chunks of deltas and reads them back.
--
-- Documents are data (Bson, Bson/Lookup: bsonx/document.go, bsonx/value.go, bsonx/bsontype), and
-- Bson/Encode is what MarshalBSON writes of one (bsonx/document.go, bsonx/element.go, bsonx/array.go,
-- bsonx/elements/elements.go). Bson/Decode is how ReadFrom and UnmarshalBSON read them (bsonx/reader.go,
-- bsonx/value.go), and how the accessors of Value read the values of all elements; the code does the
-- latter when a value is asked for, the model when the document is read. zlib, the checksums, the JSON of
-- mongo-driver and the arithmetic of doubles are the record Codec, with the laws that the code relies on
-- as CodecLaws; Tests/ToyCodec has them. Input is readDocument of util.go.
--
-- The numbers of a document: Metrics/Extract (bson_extract.go) takes them out for the collectors,
-- Metrics/Flatten (bson_metric.go, and Metric in ftdc.go) finds them again in the reference document
-- of a chunk, Metrics/Restore (bson_restore.go) puts them back into a document, Metrics/Hash
-- (bson_hash.go) hashes their keys. Metrics/Restore/RoundTrip says when two documents have one
-- schema (SameFields), and Metrics/Exact which documents hold integers only.
--
-- The encoding of a chunk: Varint (encoding/binary as util.go uses it) and Series (the loops of
-- getPayload in collector_better.go and of readChunks in read.go, undelta in util.go).
--
-- The collectors, a module each under Collector: Interface (collector.go), Better
-- (collector_better.go), Batch, Dynamic, Sample, Uncompressed, Streaming and StreamingDynamic
-- (collector_streaming.go), WriterCollector (writer.go). A method is a function from the state to
-- the new state and the error, `none` for nil; Go's mutable fields are the fields of the record. The
-- clock's reading is an argument, a writer a function on its own state. Batch and Dynamic pass
-- documents to Better; Streaming holds a better or an uncompressed collector (Inner).
--
-- The package events: Events/Performance (events/performance.go) is a point, Events/Recorder
-- (events/recorder.go) the interface of a recorder, and Point, Raw, Single, Grouped and Interval
-- below it the recorders of events/recorder_performance_*.go. Events/Histogram
-- (events/histogram.go) and Single, Stream, Grouped and Interval below it are those of
-- events/recorder_histogram*.go, over histograms that are a parameter (Hdrhist). A recorder hands its
-- points to a Sink, a function on the collector's state. Calls has the methods as data, Log what a
-- collector was handed, Shim is events/recorder_wrapper_stdlib.go. Synchronized is
-- events/recorder_wrapper_sync.go: threads, a mutex and the shared recorder as a step relation.
-- Events/Custom is events/custom.go, with EC.Interface of bsonx/constructor.go and Value.Interface of
-- bsonx/value.go.
--
-- The reader: Read (read.go, iterator_chunk.go) turns bytes into chunks, Chunk (iterator_sample.go)
-- and Chunk/Matrix (bson_matrix.go, iterator_matrix.go) turn a chunk into documents, Chunk/Iterator
-- (iterator_combined.go, iterator_matrix.go) goes over all chunks. What a goroutine sends on a
-- channel is a list, in the order of the sends.
--
-- An int64 is its bit pattern, a number below 2 ^ 64 (Word), a double its IEEE 754 bits. Where Go
-- panics, the model returns the error `panicked`. Loops are structural recursion; PutUvarint is bounded
-- by the ten bytes of its buffer, which hold every uint64, and readDiagnostic by one more than the
-- number of bytes, since each document takes five.
--
-- Csv (csv.go): Csv/Write is WriteCSV, Csv/Dump DumpCSV and Csv/Convert ConvertFromCSV, on the rows of
-- encoding/csv; Csv/Number is what they call of strconv. Twenty digits hold every uint64.
--
-- JsonStream (json.go) is CollectJSONStream, over the list of what its select receives: documents, the
-- end of the source, the timer and the end of the context.
--
-- readElements is bounded by one round more than the slice has bytes: a longer run of its loop comes
-- back to a position, and never ends. The accessors are bounded by the length of the slice, which is
-- more than values can be nested.
--
-- Not modelled: the index, the lookups and the constructors of bsonx, its iterators, the other goroutines and the cancellation of their contexts,
-- getSource of json.go, the packages hdrhist (a copy of another library) and metrics, and the vendored
-- libraries.
pub mod Prelude
pub mod Result
pub mod Word
pub mod Varint
pub mod Bson
pub mod Codec
pub mod Input
pub mod JsonStream
pub mod Metrics
pub mod Series
pub mod Collector
pub mod Read
pub mod Chunk
pub mod Csv
pub mod Events
pub mod Tests
