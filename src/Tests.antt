-- ===== src/Tests.antt =====
-- Examples: libraries that compress nothing, data, and the theorems at concrete inputs.
pub mod ToyCodec
mod RoundTrips
mod Collectors
mod JsonStream
mod Streams
mod Values
mod Events
mod Csv
mod Custom
mod Bson
