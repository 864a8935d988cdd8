-- ===== src/Csv/Write.antt =====
-- WriteCSV and DumpCSV of csv.go. `chunks` are those that ChunkIterator.Next hands out, `failure` is its
-- Err; the context is not cancelled.
use ftdc.Prelude.{
  ℕ, zero, suc, ◌+◌, ◌-◌, ◌/◌, ◌%◌, ◌^◌, true, false, ◌==◌, ltb, if◌then◌else◌, List, [], ◌∷◌,
  length, get_elem?, Option, none, some,
}
use ftdc.Word.{word}
use ftdc.Result.{Error, Result, ok, err, ◌>>=◌, csv_schema_change}
use ftdc.Bson.{Text, BsonType}
use ftdc.Input.{Outcome}
use ftdc.Metrics.Flatten.{Metric}
use ftdc.Metrics.Restore.{or_panic}
use ftdc.Read.{Chunk}
use ftdc.Chunk.Iterator.{get_field_names}
use ftdc.Csv.Number.{format_int}

abbrev pub Row : Type 0
Row = List Text

-- A csv.Writer over the state `W`: Write, and Flush with the Error that follows it.
pub record CsvWriter (W : Type 0) : Type 0 where
  pub write : Row → W → Outcome W
  pub flush : W → Outcome W

-- `if err != nil { return err }`
unfoldable pub and_then {ℓ} : {W : Type ℓ} → Outcome W → (W → Outcome W) → Outcome W
and_then (w, some e) next = (w, some e)
and_then (w, none) next = next w

-- `v / 1000` on an int64.
unfoldable pub seconds_of : ℕ → ℕ
seconds_of v = if ltb v (2 ^ 63) then v / 1000 else (word - ((word - v) / 1000)) % word

-- time.Unix(seconds, 0).Format(time.RFC3339), in the time zone of the machine.
module _ (format_time : ℕ → Text) where
  -- The field of one metric.
  unfoldable pub record_field : ℕ → BsonType → List ℕ → Result Text
  unfolding format_int seconds_of
  record_field i BsonType.double values = do v ← or_panic (get_elem? values i); ok (format_int v)
  record_field i BsonType.int32 values = do v ← or_panic (get_elem? values i); ok (format_int v)
  record_field i BsonType.int64 values = do v ← or_panic (get_elem? values i); ok (format_int v)
  record_field i BsonType.boolean values = do v ← or_panic (get_elem? values i); ok (format_int v)
  record_field i BsonType.timestamp values = do v ← or_panic (get_elem? values i); ok (format_int v)
  record_field i BsonType.date_time values = do
    v ← or_panic (get_elem? values i)
    ok (format_time (seconds_of v))
  record_field i t values = ok []

  unfoldable pub get_record : ℕ → List Metric → Result Row
  unfolding record_field
  get_record i [] = ok []
  get_record i (m ∷ ms) = do
    field ← record_field i m.original_type m.values
    fields ← get_record i ms
    ok (field ∷ fields)

  module _ {W : Type 0} (csvw : CsvWriter W) where
    -- `for i := 0; i < chunk.nPoints; i++`, for the rounds left and the index.
    unfoldable pub write_records : List Metric → ℕ → ℕ → W → Outcome W
    unfolding get_record and_then
    write_records ms zero i w = (w, none)
    write_records ms (suc n) i w = elim (get_record i ms) [
      | err e ↦ (w, some e)
      | ok row ↦ and_then (csvw.write row w) (write_records ms n (i + 1))
    ]

    -- The records of a chunk, and the flush behind them.
    unfoldable pub write_chunk : Chunk → W → Outcome W
    unfolding write_records and_then
    write_chunk c w = and_then (write_records c.metrics c.n_points 0 w) csvw.flush

    -- The loop of WriteCSV, for `numFields`.
    unfoldable pub write_chunks : Option Error → ℕ → List Chunk → W → Outcome W
    unfolding write_chunk get_field_names and_then
    write_chunks failure num_fields [] w = (w, failure)
    write_chunks failure num_fields (c ∷ cs) w =
        let names = get_field_names c in
        elim (num_fields == 0) [
          | true ↦
              and_then (csvw.write names w)
                λ w'. and_then (write_chunk c w') (write_chunks failure (length names) cs)
          | false ↦ elim (num_fields == length c.metrics) [
            | false ↦ (w, some csv_schema_change)
            | true ↦ and_then (write_chunk c w) (write_chunks failure num_fields cs)
          ]
        ]

    -- WriteCSV
    unfoldable pub write_csv : Option Error → List Chunk → W → Outcome W
    unfolding write_chunks
    write_csv failure chunks w = write_chunks failure 0 chunks w
