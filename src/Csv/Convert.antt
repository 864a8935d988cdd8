-- ===== src/Csv/Convert.antt =====
-- ConvertFromCSV of csv.go. The input is what csv.Reader finds, a row or the error of a row that it
-- cannot parse; the context is not cancelled.
pub mod Change
use ftdc.Prelude.{ℕ, Bool, true, false, ◌==◌, List, [], ◌∷◌, length, Option, none, some}
use ftdc.Result.{Error, Result, ok, err, eof, field_count}
use ftdc.Bson.{Text, Value, Document, end, element}
use ftdc.Codec.{Codec}
use ftdc.Input.{Outcome, document}
use ftdc.Collector.Streaming.{Writer}
use ftdc.Collector.StreamingDynamic
use ftdc.Collector.StreamingDynamic.{StreamingDynamicCollector, new_streaming_dynamic_collector}
use ftdc.Csv.Number.{atoi}
use ftdc.Csv.Write.{Row, and_then}

-- The elements of a record: the fields that Atoi reads.
unfoldable pub row_document : Row → Row → Document
unfolding atoi
row_document (name ∷ header) (field ∷ record_) =
    let rest = row_document header record_ in
    elim (atoi field) [ none ↦ rest | some v ↦ element name (Value.int64 v) rest ]
row_document header record_ = end

module _ {S : Type 0} (add : ℕ → Document → S → Outcome S) (clock : ℕ → ℕ) where
  -- The loop. `fields` is the number of fields that csv.Reader expects, that of the first row; Read
  -- returns ErrFieldCount beside any other row. Add reads the clock by the rows that follow.
  unfoldable pub convert_rows : ℕ → Row → List (Result Row) → S → Outcome S
  unfolding row_document and_then
  convert_rows fields header [] c = (c, none)
  convert_rows fields header (err e ∷ rest) c = (c, some e)
  convert_rows fields header (ok row ∷ rest) c = elim (length row == fields) [
    | false ↦ convert_rows fields row rest c
    | true ↦ elim (length row == length header) [
      | false ↦ (c, some field_count)
      | true ↦
          and_then (add (clock (length rest)) (row_document header row) c)
            (convert_rows fields header rest)
    ]
  ]

module _ {W : Type 0} (codec : Codec) (write : Writer W) where
  -- The deferred FlushCollector, the error of which is only logged.
  unfoldable pub flush_logged :
      Outcome (StreamingDynamicCollector W) → Outcome (StreamingDynamicCollector W)
  unfolding StreamingDynamic.flush
  flush_logged (c, e) = ((StreamingDynamic.flush codec write c).0, e)

  -- ConvertFromCSV: the output, and the error.
  unfoldable pub convert_from_csv : (ℕ → ℕ) → ℕ → List (Result Row) → W → Outcome W
  unfolding convert_rows flush_logged StreamingDynamic.add new_streaming_dynamic_collector
  convert_from_csv clock bucket_size [] output = (output, some eof)
  convert_from_csv clock bucket_size (err e ∷ rows) output = (output, some e)
  convert_from_csv clock bucket_size (ok header ∷ rows) output =
      let add : ℕ → Document → StreamingDynamicCollector W → Outcome (StreamingDynamicCollector W) =
        λ now doc. StreamingDynamic.add codec write now (document doc) in
      let (c, e) = flush_logged (
        convert_rows add clock (length header) header rows
          (new_streaming_dynamic_collector bucket_size output)) in
      (c.streaming.output, e)
