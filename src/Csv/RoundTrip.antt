-- ===== src/Csv/RoundTrip.antt =====
-- Rows that WriteCSV has written, read by ConvertFromCSV (csv.go).
use ftdc.Prelude.{
  ℕ, suc, ◌≡◌, refl, sym, ap, ◌∙◌, true, ◌==◌, ==_iff, List, [], ◌∷◌, map, length, length-map, none,
  some,
}
use ftdc.Csv.Rows.{row_file, is_plain, IsInt64, ReadBack, write_records-rows}
use ftdc.Word.{All}
use ftdc.Result.{Result, ok}
use ftdc.Bson.{Text, Document}
use ftdc.Codec.{Codec}
use ftdc.Input.{Outcome, document}
use ftdc.Metrics.Flatten.{Metric, metric_key}
use ftdc.Read.{Chunk}
use ftdc.Chunk.{stream_flattened_documents}
use ftdc.Chunk.Iterator.{get_field_names}
use ftdc.Collector.Streaming.{Writer}
use ftdc.Collector.StreamingDynamic
use ftdc.Collector.StreamingDynamic.{StreamingDynamicCollector, new_streaming_dynamic_collector}
use ftdc.Csv.Write.{Row, and_then, write_records, write_chunk, write_chunks, write_csv}
use ftdc.Csv.Convert.{row_document, convert_rows, flush_logged, convert_from_csv}

-- The documents, added one after the other up to an error.
unfoldable pub add_documents :
    {S : Type 0} → (ℕ → Document → S → Outcome S) → (ℕ → ℕ) → List Document → S → Outcome S
unfolding and_then
add_documents add clock [] c = (c, none)
add_documents add clock (d ∷ ds) c =
    and_then (add (clock (length ds)) d c) (add_documents add clock ds)

length-ReadBack :
    (ms : List Metric) (rows : List Row) (docs : List Document)
    → ReadBack ms rows docs
    → length rows ≡ length docs
length-ReadBack ms [] [] h = refl
length-ReadBack ms [] (d ∷ ds) h = absurd h
length-ReadBack ms (row ∷ rows) [] h = absurd h
length-ReadBack ms (row ∷ rows) (d ∷ ds) h = ap suc (length-ReadBack ms rows ds h.2)

and_then-eq :
    {S : Type 0} (r : Outcome S) {f g : S → Outcome S}
    → ((c : S) → f c ≡ g c)
    → and_then r f ≡ and_then r g
unfolding and_then
and_then-eq (c, none) h = h c
and_then-eq (c, some e) h = refl

convert_rows-add :
    {S : Type 0} (add : ℕ → Document → S → Outcome S) (clock : ℕ → ℕ) (fields : ℕ)
    (header row : Row) (rest : List (Result Row)) (c : S)
    → (length row == fields) ≡ true
    → (length row == length header) ≡ true
    → convert_rows add clock fields header (ok row ∷ rest) c
      ≡ and_then
          (add (clock (length rest)) (row_document header row) c)
          (convert_rows add clock fields header rest)
unfolding convert_rows
convert_rows-add add clock fields header row rest c e h = rw (e, h, convert_rows) refl

convert_rows-ReadBack :
    {S : Type 0} (add : ℕ → Document → S → Outcome S) (clock : ℕ → ℕ) (ms : List Metric)
    (rows : List Row) (docs : List Document) (c : S)
    → ReadBack ms rows docs
    → convert_rows add clock (length (map metric_key ms)) (map metric_key ms) (map ok rows) c
      ≡ add_documents add clock docs c
unfolding convert_rows add_documents and_then
convert_rows-ReadBack add clock ms [] [] c h = refl
convert_rows-ReadBack add clock ms [] (d ∷ ds) c h = absurd h
convert_rows-ReadBack add clock ms (row ∷ rows) [] c h = absurd h
convert_rows-ReadBack {S} add clock ms (row ∷ rows) (d ∷ ds) c h =
    let names = map metric_key ms in
    let size : (length row == length names) ≡ true =
      (==_iff (length row) (length names)).1 (h.1 ∙ sym (length-map ms metric_key)) in
    let ih = λ (c' : S). convert_rows-ReadBack add clock ms rows ds c' h.2 in
    let more = convert_rows add clock (length names) names (map ok rows) in
    convert_rows-add add clock (length names) names row (map ok rows) c size size
    ∙ ap (λ n. and_then (add (clock n) (row_document names row) c) more)
        (length-map rows ok ∙ length-ReadBack ms rows ds h.2)
    ∙ ap (λ doc. and_then (add (clock (length ds)) doc c) more) h.0
    ∙ and_then-eq (add (clock (length ds)) d c) ih

abbrev flushed_output :
    {W : Type 0} → Codec → Writer W → Outcome (StreamingDynamicCollector W) → Outcome W
flushed_output codec write r = let (c, e) = flush_logged codec write r in (c.streaming.output, e)

-- ConvertFromCSV of documents in place of rows.
unfoldable pub convert_documents :
    {W : Type 0} → Codec → Writer W → (ℕ → ℕ) → ℕ → List Document → W → Outcome W
unfolding add_documents StreamingDynamic.add new_streaming_dynamic_collector
convert_documents {W} codec write clock bucket_size docs output =
    let add : ℕ → Document → StreamingDynamicCollector W → Outcome (StreamingDynamicCollector W) =
      λ now doc. StreamingDynamic.add codec write now (document doc) in
    flushed_output codec write
      (add_documents add clock docs (new_streaming_dynamic_collector bucket_size output))

module _ (format_time : ℕ → Text) {W : Type 0} (codec : Codec) (write : Writer W)
    (clock : ℕ → ℕ) where
  write_csv-chunk :
      (c : Chunk) (rows : List Row)
      → write_records format_time row_file c.metrics c.n_points 0 (get_field_names c ∷ [])
        ≡ (get_field_names c ∷ rows, none)
      → write_csv format_time row_file none (c ∷ []) [] ≡ (get_field_names c ∷ rows, none)
  unfolding write_csv write_chunks write_chunk and_then
  write_csv-chunk c rows e = rw (e) refl

  -- Where csv.Reader reads the rows that csv.Writer has written, but for blank lines and carriage
  -- returns: WriteCSV of a chunk with metrics that are all of int64s, whose points have flat
  -- documents, and whose file has neither, returns nil, and ConvertFromCSV of its file writes the
  -- output, and returns the error, that a streamingDynamicCollector makes of these flat documents,
  -- added in order, and a flush.
  pub convert_from_csv-write_csv :
      (read_text : List Row → List (Result Row)) (c : Chunk) (docs : List Document)
      (bucket_size : ℕ) (output : W)
      → ((rows : List Row) → All (λ row. is_plain row ≡ true) rows → read_text rows ≡ map ok rows)
      → All IsInt64 c.metrics
      → All (λ row. is_plain row ≡ true) (write_csv format_time row_file none (c ∷ []) []).0
      → stream_flattened_documents c ≡ ok docs
      → ((write_csv format_time row_file none (c ∷ []) []).1 ≡ none)
        × (convert_from_csv codec write clock bucket_size
              (read_text (write_csv format_time row_file none (c ∷ []) []).0)
              output
            ≡ convert_documents codec write clock bucket_size docs output)
  unfolding stream_flattened_documents convert_from_csv convert_documents get_field_names
  convert_from_csv-write_csv read_text c docs bucket_size output csv h plain e =
      let names = get_field_names c in
      let (rows, wrote, back) =
        write_records-rows format_time c.metrics c.n_points 0 docs (names ∷ []) h e in
      let file = write_csv-chunk c rows wrote in
      let add : ℕ → Document → StreamingDynamicCollector W → Outcome (StreamingDynamicCollector W) =
        λ now doc. StreamingDynamic.add codec write now (document doc) in
      let converted =
        convert_rows-ReadBack add clock c.metrics rows docs
          (new_streaming_dynamic_collector bucket_size output) back in
      (
        ap (λ w. w.1) file,
        ap (λ rs. convert_from_csv codec write clock bucket_size rs output)
              (csv _ plain ∙ ap (λ w. map ok w.0) file)
            ∙ ap (λ r. flushed_output codec write r) converted,
      )
