-- ===== src/Tests/Csv.antt =====
-- CSV at concrete inputs.
use ftdc.Prelude.{ℕ, ◌-◌, ◌≡◌, refl, arith, List, [], ◌∷◌, ◌++◌, length, map, none, some, true}
use ftdc.Word.{All}
use ftdc.Result.{Result, ok}
use ftdc.Bson.{Text, BsonType, Value, Document, end, element}
use ftdc.Input.{Outcome}
use ftdc.Metrics.Flatten.{Metric, metric}
use ftdc.Read.{Chunk}
use ftdc.Chunk.{stream_flattened_documents}
use ftdc.Csv.Write.{Row, write_csv}
use ftdc.Csv.Rows.{row_file, is_plain}
use ftdc.Csv.Convert.{convert_rows, convert_from_csv}
use ftdc.Csv.Convert.Change.{convert_rows-changed}
use ftdc.Csv.RoundTrip.{convert_documents, convert_from_csv-write_csv}
use ftdc.Csv.Dump.{dump_csv}
use ftdc.Csv.Dump.Uniform.{row_directory, dump_csv-Uniform}
use ftdc.Csv.Uniform.{Uniform}
use ftdc.Tests.ToyCodec.{toy_codec}

abbrev count_metric : Metric
count_metric = record (metric [] (b'a' ∷ []) 5 BsonType.int64) { values = 5 ∷ 6 ∷ [] }

abbrev one_column : Chunk
one_column = record {
  metrics = count_metric ∷ [];
  n_points = 2;
  id = none;
  metadata = none;
  reference = end;
}

abbrev empty_chunk : Chunk
empty_chunk = record one_column { metrics = [] }

abbrev local_time : ℕ → Text
local_time seconds = b't' ∷ []

abbrev clock : ℕ → ℕ
clock rows = 100 - rows

abbrev written : List ℕ → List ℕ → List ℕ × Result ℕ
written payload w = (w ++ payload, ok (length payload))

abbrev points : List Document
points = element (b'a' ∷ []) (Value.int64 5) end ∷ element (b'a' ∷ []) (Value.int64 6) end ∷ []

one_column-is_plain :
    All (λ row. is_plain row ≡ true) (write_csv local_time row_file none (one_column ∷ []) []).0
unfolding write_csv
one_column-is_plain = (refl, (refl, (refl, tt)))

convert_from_csv-write_csv_example :
    ((write_csv local_time row_file none (one_column ∷ []) []).1 ≡ none)
    × (convert_from_csv toy_codec
          (some written)
          clock
          10
          (map ok (write_csv local_time row_file none (one_column ∷ []) []).0)
          []
        ≡ convert_documents toy_codec (some written) clock 10 points [])
unfolding stream_flattened_documents
convert_from_csv-write_csv_example =
    convert_from_csv-write_csv local_time toy_codec (some written) clock (map ok) one_column points
      10 [] (λ rows plain. refl) ((refl, (omega arith, (omega arith, tt))), tt) one_column-is_plain
      refl

abbrev header : Row
header = (b'a' ∷ []) ∷ []

abbrev wide : Row
wide = (b'1' ∷ []) ∷ (b'2' ∷ []) ∷ []

-- A collector that keeps the documents.
abbrev keep : ℕ → Document → List Document → Outcome (List Document)
keep now doc docs = (docs ++ (doc ∷ []), none)

convert_rows-changed_example :
    (convert_rows keep clock 1 header (ok wide ∷ ok header ∷ ok wide ∷ []) points).0 ≡ points
convert_rows-changed_example =
    convert_rows-changed keep clock 1 header wide (ok header ∷ ok wide ∷ []) points refl

dump_csv-Uniform_example :
    All
      (λ rows. (n : ℕ) × Uniform n rows)
      (dump_csv local_time row_file row_directory none
        (one_column ∷ empty_chunk ∷ one_column ∷ [])
        []).0.directory
dump_csv-Uniform_example =
    dump_csv-Uniform local_time none (one_column ∷ empty_chunk ∷ one_column ∷ [])
