-- ===== src/Csv/Rows.antt =====
-- The rows that WriteCSV writes for the points of a chunk (csv.go).
use ftdc.Prelude.{
  ℕ, zero, suc, ◌+◌, ◌≡◌, refl, sym, ap, ◌∙◌, List, [], ◌∷◌, ◌++◌, map, length, get_elem?, Option,
  none, some, Bool, true, false, not, ◌&&◌, ◌==◌,
}
use mathlib.Core.List.{append-nil, append_assoc}
use mathlib.Core.Path.{subst}
use ftdc.Word.{IsWord, All}
use ftdc.Result.{ok, >>=-eq-ok, ok_injective}
use ftdc.Bson.{Text, BsonType, Value, Document, element}
use ftdc.Metrics.Flatten.{Metric, metric_key}
use ftdc.Metrics.Restore.{or_panic, restore_flat}
use ftdc.Chunk.{flat_document, stream_from}
use ftdc.Csv.Number.{format_int, atoi, atoi-format_int}
use ftdc.Csv.Write.{Row, CsvWriter, and_then, record_field, get_record, write_records}
use ftdc.Csv.Convert.{row_document}

-- A csv.Writer that never fails, as the rows of its file.
abbrev pub row_file : CsvWriter (List Row)
row_file = record { write = λ row rows. (rows ++ (row ∷ []), none); flush = λ rows. (rows, none) }

abbrev no_return : Text → Bool
no_return [] = true
no_return (b ∷ bs) = not (b == 13) && no_return bs

abbrev no_returns : Row → Bool
no_returns [] = true
no_returns (field ∷ fields) = no_return field && no_returns fields

-- A row that encoding/csv reads back as it has written it: a blank line is skipped, and a carriage
-- return before the end of a line is dropped.
abbrev pub is_plain : Row → Bool
is_plain [] = false
is_plain ([] ∷ []) = false
is_plain row = no_returns row

-- A metric of int64s.
abbrev pub IsInt64 : Metric → Type 0
IsInt64 m = (m.original_type ≡ BsonType.int64) × All IsWord m.values

All-get_elem? :
    (values : List ℕ) (i : ℕ) {v : ℕ} → All IsWord values → get_elem? values i ≡ some v → IsWord v
All-get_elem? [] i h e = absurd cc
All-get_elem? (x ∷ values) zero {v = v} h e = (let q : x ≡ v = cc in rw (q) at (h.0))
All-get_elem? (x ∷ values) (suc i) h e = All-get_elem? values i h.1 e

or_panic-ok : {A : Type 0} (o : Option A) {a : A} → or_panic o ≡ ok a → o ≡ some a
or_panic-ok none e = cc
or_panic-ok (some b) e = cc

-- Rows of as many fields as there are metrics, that are read back as the documents.
abbrev pub ReadBack : List Metric → List Row → List Document → Type 0
ReadBack ms [] [] = Unit
ReadBack ms (row ∷ rows) (doc ∷ docs) =
    (row_document (map metric_key ms) row ≡ doc) × (length row ≡ length ms) × ReadBack ms rows docs
ReadBack ms rows docs = ⊥

restore_flat-int64 : (t : BsonType) (v : ℕ) → t ≡ BsonType.int64 → restore_flat t v ≡ Value.int64 v
unfolding restore_flat
restore_flat-int64 t v e = rw (e) refl

row_document-more :
    (name field : Text) (header row : Row) (v : ℕ) (rest : Document)
    → atoi field ≡ some v
    → row_document header row ≡ rest
    → row_document (name ∷ header) (field ∷ row) ≡ element name (Value.int64 v) rest
unfolding row_document
row_document-more name field header row v rest e h =
    rw (e, row_document) (ap (element name (Value.int64 v)) h)

module _ (format_time : ℕ → Text) where
  record_field-int64 :
      (i : ℕ) (t : BsonType) (values : List ℕ) (v : ℕ)
      → t ≡ BsonType.int64
      → or_panic (get_elem? values i) ≡ ok v
      → record_field format_time i t values ≡ ok (format_int v)
  unfolding record_field
  record_field-int64 i t values v e h = rw (e, h) refl

  get_record-more :
      (i : ℕ) (m : Metric) (ms : List Metric) (field : Text) (row : Row)
      → record_field format_time i m.original_type m.values ≡ ok field
      → get_record format_time i ms ≡ ok row
      → get_record format_time i (m ∷ ms) ≡ ok (field ∷ row)
  unfolding get_record
  get_record-more i m ms field row e h = rw (e, h) refl

  -- The record of a point is read back as the flat document of the point.
  get_record-row_document :
      (i : ℕ) (ms : List Metric) (doc : Document)
      → All IsInt64 ms
      → flat_document i ms ≡ ok doc
      → (row : Row) × (get_record format_time i ms ≡ ok row)
        × (row_document (map metric_key ms) row ≡ doc)
        × (length row ≡ length ms)
  unfolding get_record flat_document row_document
  get_record-row_document i [] doc h e = ([], refl, ok_injective e, refl)
  get_record-row_document i (m ∷ ms) doc h e =
      let (v, ev, e1) = >>=-eq-ok (or_panic (get_elem? m.values i)) _ e in
      let (rest, er, e2) = >>=-eq-ok (flat_document i ms) _ e1 in
      let fits : IsWord v =
        All-get_elem? m.values i h.0.1 (or_panic-ok (get_elem? m.values i) ev) in
      let (row, got, back, size) = get_record-row_document i ms rest h.1 er in
      let field = record_field-int64 i m.original_type m.values v h.0.0 ev in
      let names = map metric_key ms in
      let same : element (metric_key m) (Value.int64 v) rest ≡ doc =
        ap (λ value. element (metric_key m) value rest)
          (sym (restore_flat-int64 m.original_type v h.0.0))
        ∙ ok_injective e2 in
      (
        format_int v ∷ row,
        get_record-more i m ms (format_int v) row field got,
        row_document-more (metric_key m) (format_int v) names row v rest (atoi-format_int v fits)
              back
            ∙ same,
        ap suc size,
      )

  write_records-more :
      (ms : List Metric) (n i : ℕ) (row : Row) (before : List Row)
      → get_record format_time i ms ≡ ok row
      → write_records format_time row_file ms (suc n) i before
        ≡ write_records format_time row_file ms n (i + 1) (before ++ (row ∷ []))
  unfolding write_records and_then
  write_records-more ms n i row before e = rw (e, write_records) refl

  -- The records of all points, behind those that are there.
  pub write_records-rows :
      (ms : List Metric) (n i : ℕ) (docs : List Document) (before : List Row)
      → All IsInt64 ms
      → stream_from (λ j. flat_document j ms) n i ≡ ok docs
      → (rows : List Row) × (write_records format_time row_file ms n i before
          ≡ (before ++ rows, none))
        × ReadBack ms rows docs
  unfolding write_records stream_from and_then
  write_records-rows ms zero i [] before h e =
      ([], ap (λ rows. (rows, none)) (sym (append-nil before)), tt)
  write_records-rows ms zero i (d ∷ ds) before h e = cc
  write_records-rows ms (suc n) i docs before h e =
      let (d, ed, e1) = >>=-eq-ok (flat_document i ms) _ e in
      let (ds, es, e2) = >>=-eq-ok (stream_from (λ j. flat_document j ms) n (i + 1)) _ e1 in
      let (row, got, back, size) = get_record-row_document i ms d h ed in
      let (rows, wrote, rest) = write_records-rows ms n (i + 1) ds (before ++ (row ∷ [])) h es in
      let read_back : ReadBack ms (row ∷ rows) (d ∷ ds) = (back, size, rest) in
      (
        row ∷ rows,
        write_records-more ms n i row before got
            ∙ wrote
            ∙ ap (λ w. (w, none)) (append_assoc before (row ∷ []) rows),
        subst (ReadBack ms (row ∷ rows)) (ok_injective e2) read_back,
      )
