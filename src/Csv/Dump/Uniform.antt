-- ===== src/Csv/Dump/Uniform.antt =====
-- The rows of each file of DumpCSV have as many fields as its header (csv.go).
use ftdc.Prelude.{
  ℕ, ◌+◌, ◌≡◌, refl, sym, ◌==◌, List, [], ◌∷◌, ◌++◌, length, Option, none, some, Option-cases,
  Bool-cases, inl, inr, arith,
}
use mathlib.Core.Path.{subst}
use ftdc.Word.{All, All-append}
use ftdc.Result.{Error, ok}
use ftdc.Bson.{Text}
use ftdc.Read.{Chunk}
use ftdc.Chunk.Iterator.{get_field_names}
use ftdc.Csv.Write.{Row, and_then, write_chunk}
use ftdc.Csv.Rows.{row_file}
use ftdc.Csv.Uniform.{
  Uniform, SomeUniform, Uniform-header, write_chunk-Uniform, and_then-keeps, length-names,
}
use ftdc.Csv.Dump.{
  Directory, Dump, open_file, write_header, close_file, dump_records, dump_into, dump_chunk,
  dump_chunks, close_last, dump_csv,
}

-- A directory that never fails: the files that were closed, each as its rows.
abbrev pub row_directory : Directory (List (List Row)) (List Row)
row_directory = record {
  create = λ n files. (files, ok []);
  close = λ rows files. (files ++ (rows ∷ []), none);
}

abbrev Files : Type 0
Files = Dump (List (List Row)) (List Row)

abbrev Open : ℕ → Option (List Row) → Type 0
Open n none = Unit
Open n (some rows) = Uniform n rows

abbrev Inv : Files → Type 0
Inv d = All SomeUniform d.directory × Open d.num_fields d.writer

module _ (format_time : ℕ → Text) where
  -- The records of a chunk with as many metrics as the file has fields.
  dump_records-Inv :
      (c : Chunk) (rows : List Row) (d : Files)
      → All SomeUniform d.directory
      → Uniform d.num_fields rows
      → d.num_fields ≡ length c.metrics
      → Inv (dump_records format_time row_file row_directory c rows d).0
  unfolding dump_records
  dump_records-Inv c rows d closed h e =
      let written = (write_chunk format_time row_file c rows).0 in
      let kept : Uniform d.num_fields written =
        subst (λ k. Uniform k written) (sym e)
          (write_chunk-Uniform format_time c rows (subst (λ k. Uniform k rows) e h)) in
      (closed, kept)

  dump_into-Inv :
      (c : Chunk) (rows : List Row) (d : Files)
      → All SomeUniform d.directory
      → Uniform d.num_fields rows
      → Inv (dump_into format_time row_file row_directory c rows d).0
  unfolding dump_into write_header close_file open_file and_then
  dump_into-Inv c rows d closed h =
      let names = get_field_names c in
      elim (Bool-cases (d.num_fields == 0)) [
        | inl e ↦
            (let q : d.num_fields ≡ 0 = ground (arith, e) in
              rw (e, dump_into)
                (dump_records-Inv c (rows ++ (names ∷ []))
                  (record d { writer = some (rows ++ (names ∷ [])); num_fields = length names })
                  closed (Uniform-header rows names (subst (λ n. Uniform n rows) q h))
                  (length-names format_time c)))
        | inr e ↦ elim (Bool-cases (d.num_fields == length c.metrics)) [
          | inl e' ↦ rw (e, e', dump_into) (dump_records-Inv c rows d closed h (ground (arith, e')))
          | inr e' ↦
              (let files : All SomeUniform (d.directory ++ (rows ∷ [])) =
                  All-append SomeUniform d.directory (rows ∷ []) closed ((d.num_fields, h), tt) in
                rw (e, e', dump_into)
                  (dump_records-Inv c (names ∷ [])
                    (record {
                      directory = d.directory ++ (rows ∷ []);
                      writer = some (names ∷ []);
                      num_fields = length names;
                      file_count = d.file_count + 1;
                    })
                    files (inr refl, tt) (length-names format_time c)))
        ]
      ]

  dump_chunk-Inv :
      (c : Chunk) (d : Files) → Inv d → Inv (dump_chunk format_time row_file row_directory c d).0
  unfolding dump_chunk open_file and_then
  dump_chunk-Inv c d h = elim (Option-cases d.writer) [
    | inl e ↦
        rw (e, dump_chunk)
          (dump_into-Inv c [] (record d { writer = some []; file_count = d.file_count + 1 }) h.0 tt)
    | inr (rows, e) ↦ rw (e, dump_chunk) (dump_into-Inv c rows d h.0 (rw (e) at (h.1)))
  ]

  dump_chunks-Inv :
      (chunks : List Chunk) (d : Files)
      → Inv d
      → Inv (dump_chunks format_time row_file row_directory chunks d).0
  unfolding dump_chunks
  dump_chunks-Inv [] d h = h
  dump_chunks-Inv (c ∷ cs) d h =
      and_then-keeps Inv Inv (dump_chunk format_time row_file row_directory c d)
        (dump_chunks format_time row_file row_directory cs) (dump_chunk-Inv c d h) (λ w k. k)
        (dump_chunks-Inv cs)

  close_last-Uniform :
      (failure : Option Error) (d : Files)
      → Inv d
      → All SomeUniform (close_last format_time row_file row_directory failure d).0.directory
  unfolding close_last close_file
  close_last-Uniform (some x) d h = h.0
  close_last-Uniform none d h = elim (Option-cases d.writer) [
    | inl e ↦ rw (e, close_last) h.0
    | inr (rows, e) ↦
        rw (e, close_last)
          (All-append SomeUniform d.directory (rows ∷ []) h.0 ((d.num_fields, rw (e) at (h.1)), tt))
  ]

  -- Whatever chunks DumpCSV is given, with a directory that never fails, all rows of each file that
  -- it closes have one number of fields, but for rows without any.
  pub dump_csv-Uniform :
      (failure : Option Error) (chunks : List Chunk)
      → All
          (λ rows. (n : ℕ) × Uniform n rows)
          (dump_csv format_time row_file row_directory failure chunks []).0.directory
  unfolding dump_csv
  dump_csv-Uniform failure chunks =
      let first : Files = record {
        directory = [];
        writer = none;
        num_fields = 0;
        file_count = 0;
      } in
      and_then-keeps Inv (λ d. All SomeUniform d.directory)
        (dump_chunks format_time row_file row_directory chunks first) _
        (dump_chunks-Inv chunks first (tt, tt)) (λ d k. k.0) (close_last-Uniform failure)
