-- ===== src/Csv/Dump.antt =====
-- DumpCSV of csv.go: a file for every run of chunks with as many metrics.
pub mod Uniform
use ftdc.Prelude.{ℕ, ◌+◌, Bool, true, false, ◌==◌, List, [], ◌∷◌, length, Option, none, some}
use ftdc.Result.{Error, Result, ok, err}
use ftdc.Bson.{Text}
use ftdc.Input.{Outcome}
use ftdc.Read.{Chunk}
use ftdc.Chunk.Iterator.{get_field_names}
use ftdc.Csv.Write.{CsvWriter, and_then, write_chunk}

-- The directory that the files are in: getCSVFile of a count, and Close of a file. A file is known
-- by its state `W`.
pub record Directory (F W : Type 0) : Type 0 where
  pub create : ℕ → F → F × Result W
  pub close : W → F → Outcome F

-- The variables of DumpCSV, over the directory. `writer` is none where it is nil.
pub record Dump (F W : Type 0) : Type 0 where
  pub directory : F
  pub writer : Option W
  pub num_fields : ℕ
  pub file_count : ℕ

module _ (format_time : ℕ → Text) {F W : Type 0} (csvw : CsvWriter W) (files : Directory F W) where
  abbrev writing : Dump F W → Outcome W → Outcome (Dump F W)
  writing d (w, e) = (record d { writer = some w }, e)

  -- `writer, err = getCSVFile(prefix, fileCount)`, and the count behind it.
  unfoldable pub open_file : Dump F W → Outcome (Dump F W)
  open_file d =
      let (f, r) = files.create d.file_count d.directory in
      elim r [
        | err e ↦ (record d { directory = f; writer = none }, some e)
        | ok w ↦ (record d { directory = f; writer = some w; file_count = d.file_count + 1 }, none)
      ]

  -- The header, and numFields.
  unfoldable pub write_header : Chunk → W → Dump F W → Outcome (Dump F W)
  unfolding get_field_names and_then
  write_header c w d =
      let names = get_field_names c in
      and_then (writing d (csvw.write names w))
        (λ d'. (record d' { num_fields = length names }, none))

  -- `writer.Close()`
  unfoldable pub close_file : W → Dump F W → Outcome (Dump F W)
  close_file w d = let (f, e) = files.close w d.directory in (record d { directory = f }, e)

  -- What follows where a file is open.
  abbrev with_file : (W → Dump F W → Outcome (Dump F W)) → Dump F W → Outcome (Dump F W)
  with_file next d = elim d.writer [ none ↦ (d, none) | some w ↦ next w d ]

  unfoldable pub dump_records : Chunk → W → Dump F W → Outcome (Dump F W)
  unfolding write_chunk
  dump_records c w d = writing d (write_chunk format_time csvw c w)

  -- A chunk where a file is open.
  unfoldable pub dump_into : Chunk → W → Dump F W → Outcome (Dump F W)
  unfolding write_header close_file open_file dump_records and_then
  dump_into c w d = elim (d.num_fields == 0) [
    | true ↦ and_then (write_header c w d) (with_file (dump_records c))
    | false ↦ elim (d.num_fields == length c.metrics) [
      | true ↦ dump_records c w d
      | false ↦ and_then (close_file w d) λ closed.
          and_then (open_file closed)
            λ opened. and_then (with_file (write_header c) opened) (with_file (dump_records c))
    ]
  ]

  -- A round of the loop.
  unfoldable pub dump_chunk : Chunk → Dump F W → Outcome (Dump F W)
  unfolding dump_into open_file and_then
  dump_chunk c d = elim d.writer [
    | some w ↦ dump_into c w d
    | none ↦ and_then (open_file d) (with_file (dump_into c))
  ]

  unfoldable pub dump_chunks : List Chunk → Dump F W → Outcome (Dump F W)
  unfolding dump_chunk and_then
  dump_chunks [] d = (d, none)
  dump_chunks (c ∷ cs) d = and_then (dump_chunk c d) (dump_chunks cs)

  -- Behind the loop: the Err of the iterator, and the Close of the last file.
  unfoldable pub close_last : Option Error → Dump F W → Outcome (Dump F W)
  unfolding close_file
  close_last (some e) d = (d, some e)
  close_last none d = with_file close_file d

  -- DumpCSV
  unfoldable pub dump_csv : Option Error → List Chunk → F → Outcome (Dump F W)
  unfolding dump_chunks close_last and_then
  dump_csv failure chunks f =
      and_then
        (dump_chunks chunks
          (record { directory = f; writer = none; num_fields = 0; file_count = 0 }))
        (close_last failure)
