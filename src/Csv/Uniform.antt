-- ===== src/Csv/Uniform.antt =====
-- The rows of a CSV file have as many fields as its header (csv.go).
use ftdc.Prelude.{
  ℕ, zero, suc, ◌+◌, ◌≡◌, ◌⊎◌, refl, sym, ap, ◌∙◌, arith, ◌==◌, List, [], ◌∷◌, ◌++◌, length,
  length-map, Option, none, some, Bool-cases, inl, inr,
}
use mathlib.Core.Path.{subst}
use ftdc.Word.{All, All-append, All-map}
use ftdc.Result.{Error, ok, >>=-eq-ok, ok_injective, Result-cases}
use ftdc.Bson.{Text}
use ftdc.Input.{Outcome}
use ftdc.Metrics.Flatten.{Metric, metric_key}
use ftdc.Read.{Chunk}
use ftdc.Chunk.Iterator.{get_field_names}
use ftdc.Csv.Write.{
  Row, and_then, record_field, get_record, write_records, write_chunk, write_chunks, write_csv,
}
use ftdc.Csv.Rows.{row_file}

-- Every row has `n` fields, or none, which csv.Reader passes over.
abbrev pub Uniform : ℕ → List Row → Type 0
Uniform n = All (λ row. (row ≡ []) ⊎ (length row ≡ n))

Uniform-append :
    (n : ℕ) (rows : List Row) (row : Row)
    → Uniform n rows
    → length row ≡ n
    → Uniform n (rows ++ (row ∷ []))
Uniform-append n rows row h e = All-append _ rows (row ∷ []) h (inr e, tt)

-- A header behind rows without fields.
pub Uniform-header :
    (rows : List Row) (names : Row) → Uniform 0 rows → Uniform (length names) (rows ++ (names ∷ []))
Uniform-header rows names h =
    Uniform-append (length names) rows names (All-map _ _ (λ row. empty row) rows h) refl
  where
    empty : (row : Row) → (row ≡ []) ⊎ (length row ≡ 0) → (row ≡ []) ⊎ (length row ≡ length names)
    empty [] h = inl refl
    empty (f ∷ fs) (inl e) = cc
    empty (f ∷ fs) (inr e) = cc

module _ (format_time : ℕ → Text) where
  length-get_record :
      (i : ℕ) (ms : List Metric) (row : Row)
      → get_record format_time i ms ≡ ok row
      → length row ≡ length ms
  unfolding get_record
  length-get_record i [] row e = (let q : row ≡ [] = cc in rw (q) refl)
  length-get_record i (m ∷ ms) row e =
      let (field, ef, e1) = >>=-eq-ok (record_field format_time i m.original_type m.values) _ e in
      let (fields, es, e2) = >>=-eq-ok (get_record format_time i ms) _ e1 in
      let q : field ∷ fields ≡ row = ok_injective e2 in
      ap length (sym q) ∙ ap suc (length-get_record i ms fields es)

  write_records-Uniform :
      (ms : List Metric) (n i : ℕ) (rows : List Row)
      → Uniform (length ms) rows
      → Uniform (length ms) (write_records format_time row_file ms n i rows).0
  unfolding write_records and_then
  write_records-Uniform ms zero i rows h = h
  write_records-Uniform ms (suc n) i rows h = elim (Result-cases (get_record format_time i ms)) [
    | inl (row, e) ↦
        rw (e, write_records)
          (write_records-Uniform ms n (i + 1) (rows ++ (row ∷ []))
            (Uniform-append (length ms) rows row h (length-get_record i ms row e)))
    | inr (x, e) ↦ rw (e, write_records) h
  ]

  -- The flush changes no row.
  pub write_chunk-Uniform :
      (c : Chunk) (rows : List Row)
      → Uniform (length c.metrics) rows
      → Uniform (length c.metrics) (write_chunk format_time row_file c rows).0
  unfolding write_chunk and_then
  write_chunk-Uniform c rows h = ground (arith, write_records-Uniform c.metrics c.n_points 0 rows h)

-- What holds behind a call that may fail and the one that follows it.
pub and_then-keeps :
    {W : Type 0} (P Q : W → Type 0) (r : Outcome W) (f : W → Outcome W)
    → P r.0
    → ((w : W) → P w → Q w)
    → ((w : W) → P w → Q (f w).0)
    → Q (and_then r f).0
unfolding and_then
and_then-keeps P Q (w, none) f h stop go = go w h
and_then-keeps P Q (w, some e) f h stop go = stop w h

abbrev pub SomeUniform : List Row → Type 0
SomeUniform rows = (n : ℕ) × Uniform n rows

module _ (format_time : ℕ → Text) where
  pub length-names : (c : Chunk) → length (get_field_names c) ≡ length c.metrics
  unfolding get_field_names
  length-names c = length-map c.metrics metric_key

  chunk-Uniform :
      (n : ℕ) (c : Chunk) (next : List Row → Outcome (List Row)) (rows : List Row)
      → Uniform n rows
      → n ≡ length c.metrics
      → ((w : List Row) → Uniform n w → SomeUniform (next w).0)
      → SomeUniform (and_then (write_chunk format_time row_file c rows) next).0
  chunk-Uniform n c next rows h e go =
      let written = (write_chunk format_time row_file c rows).0 in
      let kept : Uniform n written =
        subst (λ k. Uniform k written) (sym e)
          (write_chunk-Uniform format_time c rows (subst (λ k. Uniform k rows) e h)) in
      and_then-keeps (Uniform n) SomeUniform (write_chunk format_time row_file c rows) next kept
        (λ w k. (n, k)) go

  write_chunks-Uniform :
      (failure : Option Error) (num_fields : ℕ) (chunks : List Chunk) (rows : List Row)
      → Uniform num_fields rows
      → SomeUniform (write_chunks format_time row_file failure num_fields chunks rows).0
  unfolding write_chunks and_then
  write_chunks-Uniform failure num_fields [] rows h = (num_fields, h)
  write_chunks-Uniform failure num_fields (c ∷ cs) rows h = elim (Bool-cases (num_fields == 0)) [
    | inl e ↦
        (let q : num_fields ≡ 0 = ground (arith, e) in
          let names = get_field_names c in
          rw (e, write_chunks)
            (chunk-Uniform (length names) c _ (rows ++ (names ∷ []))
              (Uniform-header rows names (subst (λ n. Uniform n rows) q h)) (length-names c)
              (write_chunks-Uniform failure (length names) cs)))
    | inr e ↦ elim (Bool-cases (num_fields == length c.metrics)) [
      | inl e' ↦
          rw (e, e', write_chunks)
            (chunk-Uniform num_fields c _ rows h (ground (arith, e'))
              (write_chunks-Uniform failure num_fields cs))
      | inr e' ↦ rw (e, e', write_chunks) (num_fields, h)
    ]
  ]

  pub write_csv-Uniform :
      (failure : Option Error) (chunks : List Chunk)
      → (n : ℕ) × Uniform n (write_csv format_time row_file failure chunks []).0
  unfolding write_csv
  write_csv-Uniform failure chunks = write_chunks-Uniform failure 0 chunks [] tt
