-- ===== src/Csv/Convert/Change.antt =====
-- Rows of another number of fields in ConvertFromCSV (csv.go).
use ftdc.Prelude.{ℕ, ◌≡◌, refl, false, ◌==◌, List, [], ◌∷◌, length, Bool-cases, inl, inr, arith}
use ftdc.Result.{Result, ok, err}
use ftdc.Bson.{Document}
use ftdc.Input.{Outcome}
use ftdc.Csv.Write.{Row}
use ftdc.Csv.Convert.{convert_rows}

module _ {S : Type 0} (add : ℕ → Document → S → Outcome S) (clock : ℕ → ℕ) where
  -- With a header of another number of fields nothing is added.
  convert_rows-header :
      (fields : ℕ) (header : Row) (rows : List (Result Row)) (c : S)
      → (length header == fields) ≡ false
      → (convert_rows add clock fields header rows c).0 ≡ c
  unfolding convert_rows
  convert_rows-header fields header [] c h = refl
  convert_rows-header fields header (err e ∷ rest) c h = refl
  convert_rows-header fields header (ok row ∷ rest) c h = elim (Bool-cases (length row == fields)) [
    | inl same ↦
        (let q : (length row == length header) ≡ false = ground (arith, same, h) in
          rw (same, q, convert_rows) refl)
    | inr other ↦ rw (other, convert_rows) (convert_rows-header fields row rest c other)
  ]

  -- In the loop of ConvertFromCSV, a row of another number of fields than the first row of the
  -- input adds no document, and no row behind it does.
  pub convert_rows-changed :
      (fields : ℕ) (header row : Row) (rest : List (Result Row)) (c : S)
      → (length row == fields) ≡ false
      → (convert_rows add clock fields header (ok row ∷ rest) c).0 ≡ c
  unfolding convert_rows
  convert_rows-changed fields header row rest c h =
      rw (h, convert_rows) (convert_rows-header fields row rest c h)
