-- ===== src/Series/Rows.antt =====
-- The loops of getPayload over the slice of deltas (collector_better.go), as one list of rows.
use ftdc.Prelude.{
  ℕ, zero, suc, ◌+◌, ◌≡◌, refl, sym, ap, ◌∙◌, List, [], ◌∷◌, ◌++◌, get_or, tabulate, concat_from,
}
use ftdc.Prelude.Loops.{for_range}
use ftdc.Series.{Run, flush_zeros, write_delta, write_row, write_deltas, get_offset}
use ftdc.Series.RoundTrip.{write_all, encoding, write_all-encoding}

-- The deltas of metric `i`.
unfoldable pub row : List ℕ → ℕ → ℕ → ℕ → List ℕ
row deltas max_deltas num_samples i =
    tabulate (λ j. get_or deltas (get_offset max_deltas j i) 0) 0 num_samples

unfoldable pub all_rows : List ℕ → ℕ → ℕ → ℕ → List ℕ
unfolding row
all_rows deltas max_deltas num_samples num_values =
    concat_from (row deltas max_deltas num_samples) 0 num_values

write_all-append :
    (xs ys : List ℕ) (s : Run) → write_all (xs ++ ys) s ≡ write_all ys (write_all xs s)
unfolding write_all
write_all-append [] ys s = refl
write_all-append (x ∷ xs) ys s = write_all-append xs ys (write_delta x s)

for_range-write_delta :
    (f : ℕ → ℕ) (n j : ℕ) (s : Run)
    → for_range n j (λ j s. write_delta (f j) s) s ≡ write_all (tabulate f j n) s
unfolding for_range write_all
for_range-write_delta f zero j s = refl
for_range-write_delta f (suc n) j s = for_range-write_delta f n (j + 1) (write_delta (f j) s)

module _ (deltas : List ℕ) (max n : ℕ) where
  for_range-write_row :
      (k i : ℕ) (s : Run)
      → for_range k i (λ i s. write_row deltas max n i s) s
        ≡ write_all (concat_from (row deltas max n) i k) s
  unfolding for_range
  for_range-write_row zero i s = unfold write_all in refl
  for_range-write_row (suc k) i s =
      for_range-write_row k (i + 1) (write_row deltas max n i s)
      ∙ (ap (write_all (concat_from (row deltas max n) (i + 1) k)) (one_row i s)
          ∙ sym (write_all-append (row deltas max n i) _ s))
    where
      one_row : (i : ℕ) (s : Run) → write_row deltas max n i s ≡ write_all (row deltas max n i) s
      one_row i s = unfold write_row row in for_range-write_delta _ n 0 s

  -- What getPayload writes behind what is in the buffer.
  pub write_deltas-all_rows :
      (k : ℕ) (payload : List ℕ)
      → write_deltas deltas max n k payload ≡ payload ++ encoding 0 (all_rows deltas max n k)
  unfolding write_deltas all_rows
  write_deltas-all_rows k payload =
      ap (λ (s : Run). (flush_zeros s).payload) (for_range-write_row k 0 _) ∙ write_all-encoding _ _
