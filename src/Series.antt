-- ===== src/Series.antt =====
-- The run-length coding of the deltas: the loop of getPayload (collector_better.go), the loop of
-- readChunks that undoes it (read.go), and undelta, undeltaFloats and getOffset (util.go).
pub mod RoundTrip
pub mod Undelta
pub mod Rows
use ftdc.Prelude.{
  ℕ, zero, suc, ◌+◌, ◌-◌, ◌*◌, List, [], ◌∷◌, ◌++◌, ltb, ◌==◌, if◌then◌else◌, get_or,
}
use ftdc.Prelude.Loops.{for_range}
use ftdc.Result.{Result, ok, err, ◌>>=◌}
use ftdc.Word.{add64}
use ftdc.Varint.{encode_value, read_uvarint}

unfoldable pub get_offset : ℕ → ℕ → ℕ → ℕ
get_offset count sample metric = metric * count + sample

-- The variables of getPayload's loop: `zeroCount` and the bytes of `payload`.
pub record Run : Type 0 where
  pub zero_count : ℕ
  pub payload : List ℕ

-- `if zeroCount > 0 { ... }`
unfoldable pub flush_zeros : Run → Run
flush_zeros s =
    if ltb 0 s.zero_count
    then record {
      zero_count = 0;
      payload = (s.payload ++ encode_value 0) ++ encode_value (s.zero_count - 1);
    }
    else s

-- The body of the inner loop.
unfoldable pub write_delta : ℕ → Run → Run
unfolding flush_zeros
write_delta delta s =
    if delta == 0
    then record s { zero_count = s.zero_count + 1 }
    else (let s' = flush_zeros s in record s' { payload = s'.payload ++ encode_value delta })

-- The inner loop: one metric, all samples. A place outside `deltas`, a panic in Go, is read as 0.
unfoldable pub write_row : List ℕ → ℕ → ℕ → ℕ → Run → Run
unfolding write_delta
write_row deltas max_deltas num_samples i =
    for_range num_samples 0 (λ j s. write_delta (get_or deltas (get_offset max_deltas j i) 0) s)

-- Both loops, and the zeros that are left at the end.
unfoldable pub write_deltas : List ℕ → ℕ → ℕ → ℕ → List ℕ → List ℕ
unfolding write_row flush_zeros
write_deltas deltas max_deltas num_samples num_values payload =
    (flush_zeros (
      for_range num_values 0 (λ i s. write_row deltas max_deltas num_samples i s)
        (record { zero_count = 0; payload = payload }))).payload

-- The variables of readChunks' loop: `nzeroes` and the bytes that are left in `buf`.
pub record Tape : Type 0 where
  pub nzeroes : ℕ
  pub bytes : List ℕ

-- One round of the inner loop.
unfoldable pub read_delta : Tape → Result (ℕ × Tape)
read_delta s =
    if s.nzeroes == 0
    then (do
      (delta, rest) ← read_uvarint s.bytes
      if delta == 0
          then (do (n, rest') ← read_uvarint rest; ok (0, record { nzeroes = n; bytes = rest' }))
          else ok (delta, record { nzeroes = 0; bytes = rest }))
    else ok (0, record s { nzeroes = s.nzeroes - 1 })

-- The inner loop, for the rounds left.
unfoldable pub read_deltas : ℕ → Tape → Result (List ℕ × Tape)
read_deltas zero s = ok ([], s)
read_deltas (suc n) s = do
  (delta, s') ← read_delta s
  (deltas, s'') ← read_deltas n s'
  ok (delta ∷ deltas, s'')

unfoldable pub undelta_floats : ℕ → List ℕ → List ℕ
undelta_floats value deltas = value ∷ deltas

-- `out[idx+1] = out[idx] + delta`, from the first element on.
unfoldable pub undelta : ℕ → List ℕ → List ℕ
undelta value [] = value ∷ []
undelta value (delta ∷ deltas) = value ∷ undelta (add64 value delta) deltas
