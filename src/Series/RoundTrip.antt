-- ===== src/Series/RoundTrip.antt =====
-- getPayload's loop over the deltas (collector_better.go) and readChunks' loop (read.go), on one another.
use mathlib.Core.List.{append-nil, append_assoc}
use ftdc.Prelude.{
  ℕ, suc, ◌+◌, ◌-◌, ◌<◌, ◌≡◌, ◌≤◌, refl, sym, ◌∙◌, ap, List, [], ◌∷◌, ◌++◌, ltb, ◌==◌,
  if◌then◌else◌, arith, length, Bool-cases, inl, inr, ◌⊎◌, true, false,
}
use ftdc.Result.{ok, >>=-eq-ok}
use ftdc.Word.{word, IsWord, All}
use ftdc.Varint.{encode_value}
use ftdc.Varint.RoundTrip.{read_uvarint-encode_value}
use ftdc.Series.{Run, flush_zeros, write_delta, Tape, read_delta, read_deltas}

abbrev pub tape : ℕ → List ℕ → Tape
tape nzeroes bytes = record { nzeroes = nzeroes; bytes = bytes }

-- What is still to be written for pending zeros and the deltas that follow.
pub pending : ℕ → List ℕ
pending z = if ltb 0 z then encode_value 0 ++ encode_value (z - 1) else []

unfoldable pub encoding : ℕ → List ℕ → List ℕ
encoding z [] = pending z
encoding z (d ∷ ds) =
    let more = encoding (z + 1) ds in
    let rest = encoding 0 ds in if d == 0 then more else pending z ++ (encode_value d ++ rest)

unfoldable pub write_all : List ℕ → Run → Run
write_all [] s = s
write_all (d ∷ ds) s = write_all ds (write_delta d s)

payload-flush_zeros : (s : Run) → (flush_zeros s).payload ≡ s.payload ++ pending s.zero_count
unfolding flush_zeros pending
payload-flush_zeros s = elim (Bool-cases (ltb 0 s.zero_count)) [
  | inl e ↦ rw e (append_assoc s.payload _ _)
  | inr e ↦ rw e (sym (append-nil s.payload))
]

zero_count-flush_zeros : (s : Run) → (flush_zeros s).zero_count ≡ 0
unfolding flush_zeros
zero_count-flush_zeros s = ground arith

pub write_all-encoding :
    (ds : List ℕ) (s : Run)
    → (flush_zeros (write_all ds s)).payload ≡ s.payload ++ encoding s.zero_count ds
unfolding write_all encoding
write_all-encoding [] s = payload-flush_zeros s
write_all-encoding (d ∷ ds) s = write_all-encoding ds (write_delta d s) ∙ step (Bool-cases (d == 0))
  where
    step :
        ((d == 0) ≡ true) ⊎ ((d == 0) ≡ false)
        → (write_delta d s).payload ++ encoding (write_delta d s).zero_count ds
          ≡ s.payload ++ encoding s.zero_count (d ∷ ds)
    step (inl e) = unfold write_delta in rw e refl
    step (inr e) =
        unfold write_delta in
        rw e (
          rw (zero_count-flush_zeros s, payload-flush_zeros s)
            (append_assoc (s.payload ++ pending s.zero_count) _ _ ∙ append_assoc s.payload _ _))

-- The zeros at the front, and what follows them.
leading_zeros : List ℕ → ℕ
leading_zeros [] = 0
leading_zeros (d ∷ ds) = let more = leading_zeros ds in if d == 0 then suc more else 0

drop_zeros : List ℕ → List ℕ
drop_zeros [] = []
drop_zeros (d ∷ ds) = let rest = drop_zeros ds in if d == 0 then rest else d ∷ ds

leading_zeros-le : (ds : List ℕ) → leading_zeros ds ≤ length ds
unfolding leading_zeros
leading_zeros-le [] = omega arith
leading_zeros-le (d ∷ ds) = ground (arith, leading_zeros-le ds)

pending-zero : pending 0 ≡ []
unfolding pending
pending-zero = refl

-- A pending run takes up the zeros that follow it.
encoding-pending :
    (z : ℕ) (ds : List ℕ)
    → encoding (suc z) ds ≡ pending (suc z + leading_zeros ds) ++ encoding 0 (drop_zeros ds)
unfolding encoding leading_zeros drop_zeros
encoding-pending z [] = rw (pending-zero, append-nil) (ap pending (omega arith))
encoding-pending z (d ∷ ds) = ground (arith, encoding-pending (suc z) ds, pending-zero)

encoding-one :
    (ds : List ℕ) → encoding 1 ds ≡ pending (suc (leading_zeros ds)) ++ encoding 0 (drop_zeros ds)
encoding-one ds =
    let e : 1 + leading_zeros ds ≡ suc (leading_zeros ds) = omega arith in
    encoding-pending 0 ds ∙ rw e

read_run : (k : ℕ) (bytes : List ℕ) → read_delta (tape (suc k) bytes) ≡ ok (0, tape k bytes)
unfolding read_delta
read_run k bytes = ground arith

pending-suc :
    (z : ℕ) (rest : List ℕ) → pending (suc z) ++ rest ≡ encode_value 0 ++ (encode_value z ++ rest)
unfolding pending
pending-suc z rest = ground (arith, append_assoc (encode_value 0) (encode_value z) rest)

read_pending :
    (z : ℕ) (rest : List ℕ)
    → z < word
    → read_delta (tape 0 (pending (suc z) ++ rest)) ≡ ok (0, tape z rest)
read_pending z rest h = rw pending-suc (
    unfold read_delta in
    rw (read_uvarint-encode_value 0 _ (omega arith)) (rw (read_uvarint-encode_value z rest h)))

read_nonzero :
    (d : ℕ) (rest : List ℕ)
    → IsWord d
    → (d == 0) ≡ false
    → read_delta (tape 0 (encode_value d ++ rest)) ≡ ok (d, tape 0 rest)
unfolding read_delta
read_nonzero d rest h e = rw (read_uvarint-encode_value d rest h) (rw e)

read_step :
    (n : ℕ) (s : Tape) {s' t : Tape} {v d : ℕ} {ds : List ℕ}
    → v ≡ d
    → read_delta s ≡ ok (v, s')
    → read_deltas n s' ≡ ok (ds, t)
    → read_deltas (suc n) s ≡ ok (d ∷ ds, t)
unfolding read_deltas
read_step n s e h k = rw h (rw k (rw e))

encoding-nonzero :
    (d : ℕ) (ds rest : List ℕ)
    → (d == 0) ≡ false
    → encoding 0 (d ∷ ds) ++ rest ≡ encode_value d ++ (encoding 0 ds ++ rest)
unfolding encoding
encoding-nonzero d ds rest e = rw e (rw pending-zero (append_assoc (encode_value d) _ rest))

-- The reader, in the middle of a run and before one, returns what was written.
read_deltas-encoding :
    (ds rest : List ℕ)
    → All IsWord ds
    → length ds < word
    → (read_deltas (length ds) (tape (leading_zeros ds) (encoding 0 (drop_zeros ds) ++ rest))
        ≡ ok (ds, tape 0 rest))
      × (read_deltas (length ds) (tape 0 (encoding 0 ds ++ rest)) ≡ ok (ds, tape 0 rest))
unfolding encoding leading_zeros drop_zeros
read_deltas-encoding [] rest h n = unfold read_deltas in (rw pending-zero, rw pending-zero)
read_deltas-encoding (d ∷ ds) rest h n =
    let ih = read_deltas-encoding ds rest h.1 (omega arith) in
    elim (Bool-cases (d == 0)) [
      | inl e ↦ (
        rw e (read_step _ _ (ground arith) (read_run _ _) ih.0),
        rw e (
            rw (encoding-one ds) (
              rw append_assoc (
                read_step _ _ (ground arith)
                  (read_pending (leading_zeros ds) _ (omega (arith, leading_zeros-le ds))) ih.0))),
      )
      | inr e ↦
          let last = read_step _ _ refl (read_nonzero d (encoding 0 ds ++ rest) h.0 e) ih.1 in
          (rw e (rw (encoding-nonzero d ds rest e) last), rw (encoding-nonzero d ds rest e) last)
    ]

-- The reader at the start of what was written.
pub read_deltas-encoding_start :
    (ds rest : List ℕ)
    → All IsWord ds
    → length ds < word
    → read_deltas (length ds) (tape 0 (encoding 0 ds ++ rest)) ≡ ok (ds, tape 0 rest)
read_deltas-encoding_start ds rest h n = (read_deltas-encoding ds rest h n).1

read_deltas-suc :
    (n : ℕ) (s : Tape) {d : ℕ} {ds : List ℕ} {t : Tape}
    → read_deltas (suc n) s ≡ ok (d ∷ ds, t)
    → (s' : Tape) × (read_delta s ≡ ok (d, s')) × (read_deltas n s' ≡ ok (ds, t))
unfolding read_deltas
read_deltas-suc n s h =
    let ((v, s'), p, q) = >>=-eq-ok (read_delta s) _ h in
    let ((vs, s''), p', q') = >>=-eq-ok (read_deltas n s') _ q in (s', cc, cc)

-- What was read by one call is read by two.
pub read_deltas-append :
    (xs ys : List ℕ) (s : Tape) {t : Tape}
    → read_deltas (length (xs ++ ys)) s ≡ ok (xs ++ ys, t)
    → (s' : Tape) × (read_deltas (length xs) s ≡ ok (xs, s'))
      × (read_deltas (length ys) s' ≡ ok (ys, t))
read_deltas-append [] ys s h = (s, unfold read_deltas in refl, h)
read_deltas-append (x ∷ xs) ys s h =
    let (s', p, q) = read_deltas-suc _ s h in
    let (s'', p', q') = read_deltas-append xs ys s' q in (s'', read_step _ s refl p p', q')

-- The loop of getPayload appends to the payload bytes from which the loop of readChunks reads back
-- the deltas, whatever follows them, with no zeros left, for fewer than 2 ^ 64 deltas in the range
-- of int64.
pub read_deltas-write_all :
    (ds before rest : List ℕ)
    → All IsWord ds
    → length ds < word
    → (out : List ℕ) × ((flush_zeros
          (write_all ds (record { zero_count = 0; payload = before }))).payload
        ≡ before ++ out)
      × (read_deltas (length ds) (tape 0 (out ++ rest)) ≡ ok (ds, tape 0 rest))
read_deltas-write_all ds before rest h n =
    (encoding 0 ds, write_all-encoding ds _, (read_deltas-encoding ds rest h n).1)
