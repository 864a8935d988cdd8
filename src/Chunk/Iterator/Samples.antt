-- ===== src/Chunk/Iterator/Samples.antt =====
-- What the workers of iterator_combined.go and iterator_matrix.go send.
use ftdc.Prelude.{
  ℕ, zero, suc, ◌+◌, ◌≡◌, refl, sym, ap, List, [], ◌∷◌, ◌++◌, map, Option, none, some, Bool, true,
  false, arith, length, length-append, get_elem?, inl, inr,
}
use ftdc.Result.{Error, Result, ok, Result-cases, ok_injective}
use ftdc.Bson.{Document}
use ftdc.Read.{Chunk, caught}
use ftdc.Chunk.{stream_from, stream_documents, stream_flattened_documents}
use ftdc.Chunk.Iterator.{IteratorState, sample_documents, update_metadata, combined_worker}

-- A loop over the points whose rounds give `g` of the elements.
pub stream_from-map :
    {A B : Type 0} (f : ℕ → Result B) (g : A → B) (xs : List A) (i : ℕ)
    → ((j : ℕ) (x : A) → get_elem? xs j ≡ some x → f (i + j) ≡ ok (g x))
    → stream_from f (length xs) i ≡ ok (map g xs)
unfolding stream_from
stream_from-map f g [] i h = refl
stream_from-map f g (x ∷ xs) i h =
    let e : i + 0 ≡ i = omega arith in
    let rest =
      stream_from-map f g xs (i + 1)
        (λ j y p. let e' : i + suc j ≡ i + 1 + j = omega arith in rw e' at (h (suc j) y p)) in
    rw (rw e at (h 0 x refl), rest) refl

stream_from-length :
    {A : Type 0} (f : ℕ → Result A) (n i : ℕ) (xs : List A)
    → stream_from f n i ≡ ok xs
    → length xs ≡ n
unfolding stream_from
stream_from-length f zero i [] h = refl
stream_from-length f zero i (x ∷ xs) h = cc
stream_from-length f (suc n) i xs h = elim (Result-cases (f i)) [
  | inl (x, e) ↦ elim (Result-cases (stream_from f n (i + 1))) [
    | inl (ys, e') ↦
        let l : xs ≡ x ∷ ys = ground (arith, h, e, e') in
        rw l (ap suc (stream_from-length f n (i + 1) ys e'))
    | inr (x', e') ↦ absurd (ground (arith, h, e, e'))
  ]
  | inr (x, e) ↦ absurd (ground (arith, h, e))
]

-- The points of all chunks.
abbrev pub points : List Chunk → ℕ
points [] = 0
points (c ∷ cs) = c.n_points + points cs

sample_documents-length :
    (flatten : Bool) (c : Chunk) (docs : List Document)
    → sample_documents flatten c ≡ ok docs
    → length docs ≡ c.n_points
unfolding sample_documents stream_documents stream_flattened_documents
sample_documents-length true c docs h = stream_from-length _ c.n_points 0 docs h
sample_documents-length false c docs h = stream_from-length _ c.n_points 0 docs h

-- A worker of a combinedIterator without metadata that does not panic sends a document for every
-- point of every chunk, never sets the metadata, and adds the error of the chunk iterator and no
-- other.
pub combined_worker_lem :
    (flatten : Bool) (failure : Option Error) (chunks : List Chunk) (iter iter' : IteratorState)
    → iter.metadata ≡ none
    → combined_worker flatten failure chunks iter ≡ ok iter'
    → (length iter'.sent ≡ length iter.sent + points chunks)
      × (iter'.metadata ≡ none)
      × (iter'.errors ≡ iter.errors ++ caught failure [])
unfolding combined_worker
combined_worker_lem flatten failure [] iter iter' unset h =
    let e = sym (ok_injective h) in rw e (omega arith, unset, refl)
combined_worker_lem flatten failure (c ∷ cs) iter iter' unset h =
    elim (Result-cases (sample_documents flatten c)) [
      | inl (docs, e) ↦
          let next = record iter {
            metadata = update_metadata c iter.metadata;
            sent = iter.sent ++ docs;
          } in
          let h' : combined_worker flatten failure cs next ≡ ok iter' = rw e at h in
          let still : next.metadata ≡ none = unfold update_metadata in rw unset refl in
          let (l, m, x) = combined_worker_lem flatten failure cs next iter' still h' in
          (
            omega
                (arith, l, length-append iter.sent docs, sample_documents-length flatten c docs e),
            m,
            x,
          )
      | inr (x, e) ↦ absurd (ground (arith, h, e))
    ]
