-- ===== src/Collector/Better/Deltas.antt =====
-- What Add of collector_better.go leaves in `deltas`: the difference of each metric between each two
-- samples that follow one another.
use ftdc.Prelude.{
  ℕ, zero, suc, ◌+◌, ◌*◌, ◌<◌, ◌≡◌, ◌≢◌, ◌⊎◌, sym, ap, ◌∙◌, List, [], ◌∷◌, none, some, arith,
  length, set, get_or, get_elem?, get_or-set_self, get_or-set_ne, inl, inr,
}
use ftdc.Word.{IsWord, All, All-set, sub64-IsWord}
use ftdc.Result.{ok}
use ftdc.Bson.{BsonType, Value}
use ftdc.Series.{get_offset}
use ftdc.Metrics.Extract.{extract_delta}
use ftdc.Collector.Better.{write_sample}

row_below : (max j n i k : ℕ) → j < max → i < k → i * max + j < k * max + n
row_below max j n i k p h = grind arith

rows_agree : (max j n i k : ℕ) → j < max → n < max → i * max + j ≡ k * max + n → i ≡ k
rows_agree max j n i k p q e = ground (arith, row_below max j n i k p, row_below max n j k i q)

-- Different samples or metrics have different places.
get_offset_inj :
    (max j n i k : ℕ)
    → j < max
    → n < max
    → get_offset max j i ≡ get_offset max n k
    → (j ≡ n) × (i ≡ k)
unfolding get_offset
get_offset_inj max j n i k p q e =
    let same : i ≡ k = rows_agree max j n i k p q e in
    (omega (arith, ap (λ (t : ℕ). t * max) same), same)

-- One write.
write_sample_inv :
    (fs : ℕ → ℕ → ℕ) (max n idx : ℕ) (v p : Value) (vs ps : List Value) (t q : BsonType)
    (ts qs : List BsonType) (deltas out : List ℕ)
    → write_sample fs max n idx (v ∷ vs) (t ∷ ts) (p ∷ ps) (q ∷ qs) deltas ≡ (out, none)
    → (d : ℕ) × (extract_delta fs v p ≡ ok d)
      × (get_offset max n idx < length deltas)
      × (write_sample fs max n (idx + 1) vs ts ps qs (set deltas (get_offset max n idx) d)
          ≡ (out, none))
unfolding write_sample
write_sample_inv fs max n idx v p vs ps t q ts qs deltas out h = ground arith

-- The lists of a round that went on.
data Round : List Value → List BsonType → List Value → List BsonType → Type 0 where
  over : (ts : List BsonType) (ps : List Value) (qs : List BsonType) → Round [] ts ps qs
  more :
      {v p : Value} {t q : BsonType} {vs ps : List Value} {ts qs : List BsonType}
      → Round vs ts ps qs
      → Round (v ∷ vs) (t ∷ ts) (p ∷ ps) (q ∷ qs)

rounds :
    (fs : ℕ → ℕ → ℕ) (max n idx : ℕ) (vs : List Value) (ts : List BsonType) (ps : List Value)
    (qs : List BsonType) (deltas out : List ℕ)
    → write_sample fs max n idx vs ts ps qs deltas ≡ (out, none)
    → Round vs ts ps qs
unfolding write_sample
rounds fs max n idx [] ts ps qs deltas out h = over ts ps qs
rounds fs max n idx (v ∷ vs) [] ps qs deltas out h = absurd (ground arith)
rounds fs max n idx (v ∷ vs) (t ∷ ts) [] qs deltas out h = absurd (ground arith)
rounds fs max n idx (v ∷ vs) (t ∷ ts) (p ∷ ps) [] deltas out h = absurd (ground arith)
rounds fs max n idx (v ∷ vs) (t ∷ ts) (p ∷ ps) (q ∷ qs) deltas out h =
    let (d, e, room, h') = write_sample_inv fs max n idx v p vs ps t q ts qs deltas out h in
    more (rounds fs max n (idx + 1) vs ts ps qs (set deltas (get_offset max n idx) d) out h')

module _ (fs : ℕ → ℕ → ℕ) (max n : ℕ) (room : n < max) where
  -- A place of another sample, or of a metric in front of `idx`, is left alone.
  kept :
      {vs ps : List Value} {ts qs : List BsonType}
      → Round vs ts ps qs
      → (idx : ℕ) (deltas out : List ℕ) → write_sample fs max n idx vs ts ps qs deltas ≡ (out, none)
      → (j i : ℕ) → j < max
      → (j ≢ n) ⊎ (i < idx)
      → get_or out (get_offset max j i) 0 ≡ get_or deltas (get_offset max j i) 0
  kept (over ts ps qs) idx deltas out h j i p other =
      ap (λ (l : List ℕ). get_or l (get_offset max j i) 0) (unfold write_sample in cc)
  kept (more r) idx deltas out h j i p other =
      let (d, e, inside, h') = write_sample_inv fs max n idx _ _ _ _ _ _ _ _ deltas out h in
      kept r (idx + 1) (set deltas (get_offset max n idx) d) out h' j i p (later other)
      ∙ get_or-set_ne deltas (get_offset max n idx) (get_offset max j i) d 0 (apart other)
    where
      later : (j ≢ n) ⊎ (i < idx) → (j ≢ n) ⊎ (i < idx + 1)
      later (inl a) = inl a
      later (inr b) = inr (omega arith)

      apart : (j ≢ n) ⊎ (i < idx) → get_offset max n idx ≢ get_offset max j i
      apart (inl a) e = a (sym (get_offset_inj max n j idx i room p e).0)
      apart (inr b) e = absurd (omega (arith, (get_offset_inj max n j idx i room p e).1))

  -- The place of a metric from `idx` on gets its difference.
  stored :
      {vs ps : List Value} {ts qs : List BsonType}
      → Round vs ts ps qs
      → (idx : ℕ) (deltas out : List ℕ) → write_sample fs max n idx vs ts ps qs deltas ≡ (out, none)
      → (i : ℕ) (v p : Value) → get_elem? vs i ≡ some v
      → get_elem? ps i ≡ some p
      → extract_delta fs v p ≡ ok (get_or out (get_offset max n (idx + i)) 0)
  stored (over ts ps qs) idx deltas out h i v p a b = cc
  stored (more {v = v'} {p = p'} r) idx deltas out h zero v p a b =
      let (d, e, inside, h') = write_sample_inv fs max n idx _ _ _ _ _ _ _ _ deltas out h in
      let kept_d : get_or out (get_offset max n idx) 0 ≡ d =
        kept r (idx + 1) _ out h' n idx room (inr (omega arith))
        ∙ get_or-set_self deltas (get_offset max n idx) d 0 inside in
      let here : idx + 0 ≡ idx = omega arith in
      let v_eq : v' ≡ v = cc in let p_eq : p' ≡ p = cc in rw (here, kept_d) (rw (← v_eq, ← p_eq) e)
  stored (more r) idx deltas out h (suc i) v p a b =
      let (d, e, inside, h') = write_sample_inv fs max n idx _ _ _ _ _ _ _ _ deltas out h in
      let next : idx + suc i ≡ idx + 1 + i = omega arith in
      rw next (stored r (idx + 1) _ out h' i v p a b)

-- A loop of Add that ran to its end has stored the differences of its sample, and left those of the
-- others alone.
pub write_sample_stores :
    (fs : ℕ → ℕ → ℕ) (max n : ℕ) (vs : List Value) (ts : List BsonType) (ps : List Value)
    (qs : List BsonType) (deltas out : List ℕ)
    → n < max
    → write_sample fs max n 0 vs ts ps qs deltas ≡ (out, none)
    → ((j i : ℕ)
        → j < max
        → j ≢ n
        → get_or out (get_offset max j i) 0 ≡ get_or deltas (get_offset max j i) 0)
      × ((i : ℕ) (v p : Value)
          → get_elem? vs i ≡ some v
          → get_elem? ps i ≡ some p
          → extract_delta fs v p ≡ ok (get_or out (get_offset max n i) 0))
write_sample_stores fs max n vs ts ps qs deltas out room h =
    let r = rounds fs max n 0 vs ts ps qs deltas out h in
    (
      λ j i p other. kept fs max n room r 0 deltas out h j i p (inl other),
      λ i v p a b.
          let e : 0 + i ≡ i = omega arith in
          rw e at (stored fs max n room r 0 deltas out h i v p a b),
    )

module _ (fs : ℕ → ℕ → ℕ) (fs-IsWord : (a b : ℕ) → IsWord (fs a b)) where
  extract_delta-IsWord : (v p : Value) (d : ℕ) → extract_delta fs v p ≡ ok d → IsWord d
  unfolding extract_delta
  extract_delta-IsWord (Value.double a) (Value.double b) d h = ground (arith, fs-IsWord a b)
  extract_delta-IsWord (Value.int64 a) (Value.int64 b) d h = ground (arith, sub64-IsWord a b)
  extract_delta-IsWord (Value.double a) p d h = cc
  extract_delta-IsWord (Value.int64 a) p d h = cc
  extract_delta-IsWord v p d h = cc

  words :
      {vs ps : List Value} {ts qs : List BsonType}
      → Round vs ts ps qs
      → (max n idx : ℕ) (deltas out : List ℕ)
      → write_sample fs max n idx vs ts ps qs deltas ≡ (out, none)
      → All IsWord deltas
      → All IsWord out
  words (over ts ps qs) max n idx deltas out h w =
      let same : deltas ≡ out = unfold write_sample in cc in rw same at w
  words (more r) max n idx deltas out h w =
      let (d, e, inside, h') = write_sample_inv fs max n idx _ _ _ _ _ _ _ _ deltas out h in
      words r max n (idx + 1) _ out h'
        (All-set IsWord deltas (get_offset max n idx) d w (extract_delta-IsWord _ _ d e))

  -- What the loop of Add stores are 64-bit patterns.
  pub write_sample-IsWord :
      (max n : ℕ) (vs : List Value) (ts : List BsonType) (ps : List Value) (qs : List BsonType)
      (deltas out : List ℕ)
      → write_sample fs max n 0 vs ts ps qs deltas ≡ (out, none)
      → All IsWord deltas
      → All IsWord out
  write_sample-IsWord max n vs ts ps qs deltas out h =
      words (rounds fs max n 0 vs ts ps qs deltas out h) max n 0 deltas out h
