-- ===== src/Collector/Better/History.antt =====
-- A betterCollector (collector_better.go) after a sequence of documents, beside the history of
-- their values.
use ftdc.Prelude.{
  ℕ, suc, ◌+◌, ◌<◌, ◌≡◌, refl, sym, ap, ◌∙◌, List, [], ◌∷◌, none, some, arith, length, get_or,
  get_elem?,
}
use native.Mathlib.Decide.{ℕ_discrete}
use ftdc.Word.{IsWord, All, All-replicate}
use ftdc.Result.{ok}
use ftdc.Bson.{Value, Document}
use ftdc.Input.{Outcome}
use ftdc.Series.{get_offset}
use ftdc.Metrics.Extract.{ExtractedMetrics, extract_from_document, extract_delta}
use ftdc.Collector.Better.{
  BetterCollector, values_of, types_of, write_sample, add_next, add_reference, add,
}
use ftdc.Collector.Better.Invariant.{IsValid, add-IsValid}
use ftdc.Collector.Better.Deltas.{write_sample_stores, write_sample-IsWord}

-- The documents one after the other, with the clock's reading at each, up to the first error.
unfoldable pub add_all :
    (ℕ → ℕ → ℕ) → List (ℕ × Document) → BetterCollector → Outcome BetterCollector
add_all fs [] c = (c, none)
add_all fs ((now, doc) ∷ docs) c =
    let (c', e) = add fs now doc c in elim e [ some x ↦ (c', some x) | none ↦ add_all fs docs c' ]

-- `hist j` are the values of sample `j`; the collector has seen those up to `n`.
pub record Follows (fs : ℕ → ℕ → ℕ) (hist : ℕ → List Value) (n : ℕ) (c : BetterCollector)
    : Type 0 where
  pub valid : IsValid c
  pub words : All IsWord c.deltas
  pub counted : c.num_samples ≡ n
  pub latest : values_of c.last_sample ≡ hist n
  pub differences :
      (j i : ℕ) (v p : Value)
      → j < n
      → get_elem? (hist (suc j)) i ≡ some v
      → get_elem? (hist j) i ≡ some p
      → extract_delta fs v p ≡ ok (get_or c.deltas (get_offset c.max_deltas j i) 0)

-- What an Add behind the reference that returned nil has done.
pub add_next_inv :
    (fs : ℕ → ℕ → ℕ) (m : ExtractedMetrics) (c c' : BetterCollector)
    → add_next fs m c ≡ (c', none)
    → (out : List ℕ) × (c.num_samples < c.max_deltas)
      × (write_sample fs c.max_deltas c.num_samples 0 m.values m.types
            (values_of c.last_sample)
            (types_of c.last_sample)
            c.deltas
          ≡ (out, none))
      × (c' ≡ record c { deltas = out; num_samples = c.num_samples + 1; last_sample = some m })
unfolding add_next
add_next_inv fs m c c' h =
    let w =
      write_sample fs c.max_deltas c.num_samples 0 m.values m.types (values_of c.last_sample)
        (types_of c.last_sample) c.deltas in
    (w.0, ground arith, ground arith, ground arith)

pub add_inv :
    (fs : ℕ → ℕ → ℕ) (now : ℕ) (doc r : Document) (c : BetterCollector) {c' : BetterCollector}
    → c.reference ≡ some r
    → add fs now doc c ≡ (c', none)
    → add_next fs (extract_from_document now doc) c ≡ (c', none)
unfolding add
add_inv fs now doc r c e h = ground arith

-- The state behind the loop of Add.
abbrev pub added : ExtractedMetrics → List ℕ → BetterCollector → BetterCollector
added m out c = record c { deltas = out; num_samples = c.num_samples + 1; last_sample = some m }

differences-added :
    (fs : ℕ → ℕ → ℕ) (hist : ℕ → List Value) (n : ℕ) (m : ExtractedMetrics) (c : BetterCollector)
    (out : List ℕ)
    → Follows fs hist n c
    → m.values ≡ hist (suc n)
    → c.num_samples < c.max_deltas
    → write_sample fs c.max_deltas c.num_samples 0 m.values m.types
        (values_of c.last_sample)
        (types_of c.last_sample)
        c.deltas
      ≡ (out, none)
    → (j i : ℕ) (v p : Value) → j < suc n
    → get_elem? (hist (suc j)) i ≡ some v
    → get_elem? (hist j) i ≡ some p
    → extract_delta fs v p ≡ ok (get_or out (get_offset c.max_deltas j i) 0)
differences-added fs hist n m c out f new room w j i v p below a b =
    let (others, mine) =
      write_sample_stores fs c.max_deltas c.num_samples m.values m.types (values_of c.last_sample)
        (types_of c.last_sample) c.deltas out room w in
    elim (ℕ_discrete j c.num_samples) [
      | yes e ↦
          let e' : j ≡ n = e ∙ f.counted in
          rw e (
            mine i v p (ap (λ l. get_elem? l i) (new ∙ ap (λ k. hist (suc k)) (sym e')) ∙ a)
              (ap (λ l. get_elem? l i) (f.latest ∙ ap hist (sym e')) ∙ b))
      | no ne ↦
          rw (others j i (omega (arith, f.counted, f.valid.within)) ne)
            (f.differences j i v p (omega (arith, f.counted)) a b)
    ]

-- One more document.
Follows-add :
    (fs : ℕ → ℕ → ℕ) (fs-IsWord : (a b : ℕ) → IsWord (fs a b)) (hist : ℕ → List Value) (n now : ℕ)
    (doc r : Document) (c c' : BetterCollector)
    → Follows fs hist n c
    → c.reference ≡ some r
    → (extract_from_document now doc).values ≡ hist (suc n)
    → add fs now doc c ≡ (c', none)
    → Follows fs hist (suc n) c'
      × ((out : List ℕ) × (c' ≡ added (extract_from_document now doc) out c))
Follows-add fs fs-IsWord hist n now doc r c c' f e new h =
    let m = extract_from_document now doc in
    let (out, room, w, eq) = add_next_inv fs m c c' (add_inv fs now doc r c e h) in
    (
      record {
        valid = rw h at (add-IsValid fs now doc c f.valid);
        words = rw eq (write_sample-IsWord fs fs-IsWord _ _ _ _ _ _ c.deltas out w f.words);
        counted = rw eq (omega (arith, f.counted));
        latest = rw eq new;
        differences = rw eq (differences-added fs hist n m c out f new room w);
      },
      (out, eq),
    )

-- What no Add changes once there is a reference.
abbrev pub SameHead : BetterCollector → BetterCollector → Type 0
SameHead c c' =
    (c'.reference ≡ c.reference)
    × (c'.metadata ≡ c.metadata)
    × (c'.started_at ≡ c.started_at)
    × (c'.max_deltas ≡ c.max_deltas)

-- `hist` continues with the values of the documents.
abbrev pub Continues : (ℕ → List Value) → ℕ → List (ℕ × Document) → Type 0
Continues hist n [] = Unit
Continues hist n ((now, doc) ∷ docs) =
    ((extract_from_document now doc).values ≡ hist (suc n)) × Continues hist (suc n) docs

add_all_inv :
    (fs : ℕ → ℕ → ℕ) (now : ℕ) (doc : Document) (docs : List (ℕ × Document))
    (c c' : BetterCollector)
    → add_all fs ((now, doc) ∷ docs) c ≡ (c', none)
    → (d : BetterCollector) × (add fs now doc c ≡ (d, none)) × (add_all fs docs d ≡ (c', none))
unfolding add_all
add_all_inv fs now doc docs c c' h = ((add fs now doc c).0, ground arith, ground arith)

-- A collector with a reference, after more documents without an error.
pub Follows-add_all :
    (fs : ℕ → ℕ → ℕ) (fs-IsWord : (a b : ℕ) → IsWord (fs a b)) (hist : ℕ → List Value)
    (docs : List (ℕ × Document)) (n : ℕ) (r : Document) (c c' : BetterCollector)
    → Follows fs hist n c
    → c.reference ≡ some r
    → Continues hist n docs
    → add_all fs docs c ≡ (c', none)
    → Follows fs hist (n + length docs) c' × SameHead c c'
unfolding add_all
Follows-add_all fs fs-IsWord hist [] n r c c' f e k h =
    let same : c ≡ c' = cc in
    let stay : n + 0 ≡ n = omega arith in rw (stay, ← same) (f, (refl, refl, refl, refl))
Follows-add_all fs fs-IsWord hist ((now, doc) ∷ docs) n r c c' f e (new, k) h =
    let (d, one, rest) = add_all_inv fs now doc docs c c' h in
    let (f', (out, eq)) = Follows-add fs fs-IsWord hist n now doc r c d f e new one in
    let head : SameHead c d = rw eq (refl, refl, refl, refl) in
    let (g, (p, q, s, t)) =
      Follows-add_all fs fs-IsWord hist docs (suc n) r d c' f' (head.0 ∙ e) k rest in
    let next : n + suc (length docs) ≡ suc n + length docs = omega arith in
    rw next (g, (p ∙ head.0, q ∙ head.1, s ∙ head.2, t ∙ head.3))

-- The first document.
pub add_first :
    (fs : ℕ → ℕ → ℕ) (now : ℕ) (doc : Document) (c : BetterCollector)
    → c.reference ≡ none
    → add fs now doc c ≡ add_reference now doc c
unfolding add
add_first fs now doc c e = ground arith

pub Follows-first :
    (fs : ℕ → ℕ → ℕ) (hist : ℕ → List Value) (now : ℕ) (doc : Document) (c : BetterCollector)
    → IsValid c
    → c.reference ≡ none
    → (extract_from_document now doc).values ≡ hist 0
    → Follows fs hist 0 (add_reference now doc c).0
Follows-first fs hist now doc c v e first = record {
  valid = rw (add_first fs now doc c e) at (add-IsValid fs now doc c v);
  words = unfold add_reference in All-replicate IsWord _ 0 (omega arith);
  counted = unfold add_reference in v.unset e;
  latest = unfold add_reference in first;
  differences = λ j i v p below. absurd (omega arith);
}

add_all_step :
    (fs : ℕ → ℕ → ℕ) (now : ℕ) (doc : Document) (docs : List (ℕ × Document))
    (c c' : BetterCollector)
    → add fs now doc c ≡ (c', none)
    → add_all fs ((now, doc) ∷ docs) c ≡ add_all fs docs c'
unfolding add_all
add_all_step fs now doc docs c c' h = ground arith

pub add_all_first :
    (fs : ℕ → ℕ → ℕ) (now : ℕ) (doc : Document) (docs : List (ℕ × Document)) (c : BetterCollector)
    → c.reference ≡ none
    → add_all fs ((now, doc) ∷ docs) c ≡ add_all fs docs (add_reference now doc c).0
add_all_first fs now doc docs c h =
    add_all_step fs now doc docs c (add_reference now doc c).0
      (add_first fs now doc c h ∙ (unfold add_reference in refl))
