-- ===== src/Collector/Better/Invariant.antt =====
-- The well-formed states of a betterCollector (collector_better.go), and Add in each of them.
use ftdc.Prelude.{
  ℕ, ◌+◌, ◌*◌, ◌≤◌, ◌<◌, ◌≡◌, refl, ap, ◌∙◌, List, [], ◌∷◌, none, some, Bool, true, false, leb,
  ◌==◌, ==_refl, ◌&&◌, if◌then◌else◌, arith, length, length-set, length-replicate, set, lt→ltb,
  Bool-cases, Option-cases, inl, inr,
}
use ftdc.Result.{overfull, schema_count, schema_types}
use ftdc.Bson.{BsonType, same_type, type_byte, Value, Document}
use ftdc.Series.{get_offset}
use ftdc.Metrics.Extract.{extract_from_document}
use ftdc.Metrics.Extract.Kinds.{FitAll, delta_of_Fits, fit_document}
use ftdc.Collector.Better.{
  BetterCollector, new_base_collector, reset, values_of, types_of, write_sample, add_reference,
  add_sample, add_next, add,
}

pub record IsValid (c : BetterCollector) : Type 0 where
  pub within : c.num_samples ≤ c.max_deltas
  pub sized : length c.deltas ≡ c.max_deltas * length (values_of c.last_sample)
  pub typed : FitAll (values_of c.last_sample) (types_of c.last_sample)
  pub unset : c.reference ≡ none → c.num_samples ≡ 0

-- The lists have the same types, place by place.
pub same_types : List BsonType → List BsonType → Bool
same_types [] [] = true
same_types (t ∷ ts) (q ∷ qs) = same_type t q && same_types ts qs
same_types _ _ = false

pub same_types_refl : (ts : List BsonType) → same_types ts ts ≡ true
unfolding same_type same_types
same_types_refl [] = refl
same_types_refl (t ∷ ts) = rw (==_refl (type_byte t), same_types_refl ts) refl

-- The place of a metric's delta is inside a slice that holds all rows.
place_in_range : (max n idx k : ℕ) → n < max → idx < k → get_offset max n idx < max * k
unfolding get_offset
place_in_range max n idx k h i = grind arith

write_sample_lem :
    (fs : ℕ → ℕ → ℕ) (max n idx : ℕ) (vs : List Value) (ts : List BsonType) (ps : List Value)
    (qs : List BsonType) (deltas : List ℕ)
    → n < max
    → length deltas ≡ max * (idx + length vs)
    → length ps ≡ length vs
    → FitAll vs ts
    → FitAll ps qs
    → (length (write_sample fs max n idx vs ts ps qs deltas).0 ≡ length deltas)
      × ((write_sample fs max n idx vs ts ps qs deltas).1
          ≡ (if same_types ts qs then none else some schema_types))
unfolding write_sample same_types
write_sample_lem fs max n idx [] [] [] [] deltas h l m f g = (refl, refl)
write_sample_lem fs max n idx [] (t ∷ ts) ps qs deltas h l m f g = absurd f
write_sample_lem fs max n idx [] [] (p ∷ ps) qs deltas h l m f g = absurd (omega arith)
write_sample_lem fs max n idx [] [] [] (q ∷ qs) deltas h l m f g = absurd g
write_sample_lem fs max n idx (v ∷ vs) [] ps qs deltas h l m f g = absurd f
write_sample_lem fs max n idx (v ∷ vs) (t ∷ ts) [] qs deltas h l m f g = absurd (omega arith)
write_sample_lem fs max n idx (v ∷ vs) (t ∷ ts) (p ∷ ps) [] deltas h l m f g = absurd g
write_sample_lem fs max n idx (v ∷ vs) (t ∷ ts) (p ∷ ps) (q ∷ qs) deltas h l m (f, fs') (g, gs) =
    elim (Bool-cases (same_type t q)) [
      | inl e ↦
          let (d, delta) = delta_of_Fits fs v p t q f g e in
          let place = get_offset max n idx in
          let room = place_in_range max n idx (idx + length (v ∷ vs)) h (omega arith) in
          let ih =
            write_sample_lem fs max n (idx + 1) vs ts ps qs (set deltas place d) h
              (length-set deltas place d ∙ (l ∙ ap (λ (k : ℕ). max * k) (omega arith)))
              (omega arith) fs' gs in
          rw (e, delta)
            (rw (lt→ltb place (length deltas) (omega arith)) (rw (length-set deltas place d) at ih))
      | inr e ↦ rw e (refl, refl)
    ]

-- The loop of Add, run by a collector whose last sample has as many metrics.
sample_lem :
    (fs : ℕ → ℕ → ℕ) (now : ℕ) (doc : Document) (c : BetterCollector)
    → IsValid c
    → c.num_samples < c.max_deltas
    → length (extract_from_document now doc).values ≡ length (values_of c.last_sample)
    → let m = extract_from_document now doc in
      let out =
        write_sample fs c.max_deltas c.num_samples 0 m.values m.types
          (values_of c.last_sample)
          (types_of c.last_sample)
          c.deltas in
      (length out.0 ≡ length c.deltas)
      × (out.1 ≡ (if same_types m.types (types_of c.last_sample) then none else some schema_types))
sample_lem fs now doc c v room same =
    write_sample_lem fs c.max_deltas c.num_samples 0 _ _ _ _ c.deltas room
      (v.sized ∙ ap (λ (k : ℕ). c.max_deltas * k) (omega arith)) (omega arith)
      (fit_document now doc) v.typed

add_sample_lem :
    (fs : ℕ → ℕ → ℕ) (now : ℕ) (doc r : Document) (c : BetterCollector)
    → IsValid c
    → c.reference ≡ some r
    → c.num_samples < c.max_deltas
    → length (extract_from_document now doc).values ≡ length (values_of c.last_sample)
    → (IsValid (add_sample fs (extract_from_document now doc) c).0)
      × ((add_sample fs (extract_from_document now doc) c).1 ≡ (
          if same_types (extract_from_document now doc).types (types_of c.last_sample)
          then none
          else some schema_types))
unfolding add_sample
add_sample_lem fs now doc r c v e room same =
    ground (arith, sample_lem fs now doc c v room same, fit_document now doc)

add_next_lem :
    (fs : ℕ → ℕ → ℕ) (now : ℕ) (doc r : Document) (c : BetterCollector)
    → IsValid c
    → c.reference ≡ some r
    → let m = extract_from_document now doc in
      (IsValid (add_next fs m c).0)
      × ((add_next fs m c).1 ≡ (
          if leb c.max_deltas c.num_samples
          then some overfull
          else if length m.values == length (values_of c.last_sample)
          then (if same_types m.types (types_of c.last_sample) then none else some schema_types)
          else some schema_count))
unfolding add_next
add_next_lem fs now doc r c v e = ground (arith, add_sample_lem fs now doc r c v e)

-- What Add of a well-formed betterCollector with a reference returns: the error of a full
-- collector, of another number of metrics or of other types, in this order, and else nil.
pub add_lem :
    (fs : ℕ → ℕ → ℕ) (now : ℕ) (doc r : Document) (c : BetterCollector)
    → IsValid c
    → c.reference ≡ some r
    → let m = extract_from_document now doc in
      (add fs now doc c).1 ≡ (
        if leb c.max_deltas c.num_samples
        then some overfull
        else if length m.values == length (values_of c.last_sample)
        then (if same_types m.types (types_of c.last_sample) then none else some schema_types)
        else some schema_count)
unfolding add
add_lem fs now doc r c v e = rw (e, add) (add_next_lem fs now doc r c v e).1

pub new_base_collector-IsValid : (max : ℕ) → IsValid (new_base_collector max)
unfolding new_base_collector
new_base_collector-IsValid max = omega arith

pub reset-IsValid : (c : BetterCollector) → IsValid (reset c)
unfolding reset
reset-IsValid c = omega arith

add_reference-IsValid :
    (now : ℕ) (doc : Document) (c : BetterCollector)
    → IsValid c
    → c.num_samples ≡ 0
    → IsValid (add_reference now doc c).0
unfolding add_reference
add_reference-IsValid now doc c v e = record {
  within = v.within;
  sized = length-replicate _ _;
  typed = fit_document now doc;
  unset = λ _. e;
}

-- Add keeps a betterCollector well-formed, whatever it returns: no more samples than the slice has
-- columns, a slice with a place for every delta, values of the types beside them, and no samples
-- without a reference.
pub add-IsValid :
    (fs : ℕ → ℕ → ℕ) (now : ℕ) (doc : Document) (c : BetterCollector)
    → IsValid c
    → IsValid (add fs now doc c).0
unfolding add
add-IsValid fs now doc c v = elim (Option-cases c.reference) [
  | inl e ↦ rw (e, add) (add_reference-IsValid now doc c v (v.unset e))
  | inr (r, e) ↦ rw (e, add) (add_next_lem fs now doc r c v e).0
]
