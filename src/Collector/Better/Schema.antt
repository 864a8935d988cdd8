-- ===== src/Collector/Better/Schema.antt =====
-- A betterCollector (collector_better.go) on documents of one schema.
use ftdc.Prelude.{
  ℕ, suc, ◌+◌, ◌≤◌, ◌≡◌, refl, ap, ◌∙◌, List, [], ◌∷◌, Option, none, some, false, leb, ==_refl,
  arith, length,
}
use ftdc.Word.{All}
use ftdc.Bson.{Document}
use ftdc.Metrics.Extract.{extract_from_document}
use ftdc.Metrics.Exact.{extract_from_document-types, extract_from_document-length}
use ftdc.Metrics.Restore.RoundTrip.{SameFields}
use ftdc.Collector.Better.{BetterCollector, values_of, types_of, add}
use ftdc.Collector.Better.Invariant.{IsValid, same_types_refl, add_lem, add-IsValid}
use ftdc.Collector.Better.History.{add_all, add_next_inv, add_inv}

-- A state that documents of the reference's schema can be added to.
pub record Ready (now : ℕ) (reference : Document) (room : ℕ) (c : BetterCollector) : Type 0 where
  pub valid : IsValid c
  pub set : c.reference ≡ some reference
  pub types : types_of c.last_sample ≡ (extract_from_document now reference).types
  pub counts :
      length (values_of c.last_sample) ≡ length (extract_from_document now reference).values
  pub fits : c.num_samples + room ≤ c.max_deltas

add-none :
    (fs : ℕ → ℕ → ℕ) (now later room : ℕ) (reference doc : Document) (c : BetterCollector)
    → Ready now reference (suc room) c
    → SameFields reference doc
    → (add fs later doc c).1 ≡ none
add-none fs now later room reference doc c r s =
    let types = extract_from_document-types now later s in
    let counts = extract_from_document-length now later s in
    let full : leb c.max_deltas c.num_samples ≡ false = ground (arith, r.fits) in
    let same = same_types_refl (extract_from_document now reference).types in
    let even = ==_refl (length (extract_from_document now reference).values) in
    add_lem fs later doc reference c r.valid r.set
    ∙ rw (full, counts, types, r.counts, r.types, same, even) refl

add-Ready :
    (fs : ℕ → ℕ → ℕ) (now later room : ℕ) (reference doc : Document) (c : BetterCollector)
    → Ready now reference (suc room) c
    → SameFields reference doc
    → Ready now reference room (add fs later doc c).0
add-Ready fs now later room reference doc c r s =
    let c' = (add fs later doc c).0 in
    let e : add fs later doc c ≡ (c', none) =
      ap (λ (o : Option _). (c', o)) (add-none fs now later room reference doc c r s) in
    let (out, _, _, eq) = add_next_inv fs _ c c' (add_inv fs later doc reference c r.set e) in
    record {
      valid = add-IsValid fs later doc c r.valid;
      set = rw eq r.set;
      types = rw eq (extract_from_document-types now later s);
      counts = rw eq (extract_from_document-length now later s);
      fits = rw eq (omega (arith, r.fits));
    }

abbrev pub OfSchema : Document → List (ℕ × Document) → Type 0
OfSchema reference docs = All (λ x. SameFields reference x.1) docs

-- Documents of the reference's schema, as many as a collector has room for, are added one after the
-- other without an error.
pub add_all-none :
    (fs : ℕ → ℕ → ℕ) (now : ℕ) (reference : Document) (docs : List (ℕ × Document))
    (c : BetterCollector)
    → Ready now reference (length docs) c
    → OfSchema reference docs
    → (add_all fs docs c).1 ≡ none
unfolding add_all
add_all-none fs now reference [] c r s = refl
add_all-none fs now reference ((later, doc) ∷ docs) c r s =
    rw (add-none fs now later (length docs) reference doc c r s.0, add_all)
      (add_all-none fs now reference docs _
        (add-Ready fs now later (length docs) reference doc c r s.0) s.1)
