-- ===== src/Metrics/Exact.antt =====
-- The documents without doubles and timestamps, and what bson_extract.go takes from them.
use ftdc.Prelude.{ℕ, ◌^◌, ◌<◌, ◌≡◌, refl, sym, ap, ◌∙◌, [], Bool, true, false, ◌&&◌, arith, length}
use ftdc.Word.{All-append, IsWord, All}
use ftdc.Bson.{Value, Document, Array, end, element, nil, cons}
use ftdc.Metrics.Convert.{int64_of_int32, epoch_ms}
use ftdc.Metrics.Extract.{
  extract_from_value, extract_from_array, extract_from_elements, extract_from_document,
}
use ftdc.Metrics.Extract.Kinds.{fit_document, length_of_FitAll}
use ftdc.Metrics.Restore.RoundTrip.{
  is_opaque, SameSchema, SameItems, SameFields, double, document, array, boolean, date_time, int32,
  timestamp, int64, opaque, no_items, item, no_fields, field,
}

unfoldable mutual
  pub is_exact : Value → Bool
  is_exact (Value.timestamp _ _) = false
  is_exact (Value.double _) = false
  is_exact (Value.document d) = exact_document d
  is_exact (Value.array a) = exact_array a
  is_exact _ = true

  pub exact_array : Array → Bool
  exact_array nil = true
  exact_array (cons v a) = is_exact v && exact_array a

  pub exact_document : Document → Bool
  exact_document end = true
  exact_document (element k v d) = is_exact v && exact_document d

pub both_true : (a b : Bool) → (a && b) ≡ true → (a ≡ true) × (b ≡ true)
both_true a b h = ground arith

-- An int64.
abbrev pub IsInt : Value → Type 0
IsInt (Value.int64 n) = IsWord n
IsInt _ = ⊥

int64_of_int32-IsWord : (v : ℕ) → v < 2 ^ 32 → IsWord (int64_of_int32 v)
unfolding int64_of_int32
int64_of_int32-IsWord v h = ground arith

epoch_ms-IsWord : (ms : ℕ) → IsWord (epoch_ms ms)
unfolding epoch_ms
epoch_ms-IsWord ms = ground arith

opaque_values :
    (now : ℕ) (v : Value)
    → is_opaque v ≡ true
    → ((extract_from_value now v).values ≡ []) × ((extract_from_value now v).types ≡ [])
unfolding is_opaque extract_from_value
opaque_values now (Value.double f) e = cc
opaque_values now (Value.document d) e = cc
opaque_values now (Value.array a) e = cc
opaque_values now (Value.boolean b) e = cc
opaque_values now (Value.date_time n) e = cc
opaque_values now (Value.int32 n) e = cc
opaque_values now (Value.timestamp t i) e = cc
opaque_values now (Value.int64 n) e = cc
opaque_values now _ e = (refl, refl)

module _ (now : ℕ) where
  mutual
    unfolding is_exact extract_from_value

    ints_of_value :
        {v w : Value}
        → SameSchema v w
        → is_exact v ≡ true
        → All IsInt (extract_from_value now w).values
    ints_of_value (double f g r) h = cc
    ints_of_value (document s) h = ints_of_document s h
    ints_of_value (array s) h = ints_of_array s h
    ints_of_value (boolean b true) h = (omega arith, tt)
    ints_of_value (boolean b false) h = (omega arith, tt)
    ints_of_value (date_time m n r) h = (epoch_ms-IsWord n, tt)
    ints_of_value (int32 m n r) h = (int64_of_int32-IsWord n r, tt)
    ints_of_value (timestamp s i t j p q) h = cc
    ints_of_value (int64 m n r) h = (r, tt)
    ints_of_value (opaque {v} {w} p q) h = rw (opaque_values now w q).0 tt

    ints_of_array :
        {a b : Array}
        → SameItems a b
        → exact_array a ≡ true
        → All IsInt (extract_from_array now b).values
    ints_of_array no_items h = tt
    ints_of_array (item {v} {w} {a} {b} s ss) h =
        let (hv, ha) = both_true (is_exact v) (exact_array a) h in
        All-append IsInt _ _ (ints_of_value s hv) (ints_of_array ss ha)

    ints_of_document :
        {d e : Document}
        → SameFields d e
        → exact_document d ≡ true
        → All IsInt (extract_from_elements now e).values
    ints_of_document no_fields h = tt
    ints_of_document (field {k} {v} {w} {d} {e} s ss) h =
        let (hv, hd) = both_true (is_exact v) (exact_document d) h in
        All-append IsInt _ _ (ints_of_value s hv) (ints_of_document ss hd)

  -- A document of the schema of an exact one has integers only.
  pub extract_from_document-IsInt :
      {d e : Document}
      → SameFields d e
      → exact_document d ≡ true
      → All IsInt (extract_from_document now e).values
  unfolding extract_from_document
  extract_from_document-IsInt s h = ints_of_document s h

module _ (now later : ℕ) where
  mutual
    unfolding extract_from_value

    same_types_of_value :
        {v w : Value}
        → SameSchema v w
        → (extract_from_value later w).types ≡ (extract_from_value now v).types
    same_types_of_value (document s) = same_types_of_document s
    same_types_of_value (array s) = same_types_of_array s
    same_types_of_value (opaque {v} {w} p q) =
        (opaque_values later w q).1 ∙ sym (opaque_values now v p).1
    same_types_of_value (double f g r) = refl
    same_types_of_value (boolean b c) = refl
    same_types_of_value (date_time m n r) = refl
    same_types_of_value (int32 m n r) = refl
    same_types_of_value (timestamp s i t j p q) = refl
    same_types_of_value (int64 m n r) = refl

    same_types_of_array :
        {a b : Array}
        → SameItems a b
        → (extract_from_array later b).types ≡ (extract_from_array now a).types
    same_types_of_array no_items = refl
    same_types_of_array (item s ss) = rw (same_types_of_value s, same_types_of_array ss)

    same_types_of_document :
        {d e : Document}
        → SameFields d e
        → (extract_from_elements later e).types ≡ (extract_from_elements now d).types
    same_types_of_document no_fields = refl
    same_types_of_document (field s ss) = rw (same_types_of_value s, same_types_of_document ss)

  -- extractMetricsFromDocument notes the same types for all documents of one schema.
  pub extract_from_document-types :
      {d e : Document}
      → SameFields d e
      → (extract_from_document later e).types ≡ (extract_from_document now d).types
  unfolding extract_from_document
  extract_from_document-types s = same_types_of_document s

  -- And as many metrics.
  pub extract_from_document-length :
      {d e : Document}
      → SameFields d e
      → length (extract_from_document later e).values ≡ length (extract_from_document now d).values
  extract_from_document-length {d} {e} s =
      sym (length_of_FitAll _ _ (fit_document later e))
      ∙ (ap length (extract_from_document-types s) ∙ length_of_FitAll _ _ (fit_document now d))
