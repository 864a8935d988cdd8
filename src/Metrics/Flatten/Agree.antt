-- ===== src/Metrics/Flatten/Agree.antt =====
-- The metrics that the reader finds in a reference document (bson_metric.go) beside those that the
-- collector takes from it (bson_extract.go).
use mathlib.Core.List.{map-append}
use ftdc.Prelude.{
  ℕ, ◌+◌, ◌≡◌, refl, sym, ap, ◌∙◌, List, [], ◌∷◌, ◌++◌, map, length, length-map, true,
}
use ftdc.Bson.{Text, Value, Document, Array, end, element, nil, cons}
use ftdc.Metrics.Extract.{
  extract_from_value, extract_from_array, extract_from_elements, extract_from_document,
}
use ftdc.Metrics.Extract.Kinds.{fit_document, length_of_FitAll}
use ftdc.Metrics.Exact.{is_exact, exact_array, exact_document, both_true}
use ftdc.Metrics.Flatten.{Metric, metric_for_type, metric_for_array, metric_for_document}
use ftdc.Metrics.Restore.RoundTrip.{number}

map-map :
    {A B C : Type 0} (g : B → C) (f : A → B) (xs : List A)
    → map g (map f xs) ≡ map (λ x. g (f x)) xs
map-map g f [] = refl
map-map g f (x ∷ xs) = ap (λ l. g (f x) ∷ l) (map-map g f xs)

module _ (now : ℕ) where
  mutual
    unfolding metric_for_type extract_from_value

    types_of_value :
        (key : Text) (path : List Text) (v : Value)
        → map Metric.original_type (metric_for_type key path v) ≡ (extract_from_value now v).types
    types_of_value key path (Value.array a) = types_of_array key path 0 a
    types_of_value key path (Value.document d) =
        map-map _ _ _ ∙ types_of_document (path ++ (key ∷ [])) d
    types_of_value key path _ = refl

    types_of_array :
        (key : Text) (path : List Text) (idx : ℕ) (a : Array)
        → map Metric.original_type (metric_for_array key path idx a)
          ≡ (extract_from_array now a).types
    types_of_array key path idx nil = refl
    types_of_array key path idx (cons v a) =
        rw (map-append, types_of_value _ path v, types_of_array key path (idx + 1) a)

    types_of_document :
        (path : List Text) (d : Document)
        → map Metric.original_type (metric_for_document path d)
          ≡ (extract_from_elements now d).types
    types_of_document path end = refl
    types_of_document path (element k v d) =
        rw (map-append, types_of_value k path v, types_of_document path d)

  -- The metrics that metricForDocument finds in a document have the types that
  -- extractMetricsFromDocument notes, in the same order.
  pub metric_for_document-types :
      (d : Document)
      → map Metric.original_type (metric_for_document [] d) ≡ (extract_from_document now d).types
  unfolding extract_from_document
  metric_for_document-types d = types_of_document [] d

  -- The reader finds as many metrics as the collector extracted.
  pub length-metric_for_document :
      (d : Document)
      → length (metric_for_document [] d) ≡ length (extract_from_document now d).values
  length-metric_for_document d =
      sym (length-map (metric_for_document [] d) Metric.original_type)
      ∙ (ap length (metric_for_document-types d) ∙ length_of_FitAll _ _ (fit_document now d))

map_both :
    {A B C : Type 0} (f : A → C) (g : B → C) (xs ys : List A) (vs ws : List B)
    → map f xs ≡ map g vs
    → map f ys ≡ map g ws
    → map f (xs ++ ys) ≡ map g (vs ++ ws)
map_both f g xs ys vs ws p q = simp map-append (rw (p, q))

module _ (now : ℕ) where
  mutual
    unfolding metric_for_type extract_from_value is_exact

    starts_of_value :
        (key : Text) (path : List Text) (v : Value)
        → is_exact v ≡ true
        → map Metric.starting_value (metric_for_type key path v)
          ≡ map number (extract_from_value now v).values
    starts_of_value key path (Value.timestamp t i) h = cc
    starts_of_value key path (Value.double f) h = cc
    starts_of_value key path (Value.array a) h = starts_of_array key path 0 a h
    starts_of_value key path (Value.document d) h =
        map-map _ _ _ ∙ starts_of_document (path ++ (key ∷ [])) d h
    starts_of_value key path _ h = refl

    starts_of_array :
        (key : Text) (path : List Text) (idx : ℕ) (a : Array)
        → exact_array a ≡ true
        → map Metric.starting_value (metric_for_array key path idx a)
          ≡ map number (extract_from_array now a).values
    starts_of_array key path idx nil h = refl
    starts_of_array key path idx (cons v a) h =
        let (hv, ha) = both_true (is_exact v) (exact_array a) h in
        map_both _ _ _ _ _ _ (starts_of_value _ path v hv) (starts_of_array key path (idx + 1) a ha)

    starts_of_document :
        (path : List Text) (d : Document)
        → exact_document d ≡ true
        → map Metric.starting_value (metric_for_document path d)
          ≡ map number (extract_from_elements now d).values
    starts_of_document path end h = refl
    starts_of_document path (element k v d) h =
        let (hv, hd) = both_true (is_exact v) (exact_document d) h in
        map_both _ _ _ _ _ _ (starts_of_value k path v hv) (starts_of_document path d hd)

  -- In a document without doubles and timestamps, the series that metricForDocument finds start
  -- with the values that extractMetricsFromDocument takes.
  pub metric_for_document-starts :
      (d : Document)
      → exact_document d ≡ true
      → map Metric.starting_value (metric_for_document [] d)
        ≡ map number (extract_from_document now d).values
  unfolding extract_from_document
  metric_for_document-starts d h = starts_of_document [] d h
