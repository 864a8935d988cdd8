-- ===== src/Metrics/Extract/Kinds.antt =====
-- The values that extractMetricsFromDocument (bson_extract.go) returns, by the types beside them.
use ftdc.Prelude.{ℕ, suc, ◌≡◌, refl, ap, List, [], ◌∷◌, ◌++◌, Bool, true, false, arith, length}
use ftdc.Bson.{BsonType, same_type, type_byte, Value, Document, Array, end, element, nil, cons}
use ftdc.Result.{ok}
use ftdc.Metrics.Extract.{
  extract_from_value, extract_from_array, extract_from_elements, extract_from_document,
  extract_delta,
}

unfoldable pub is_double : BsonType → Bool
unfolding same_type
is_double t = same_type t BsonType.double

abbrev pub Fits : Value → BsonType → Type 0
Fits (Value.double _) t = is_double t ≡ true
Fits (Value.int64 _) t = is_double t ≡ false
Fits _ t = ⊥

abbrev pub FitAll : List Value → List BsonType → Type 0
FitAll [] [] = Unit
FitAll (v ∷ vs) (t ∷ ts) = Fits v t × FitAll vs ts
FitAll _ _ = ⊥

FitAll-append :
    (vs ws : List Value) (ts us : List BsonType)
    → FitAll vs ts
    → FitAll ws us
    → FitAll (vs ++ ws) (ts ++ us)
FitAll-append [] ws [] us h k = k
FitAll-append [] ws (t ∷ ts) us h k = absurd h
FitAll-append (v ∷ vs) ws [] us h k = absurd h
FitAll-append (v ∷ vs) ws (t ∷ ts) us (h, hs) k = (h, FitAll-append vs ws ts us hs k)

pub length_of_FitAll : (vs : List Value) (ts : List BsonType) → FitAll vs ts → length ts ≡ length vs
length_of_FitAll [] [] h = refl
length_of_FitAll [] (t ∷ ts) h = absurd h
length_of_FitAll (v ∷ vs) [] h = absurd h
length_of_FitAll (v ∷ vs) (t ∷ ts) (h, hs) = ap suc (length_of_FitAll vs ts hs)

module _ (now : ℕ) where
  mutual
    unfolding extract_from_value is_double type_byte

    fit_value :
        (v : Value) → FitAll (extract_from_value now v).values (extract_from_value now v).types
    fit_value (Value.array a) = fit_array a
    fit_value (Value.document d) = fit_elements d
    fit_value (Value.boolean b) = (refl, tt)
    fit_value (Value.double f) = (refl, tt)
    fit_value (Value.int32 i) = (refl, tt)
    fit_value (Value.int64 i) = (refl, tt)
    fit_value (Value.date_time ms) = (refl, tt)
    fit_value (Value.timestamp t i) = (refl, (refl, tt))
    fit_value _ = tt

    fit_array :
        (a : Array) → FitAll (extract_from_array now a).values (extract_from_array now a).types
    fit_array nil = tt
    fit_array (cons v a) = FitAll-append _ _ _ _ (fit_value v) (fit_array a)

    fit_elements :
        (d : Document)
        → FitAll (extract_from_elements now d).values (extract_from_elements now d).types
    fit_elements end = tt
    fit_elements (element k v d) = FitAll-append _ _ _ _ (fit_value v) (fit_elements d)

  pub fit_document :
      (d : Document)
      → FitAll (extract_from_document now d).values (extract_from_document now d).types
  unfolding extract_from_document
  fit_document d = fit_elements d

-- Two values whose types agree have a difference.
pub delta_of_Fits :
    (float_sub : ℕ → ℕ → ℕ) (v p : Value) (t q : BsonType)
    → Fits v t
    → Fits p q
    → same_type t q ≡ true
    → (d : ℕ) × (extract_delta float_sub v p ≡ ok d)
unfolding extract_delta is_double
delta_of_Fits fs (Value.double a) (Value.double b) t q h k e = (_, refl)
delta_of_Fits fs (Value.int64 a) (Value.int64 b) t q h k e = (_, refl)
delta_of_Fits fs (Value.double a) (Value.int64 b) t q h k e = ground arith
delta_of_Fits fs (Value.int64 a) (Value.double b) t q h k e = ground arith
delta_of_Fits fs (Value.double a) p t q h k e = absurd k
delta_of_Fits fs (Value.int64 a) p t q h k e = absurd k
delta_of_Fits fs v p t q h k e = absurd h
