-- ===== src/Bson/Encode/Size.antt =====
-- The size of the bytes that MarshalBSON writes (bsonx/document.go, bsonx/value.go).
use ftdc.Prelude.{
  ℕ, ◌+◌, ◌≡◌, refl, sym, ap, ◌∙◌, arith, ◌==◌, List, [], ◌∷◌, ◌++◌, length, length-append,
  Bool-cases, inl, inr,
}
use ftdc.Result.{ok, err, ok_injective, invalid_binary_subtype}
use ftdc.Bson.{Text, Value, Document, end, element, Array, nil, cons, type_byte, type_of}
use ftdc.Metrics.Key.{decimal}
use ftdc.Bson.Encode.{
  uint32_bytes, uint64_bytes, cstring_bytes, string_bytes, binary_bytes, timestamp_bytes,
  decimal128_bytes, framed, size_value, size_elements, size_items, size_document, value_bytes,
  elements_bytes, items_bytes, document_bytes, check_document, marshal_bson,
}

-- An object id has twelve bytes.
unfoldable mutual
  pub HasIds : Value → Type 0
  HasIds (Value.object_id oid) = length oid ≡ 12
  HasIds (Value.db_pointer ns oid) = length oid ≡ 12
  HasIds (Value.document d) = AllIds d
  HasIds (Value.array a) = ItemIds a
  HasIds (Value.code_with_scope code scope) = AllIds scope
  HasIds v = Unit

  pub AllIds : Document → Type 0
  AllIds end = Unit
  AllIds (element key v d) = HasIds v × AllIds d

  pub ItemIds : Array → Type 0
  ItemIds nil = Unit
  ItemIds (cons v a) = HasIds v × ItemIds a

length-cstring_bytes : (s : Text) → length (cstring_bytes s) ≡ length s + 1
unfolding cstring_bytes
length-cstring_bytes s = length-append s (0 ∷ [])

length-string_bytes : (s : Text) → length (string_bytes s) ≡ 4 + (length s + 1)
unfolding string_bytes uint32_bytes
length-string_bytes s = omega (arith, length-cstring_bytes s)

length-framed : (size : ℕ) (xs : List ℕ) → length (framed size xs) ≡ 5 + length xs
unfolding framed uint32_bytes
length-framed size xs = omega (arith, length-append xs (0 ∷ []))

length-uint64_bytes : (u : ℕ) → length (uint64_bytes u) ≡ 8
unfolding uint64_bytes uint32_bytes
length-uint64_bytes u = refl

pub length-binary_bytes :
    (btype : ℕ) (b : Text) → length (binary_bytes btype b) ≡ size_value (Value.binary btype b)
unfolding binary_bytes uint32_bytes size_value
length-binary_bytes btype b = elim (Bool-cases (btype == 2)) [
  | inl e ↦ rw (e) (omega arith)
  | inr e ↦ rw (e) (omega arith)
]

-- The type and the key of an element before its value, and what follows it.
length-element :
    (t : ℕ) (key : Text) (value rest : List ℕ) (n m : ℕ)
    → length value ≡ n
    → length rest ≡ m
    → length ((t ∷ cstring_bytes key) ++ value ++ rest) ≡ 1 + (length key + 1) + n + m
length-element t key value rest n m e h = omega (
  arith,
  length-append ((t ∷ cstring_bytes key) ++ value) rest,
  length-append (t ∷ cstring_bytes key) value,
  length-cstring_bytes key,
  e,
  h,
)

mutual
  unfolding value_bytes size_value HasIds timestamp_bytes decimal128_bytes uint32_bytes uint64_bytes

  pub length-value_bytes : (v : Value) → HasIds v → length (value_bytes v) ≡ size_value v
  length-value_bytes (Value.double f) h = refl
  length-value_bytes (Value.string s) h = length-string_bytes s
  length-value_bytes (Value.document d) h =
      length-framed (5 + size_elements d) (elements_bytes d)
      ∙ ap (λ n. 5 + n) (length-elements_bytes d h)
  length-value_bytes (Value.array a) h =
      length-framed (5 + size_items 0 a) (items_bytes 0 a)
      ∙ ap (λ n. 5 + n) (length-items_bytes 0 a h)
  length-value_bytes (Value.binary btype b) h = length-binary_bytes btype b
  length-value_bytes Value.undefined h = refl
  length-value_bytes (Value.object_id oid) h = h
  length-value_bytes (Value.boolean b) h = refl
  length-value_bytes (Value.date_time dt) h = refl
  length-value_bytes Value.null h = refl
  length-value_bytes (Value.regex pattern options) h = omega (
    arith,
    length-append (cstring_bytes pattern) (cstring_bytes options),
    length-cstring_bytes pattern,
    length-cstring_bytes options,
  )
  length-value_bytes (Value.db_pointer ns oid) h =
      omega (arith, length-append (string_bytes ns) oid, length-string_bytes ns, h)
  length-value_bytes (Value.java_script code) h = length-string_bytes code
  length-value_bytes (Value.symbol s) h = length-string_bytes s
  length-value_bytes (Value.code_with_scope code scope) h = omega (
    arith,
    length-append (string_bytes code) (framed (5 + size_elements scope) (elements_bytes scope)),
    length-string_bytes code,
    length-framed (5 + size_elements scope) (elements_bytes scope),
    length-elements_bytes scope h,
  )
  length-value_bytes (Value.int32 i) h = refl
  length-value_bytes (Value.timestamp t i) h = refl
  length-value_bytes (Value.int64 i) h = refl
  length-value_bytes (Value.decimal128 high low) h = refl
  length-value_bytes Value.min_key h = refl
  length-value_bytes Value.max_key h = refl

  pub length-elements_bytes :
      (d : Document) → AllIds d → length (elements_bytes d) ≡ size_elements d
  length-elements_bytes end h = refl
  length-elements_bytes (element key v d) h =
      length-element (type_byte (type_of v)) key (value_bytes v) (elements_bytes d) (size_value v)
        (size_elements d) (length-value_bytes v h.0) (length-elements_bytes d h.1)

  length-items_bytes : (i : ℕ) (a : Array) → ItemIds a → length (items_bytes i a) ≡ size_items i a
  length-items_bytes i nil h = refl
  length-items_bytes i (cons v a) h =
      length-element (type_byte (type_of v)) (decimal i) (value_bytes v) (items_bytes (i + 1) a)
        (size_value v) (size_items (i + 1) a) (length-value_bytes v h.0)
        (length-items_bytes (i + 1) a h.1)

-- The bytes that MarshalBSON of a document returns, whose object ids have twelve bytes each, are as
-- many as Validate counts for the document, which is the size of the slice that they are written
-- into.
pub length-marshal_bson :
    (d : Document) (bytes : List ℕ)
    → AllIds d
    → marshal_bson d ≡ ok bytes
    → length bytes ≡ size_document d
unfolding marshal_bson document_bytes size_document
length-marshal_bson d bytes h e = elim (Bool-cases (check_document d)) [
  | inl valid ↦
      (let q : document_bytes d ≡ bytes = ok_injective (rw (valid) at e) in
        ap length (sym q)
        ∙ length-framed (size_document d) (elements_bytes d)
        ∙ ap (λ n. 5 + n) (length-elements_bytes d h))
  | inr invalid ↦ (let q : err invalid_binary_subtype ≡ ok bytes = rw (invalid) at e in cc)
]
