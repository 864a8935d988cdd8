-- ===== src/Bson/Decode/RoundTrip.antt =====
-- ReadFrom and UnmarshalBSON of what MarshalBSON has written (bsonx/document.go).
use ftdc.Prelude.{
  ℕ, zero, suc, ◌+◌, ◌-◌, ◌^◌, ◌≤◌, ◌<◌, ◌≡◌, refl, sym, ap, ◌∙◌, arith, true, false, ◌||◌, ltb,
  leb, ◌==◌, List, [], ◌∷◌, ◌++◌, length, length-append, Bool-cases, inl, inr,
}
use mathlib.Core.List.{append_assoc, append-nil}
use ftdc.Result.{Result, ok, err, eof, ◌>>=◌}
use ftdc.Bson.{Text, BsonType, Value, Document, end, element, Array, nil, cons, type_of}
use ftdc.Bson.Encode.{
  uint32_bytes, uint64_bytes, cstring_bytes, string_bytes, binary_bytes, timestamp_bytes,
  decimal128_bytes, value_bytes, elements_bytes, items_bytes, framed, size_value, size_elements,
  size_items, size_document, document_bytes, marshal_bson,
}
use ftdc.Bson.Encode.Size.{length-elements_bytes}
use ftdc.Bson.Decode.{
  RawElement, read_u32, read_u64, slice, read_string, read_binary, read_regex, to_array, view,
  read_nested, read_one, read_value, unmarshal_bson, read_full, read_from,
}
use ftdc.Bson.Decode.Values.{
  read_u32-uint32_bytes, read_u64-uint64_bytes, cut_zero-cstring_bytes, slice-append, take-append,
  drop-append,
}
use ftdc.Bson.Decode.Encodable.{
  NoZero, IsPlainValue, IsPlainDocument, IsPlainArray, document-AllIds, check-document, as_document,
  to_array-as_document, items_bytes-as_document, size_items-as_document,
  as_document-IsPlainDocument, binary_bytes-old, binary_bytes-other,
}
use ftdc.Bson.Decode.Elements.{
  raw_elements, length-uint32_bytes, framed_parts, read_elements-framed,
}

read_u32-string_bytes :
    (s : Text) (rest : List ℕ)
    → length s + 1 < 2 ^ 31
    → read_u32 (string_bytes s ++ rest) ≡ ok (length s + 1, s ++ (0 ∷ rest))
unfolding string_bytes cstring_bytes uint32_bytes
read_u32-string_bytes s rest h =
    read_u32-uint32_bytes (length s + 1) (s ++ (0 ∷ []) ++ rest) (omega (arith, h))
    ∙ ap (λ xs. ok (length s + 1, xs)) (append_assoc s (0 ∷ []) rest)

read_string-string_bytes :
    (s : Text) (rest : List ℕ)
    → length s + 1 < 2 ^ 31
    → read_string (string_bytes s ++ rest) ≡ ok (s, rest)
unfolding read_string
read_string-string_bytes s rest h =
    let some_bytes : ((length s + 1 == 0) || leb (2 ^ 31) (length s + 1)) ≡ false =
      ground (arith, h) in
    rw
      (
        read_u32-string_bytes s rest h,
        some_bytes,
        slice-append (length s + 1 - 1) s (0 ∷ rest) (omega arith),
      )
      refl

read_binary-binary_bytes :
    (btype : ℕ) (b rest : List ℕ)
    → length b + 4 < 2 ^ 32
    → read_binary (binary_bytes btype b ++ rest) ≡ ok (Value.binary btype b)
unfolding read_binary
read_binary-binary_bytes btype b rest h = elim (Bool-cases (btype == 2)) [
  | inl e ↦
      let two : btype ≡ 2 = ground (arith, e) in
      rw (binary_bytes-old btype b rest e) (
        rw
          (
            read_binary,
            read_u32-uint32_bytes (length b + 4) (2 ∷ (uint32_bytes (length b) ++ (b ++ rest))) h,
            read_u32-uint32_bytes (length b) (b ++ rest) (omega (arith, h)),
            slice-append (length b) b rest refl,
          )
          (ap (λ t. ok (Value.binary t b)) (sym two)))
  | inr e ↦ rw (binary_bytes-other btype b rest e) (
      rw
        (
          read_binary,
          read_u32-uint32_bytes (length b) (btype ∷ (b ++ rest)) (omega (arith, h)),
          e,
          slice-append (length b) b rest refl,
        )
        refl)
]

read_regex-cstring_bytes :
    (pattern options rest : List ℕ)
    → NoZero pattern
    → NoZero options
    → read_regex (cstring_bytes pattern ++ cstring_bytes options ++ rest)
      ≡ ok (Value.regex pattern options)
unfolding read_regex
read_regex-cstring_bytes pattern options rest h k =
    rw
      (
        append_assoc (cstring_bytes pattern) (cstring_bytes options) rest,
        read_regex,
        cut_zero-cstring_bytes pattern (cstring_bytes options ++ rest) h,
        cut_zero-cstring_bytes options rest k,
      )
      refl

read_nested-framed :
    (value : BsonType → List ℕ → Result Value) (d : Document) (rest : List ℕ)
    → IsPlainDocument d
    → 5 + size_elements d < 2 ^ 31
    → read_nested value (framed (5 + size_elements d) (elements_bytes d) ++ rest)
      ≡ view value (raw_elements d (0 ∷ []))
unfolding read_nested
read_nested-framed value d rest p k =
    let size = 5 + size_elements d in
    let data_ = framed size (elements_bytes d) in
    let (parts, len) = framed_parts size (elements_bytes d) in
    let same = length-elements_bytes d (document-AllIds d p) in
    let start : read_u32 (data_ ++ rest) ≡ ok (size, elements_bytes d ++ (0 ∷ []) ++ rest) =
      ap (λ xs. read_u32 (xs ++ rest)) parts
      ∙ ap read_u32 (append_assoc (uint32_bytes size) (elements_bytes d ++ (0 ∷ [])) rest)
      ∙ read_u32-uint32_bytes size _ (omega (arith, k)) in
    rw (start, slice-append size data_ rest (omega (arith, len, same)), read_elements-framed d p k)
      refl

view-more :
    (value : BsonType → List ℕ → Result Value) (key : Text) (v : Value) (d : Document)
    (kind : BsonType) (bytes : List ℕ) (rs : List RawElement)
    → value kind bytes ≡ ok v
    → view value rs ≡ ok d
    → view value (record { key = key; kind = kind; bytes = bytes } ∷ rs) ≡ ok (element key v d)
unfolding view
view-more value key v d kind bytes rs e h = rw (e, h) refl

view-end : (value : BsonType → List ℕ → Result Value) → view value [] ≡ ok end
unfolding view
view-end value = refl

read_nested-items :
    (value : BsonType → List ℕ → Result Value) (a : Array) (rest : List ℕ)
    → IsPlainArray a
    → 5 + size_items 0 a < 2 ^ 31
    → read_nested value (framed (5 + size_items 0 a) (items_bytes 0 a) ++ rest)
      ≡ view value (raw_elements (as_document 0 a) (0 ∷ []))
read_nested-items value a rest p k =
    rw (items_bytes-as_document 0 a, size_items-as_document 0 a)
      (read_nested-framed value (as_document 0 a) rest (as_document-IsPlainDocument 0 a p)
        (omega (arith, k, size_items-as_document 0 a)))

read_pointer :
    (ns oid rest : List ℕ)
    → length ns + 1 < 2 ^ 31
    → length oid ≡ 12
    → (read_string (string_bytes ns ++ oid ++ rest)
        >>= (λ (ns, bs). slice 12 bs >>= (λ (oid, _). ok (Value.db_pointer ns oid))))
      ≡ ok (Value.db_pointer ns oid)
read_pointer ns oid rest h l =
    rw
      (
        append_assoc (string_bytes ns) oid rest,
        read_string-string_bytes ns (oid ++ rest) h,
        slice-append 12 oid rest (sym l),
      )
      refl

-- The accessors of a value that was written, and of all values of a document or an array.
mutual
  unfolding read_value read_one type_of value_bytes size_value size_elements size_items IsPlainValue
      IsPlainDocument IsPlainArray timestamp_bytes decimal128_bytes

  pub read_value-value_bytes :
      (v : Value) (n : ℕ) (rest : List ℕ)
      → IsPlainValue v
      → size_value v < n
      → size_value v < 2 ^ 31
      → read_value n (type_of v) (value_bytes v ++ rest) ≡ ok v
  read_value-value_bytes v zero rest p h k = absurd (omega (arith, h))
  read_value-value_bytes (Value.double f) (suc n) rest p h k =
      ap (λ r. r >>= (λ u. ok (Value.double u.0))) (read_u64-uint64_bytes f rest p)
  read_value-value_bytes (Value.string s) (suc n) rest p h k =
      ap (λ r. r >>= (λ u. ok (Value.string u.0)))
        (read_string-string_bytes s rest (omega (arith, k)))
  read_value-value_bytes (Value.document d) (suc n) rest p h k =
      ap (λ r. r >>= (λ x. ok (Value.document x)))
        (read_nested-framed (read_value n) d rest p k
          ∙ view-raw_elements d n (0 ∷ []) p (omega (arith, h)) (omega (arith, k)))
  read_value-value_bytes (Value.array a) (suc n) rest p h k =
      ap (λ r. r >>= (λ d. ok (Value.array (to_array d))))
        (read_nested-items (read_value n) a rest p k
          ∙ view-as_document a 0 n (0 ∷ []) p (omega (arith, h)) (omega (arith, k)))
      ∙ ap (λ x. ok (Value.array x)) (to_array-as_document 0 a)
  read_value-value_bytes (Value.binary btype b) (suc n) rest p h k =
      read_binary-binary_bytes btype b rest (ground (arith, k))
  read_value-value_bytes Value.undefined (suc n) rest p h k = refl
  read_value-value_bytes (Value.object_id oid) (suc n) rest p h k =
      ap (λ r. r >>= (λ u. ok (Value.object_id u.0))) (slice-append 12 oid rest (sym p))
  read_value-value_bytes (Value.boolean true) (suc n) rest p h k = refl
  read_value-value_bytes (Value.boolean false) (suc n) rest p h k = refl
  read_value-value_bytes (Value.date_time t) (suc n) rest p h k =
      ap (λ r. r >>= (λ u. ok (Value.date_time u.0))) (read_u64-uint64_bytes t rest p)
  read_value-value_bytes Value.null (suc n) rest p h k = refl
  read_value-value_bytes (Value.regex pattern options) (suc n) rest p h k =
      read_regex-cstring_bytes pattern options rest p.0 p.1
  read_value-value_bytes (Value.db_pointer ns oid) (suc n) rest p h k =
      read_pointer ns oid rest (omega (arith, k)) p
  read_value-value_bytes (Value.java_script s) (suc n) rest p h k =
      ap (λ r. r >>= (λ u. ok (Value.java_script u.0)))
        (read_string-string_bytes s rest (omega (arith, k)))
  read_value-value_bytes (Value.symbol s) (suc n) rest p h k =
      ap (λ r. r >>= (λ u. ok (Value.symbol u.0)))
        (read_string-string_bytes s rest (omega (arith, k)))
  read_value-value_bytes (Value.code_with_scope code scope) (suc n) rest p h k = absurd p
  read_value-value_bytes (Value.int32 i) (suc n) rest p h k =
      ap (λ r. r >>= (λ u. ok (Value.int32 u.0))) (read_u32-uint32_bytes i rest p)
  read_value-value_bytes (Value.timestamp t i) (suc n) rest p h k =
      ap (λ r. r >>= (λ u. read_u32 u.1 >>= (λ w. ok (Value.timestamp w.0 u.0))))
        (read_u32-uint32_bytes i (uint32_bytes t ++ rest) p.1)
      ∙ ap (λ r. r >>= (λ w. ok (Value.timestamp w.0 i))) (read_u32-uint32_bytes t rest p.0)
  read_value-value_bytes (Value.int64 i) (suc n) rest p h k =
      ap (λ r. r >>= (λ u. ok (Value.int64 u.0))) (read_u64-uint64_bytes i rest p)
  read_value-value_bytes (Value.decimal128 high low) (suc n) rest p h k =
      ap (λ r. r >>= (λ u. read_u64 u.1 >>= (λ w. ok (Value.decimal128 w.0 u.0))))
        (read_u64-uint64_bytes low (uint64_bytes high ++ rest) p.1)
      ∙ ap (λ r. r >>= (λ w. ok (Value.decimal128 w.0 low))) (read_u64-uint64_bytes high rest p.0)
  read_value-value_bytes Value.min_key (suc n) rest p h k = refl
  read_value-value_bytes Value.max_key (suc n) rest p h k = refl

  pub view-raw_elements :
      (d : Document) (n : ℕ) (tail : List ℕ)
      → IsPlainDocument d
      → size_elements d < n + 1
      → size_elements d < 2 ^ 31
      → view (read_value n) (raw_elements d tail) ≡ ok d
  view-raw_elements end n tail p h k = view-end (read_value n)
  view-raw_elements (element key v d) n tail p h k =
      view-more (read_value n) key v d (type_of v) _ _
        (read_value-value_bytes v n _ p.1 (omega (arith, h)) (omega (arith, k)))
        (view-raw_elements d n tail p.2 (omega (arith, h)) (omega (arith, k)))

  view-as_document :
      (a : Array) (i n : ℕ) (tail : List ℕ)
      → IsPlainArray a
      → size_items i a < n + 1
      → size_items i a < 2 ^ 31
      → view (read_value n) (raw_elements (as_document i a) tail) ≡ ok (as_document i a)
  view-as_document nil i n tail p h k = view-end (read_value n)
  view-as_document (cons v a) i n tail p h k =
      view-more (read_value n) _ v (as_document (i + 1) a) (type_of v) _ _
        (read_value-value_bytes v n _ p.0 (omega (arith, h)) (omega (arith, k)))
        (view-as_document a (i + 1) n tail p.1 (omega (arith, h)) (omega (arith, k)))

-- The documents that an encoding of fewer than 2 ^ 31 bytes holds, and that are read back.
pub record IsEncodable (d : Document) : Type 0 where
  pub plain : IsPlainDocument d
  pub short : size_document d < 2 ^ 31

unmarshal-framed :
    (d : Document)
    → IsPlainDocument d
    → 5 + size_elements d < 2 ^ 31
    → unmarshal_bson (framed (5 + size_elements d) (elements_bytes d)) ≡ ok d
unfolding unmarshal_bson
unmarshal-framed d p k =
    let data_ = framed (5 + size_elements d) (elements_bytes d) in
    let (parts, len) = framed_parts (5 + size_elements d) (elements_bytes d) in
    let same = length-elements_bytes d (document-AllIds d p) in
    rw (read_elements-framed d p k)
      (view-raw_elements d (length data_) (0 ∷ []) p (omega (arith, len, same)) (omega (arith, k)))

read_full-append : (n : ℕ) (xs ys : List ℕ) → length xs ≡ n → read_full n (xs ++ ys) ≡ ok (xs, ys)
unfolding read_full
read_full-append zero [] ys e = refl
read_full-append zero (x ∷ xs) ys e = absurd (omega (arith, e))
read_full-append (suc n) [] ys e = absurd (omega (arith, e))
read_full-append (suc n) (x ∷ xs) ys e =
    let fits : leb (suc n) (suc (length (xs ++ ys))) ≡ true =
      ground (arith, length-append xs ys, e) in
    let same : n ≡ length xs = omega (arith, e) in
    rw (fits, same, take-append xs ys, drop-append xs ys) refl

read_from-parts :
    (size body rest : List ℕ) (given : ℕ) (behind : List ℕ) (d : Document)
    → length size ≡ 4
    → read_u32 size ≡ ok (given, behind)
    → given < 2 ^ 31
    → given ≡ 4 + length body
    → unmarshal_bson (size ++ body) ≡ ok d
    → read_from (size ++ (body ++ rest)) ≡ ok (d, rest)
unfolding read_from
read_from-parts size body rest given behind d l e k n h =
    let fits : (leb (2 ^ 31) given || ltb given 4) ≡ false = ground (arith, k, n) in
    rw
      (
        read_full-append 4 size (body ++ rest) l,
        e,
        fits,
        read_full-append (given - 4) body rest (omega (arith, n)),
        h,
      )
      refl

-- ReadFrom of the bytes of a document, with any bytes behind them, gives the document, and leaves
-- those bytes. It is a document whose bytes are fewer than 2 ^ 31, whose keys and regular
-- expressions have no zero byte, whose numbers, object ids and subtypes are in the range of their
-- Go types, and which hold no JavaScript with a scope.
pub read_from-document_bytes :
    (d : Document) (rest : List ℕ)
    → IsEncodable d
    → read_from (document_bytes d ++ rest) ≡ ok (d, rest)
unfolding document_bytes size_document
read_from-document_bytes d rest h =
    let p = h.plain in
    let k : 5 + size_elements d < 2 ^ 31 = h.short in
    let size = 5 + size_elements d in
    let (parts, len) = framed_parts size (elements_bytes d) in
    let same = length-elements_bytes d (document-AllIds d p) in
    let body = elements_bytes d ++ (0 ∷ []) in
    let start : read_u32 (uint32_bytes size) ≡ ok (size, []) =
      ap read_u32 (sym (append-nil (uint32_bytes size)))
      ∙ read_u32-uint32_bytes size [] (omega (arith, k)) in
    ap (λ xs. read_from (xs ++ rest)) parts
    ∙ ap read_from (append_assoc (uint32_bytes size) body rest)
    ∙ read_from-parts (uint32_bytes size) body rest size [] d (length-uint32_bytes size) start k
        (omega (arith, length-append (elements_bytes d) (0 ∷ []), same))
        (ap unmarshal_bson (sym parts) ∙ unmarshal-framed d p k)

pub unmarshal_bson-document_bytes :
    (d : Document) → IsEncodable d → unmarshal_bson (document_bytes d) ≡ ok d
unfolding document_bytes size_document
unmarshal_bson-document_bytes d h = unmarshal-framed d h.plain h.short

pub length-document_bytes : (d : Document) → 5 ≤ length (document_bytes d)
unfolding document_bytes
length-document_bytes d = omega (arith, (framed_parts (size_document d) (elements_bytes d)).1)

pub read_from-nil : read_from [] ≡ err eof
unfolding read_from
read_from-nil = refl

pub marshal_bson-IsEncodable :
    (d : Document) → IsEncodable d → marshal_bson d ≡ ok (document_bytes d)
unfolding marshal_bson
marshal_bson-IsEncodable d h = rw (check-document d h.plain) refl
