-- ===== src/Bson/Decode/Encodable.antt =====
-- The documents that are read back as they are written (bsonx/document.go), and the sizes that
-- Value.validate(true) finds for their values (bsonx/value.go).
use ftdc.Prelude.{
  ℕ, zero, suc, ◌+◌, ◌^◌, ◌/◌, ◌≤◌, ◌<◌, ◌≡◌, refl, ap, ◌∙◌, arith, true, false, ◌&&◌, ◌||◌, ltb,
  leb, ◌==◌, List, [], ◌∷◌, ◌++◌, length, length-append, Bool-cases, inl, inr,
}
use mathlib.Core.List.{append_assoc}
use ftdc.Result.{ok, ◌>>=◌}
use ftdc.Word.{All, All-append}
use ftdc.Metrics.Key.{decimal, decimal_loop}
use ftdc.Bson.{Text, Value, Document, end, element, Array, nil, cons, type_of}
use ftdc.Bson.Encode.{
  uint32_bytes, uint64_bytes, cstring_bytes, string_bytes, binary_bytes, timestamp_bytes,
  decimal128_bytes, framed, value_bytes, elements_bytes, items_bytes, size_value, size_elements,
  size_items, check_value, check_document, check_array,
}
use ftdc.Bson.Encode.Size.{length-value_bytes, HasIds, AllIds, ItemIds}
use ftdc.Bson.Decode.{
  first_u32, at_least, after_length, validate_document, validate_binary, validate_regex, validate,
  to_array,
}
use ftdc.Bson.Decode.Values.{read_u32-uint32_bytes, cut_zero-cstring_bytes, after_length-fits}

-- Bytes without a zero.
abbrev pub NoZero : Text → Type 0
NoZero s = All (λ b. 1 ≤ b) s

-- Keys and regular expressions without a zero, object ids of twelve bytes, a subtype of binary data
-- that there is, and numbers in the range of their Go types. JavaScript with a scope is left out.
unfoldable mutual
  pub IsPlainValue : Value → Type 0
  IsPlainValue (Value.double f) = f < 2 ^ 64
  IsPlainValue (Value.document d) = IsPlainDocument d
  IsPlainValue (Value.array a) = IsPlainArray a
  IsPlainValue (Value.binary btype b) = (ltb 5 btype && ltb btype 0x80) ≡ false
  IsPlainValue (Value.object_id oid) = length oid ≡ 12
  IsPlainValue (Value.date_time t) = t < 2 ^ 64
  IsPlainValue (Value.regex pattern options) = NoZero pattern × NoZero options
  IsPlainValue (Value.db_pointer ns oid) = length oid ≡ 12
  IsPlainValue (Value.code_with_scope code scope) = ⊥
  IsPlainValue (Value.int32 i) = i < 2 ^ 32
  IsPlainValue (Value.timestamp t i) = (t < 2 ^ 32) × (i < 2 ^ 32)
  IsPlainValue (Value.int64 i) = i < 2 ^ 64
  IsPlainValue (Value.decimal128 high low) = (high < 2 ^ 64) × (low < 2 ^ 64)
  IsPlainValue v = Unit

  pub IsPlainDocument : Document → Type 0
  IsPlainDocument end = Unit
  IsPlainDocument (element key v d) = NoZero key × IsPlainValue v × IsPlainDocument d

  pub IsPlainArray : Array → Type 0
  IsPlainArray nil = Unit
  IsPlainArray (cons v a) = IsPlainValue v × IsPlainArray a

mutual
  unfolding IsPlainValue HasIds

  pub value-HasIds : (v : Value) → IsPlainValue v → HasIds v
  value-HasIds (Value.double f) h = tt
  value-HasIds (Value.document d) h = document-AllIds d h
  value-HasIds (Value.array a) h = array-ItemIds a h
  value-HasIds (Value.object_id oid) h = h
  value-HasIds (Value.db_pointer ns oid) h = h
  value-HasIds (Value.code_with_scope code scope) h = absurd h
  value-HasIds v h = tt

  pub document-AllIds : (d : Document) → IsPlainDocument d → AllIds d
  document-AllIds end h = tt
  document-AllIds (element key v d) h = (value-HasIds v h.1, document-AllIds d h.2)

  pub array-ItemIds : (a : Array) → IsPlainArray a → ItemIds a
  array-ItemIds nil h = tt
  array-ItemIds (cons v a) h = (value-HasIds v h.0, array-ItemIds a h.1)

-- MarshalBSON takes them.
mutual
  unfolding IsPlainValue check_value

  pub check-value : (v : Value) → IsPlainValue v → check_value v ≡ true
  check-value (Value.document d) h = check-document d h
  check-value (Value.array a) h = check-array a h
  check-value (Value.binary btype b) h = rw h refl
  check-value (Value.code_with_scope code scope) h = absurd h
  check-value v h = refl

  pub check-document : (d : Document) → IsPlainDocument d → check_document d ≡ true
  check-document end h = refl
  check-document (element key v d) h = rw (check-value v h.1, check-document d h.2) refl

  pub check-array : (a : Array) → IsPlainArray a → check_array a ≡ true
  check-array nil h = refl
  check-array (cons v a) h = rw (check-value v h.0, check-array a h.1) refl

-- An array as the document that it is written as.
abbrev pub as_document : ℕ → Array → Document
as_document i nil = end
as_document i (cons v a) = element (decimal i) v (as_document (i + 1) a)

pub to_array-as_document : (i : ℕ) (a : Array) → to_array (as_document i a) ≡ a
to_array-as_document i nil = refl
to_array-as_document i (cons v a) = ap (cons v) (to_array-as_document (i + 1) a)

pub items_bytes-as_document :
    (i : ℕ) (a : Array) → items_bytes i a ≡ elements_bytes (as_document i a)
unfolding items_bytes
items_bytes-as_document i nil = refl
items_bytes-as_document i (cons v a) = rw (items_bytes-as_document (i + 1) a) refl

pub size_items-as_document : (i : ℕ) (a : Array) → size_items i a ≡ size_elements (as_document i a)
unfolding size_items
size_items-as_document i nil = refl
size_items-as_document i (cons v a) = rw (size_items-as_document (i + 1) a) refl

decimal_loop-NoZero : (fuel n : ℕ) → NoZero (decimal_loop fuel n)
unfolding decimal_loop
decimal_loop-NoZero zero n = (omega arith, tt)
decimal_loop-NoZero (suc fuel) n = elim (Bool-cases (ltb n 10)) [
  | inl e ↦ rw (e) (omega arith, tt)
  | inr e ↦ rw (e) (
      All-append (λ b. 1 ≤ b) (decimal_loop fuel (n / 10)) _ (decimal_loop-NoZero fuel (n / 10))
        (omega arith, tt))
]

pub as_document-IsPlainDocument :
    (i : ℕ) (a : Array) → IsPlainArray a → IsPlainDocument (as_document i a)
unfolding IsPlainArray decimal
as_document-IsPlainDocument i nil h = tt
as_document-IsPlainDocument i (cons v a) h =
    (decimal_loop-NoZero i i, h.0, as_document-IsPlainDocument (i + 1) a h.1)

length-uint32_bytes : (l : ℕ) (rest : List ℕ) → (ltb (length (uint32_bytes l ++ rest)) 4) ≡ false
unfolding uint32_bytes
length-uint32_bytes l rest = ground arith

first_u32-uint32_bytes :
    (l : ℕ) (rest : List ℕ) → l < 2 ^ 32 → first_u32 (uint32_bytes l ++ rest) ≡ ok l
unfolding first_u32
first_u32-uint32_bytes l rest h =
    rw (length-uint32_bytes l rest, read_u32-uint32_bytes l rest h) refl

-- A value behind a length.
validate_length :
    (off len more l : ℕ) (rest : List ℕ)
    → off + more + l ≤ len
    → len < 2 ^ 31
    → (first_u32 (uint32_bytes l ++ rest) >>= after_length off len more) ≡ ok (more + l)
validate_length off len more l rest h k =
    rw (first_u32-uint32_bytes l rest (omega (arith, h, k))) (after_length-fits off len more l h k)

validate_framed :
    (off len l : ℕ) (rest : List ℕ)
    → off + l ≤ len
    → len < 2 ^ 31
    → 5 ≤ l
    → (first_u32 (uint32_bytes l ++ rest) >>= validate_document off len) ≡ ok l
unfolding validate_document
validate_framed off len l rest h k five =
    let small : (ltb l 5 || leb (2 ^ 31) l) ≡ false = ground (arith, h, k, five) in
    rw (first_u32-uint32_bytes l rest (omega (arith, h, k)), small)
      (after_length-fits off len 0 l (omega (arith, h)) k ∙ ap ok (omega arith))

enough_for_binary :
    (l t : ℕ) (rest : List ℕ) → ltb (length (uint32_bytes l ++ (t ∷ rest))) 5 ≡ false
unfolding uint32_bytes
enough_for_binary l t rest = ground arith

validate_subtype :
    (off len l t : ℕ) (rest : List ℕ)
    → (ltb 5 t && ltb t 0x80) ≡ false
    → off + 5 + l ≤ len
    → len < 2 ^ 31
    → validate_binary off len (uint32_bytes l ++ (t ∷ rest)) ≡ ok (5 + l)
unfolding validate_binary
validate_subtype off len l t rest valid h k =
    rw (enough_for_binary l t rest, read_u32-uint32_bytes l (t ∷ rest) (omega (arith, h, k)), valid)
      (after_length-fits off len 5 l h k)

-- What Binary.Encode writes of the old subtype and of another one, before other bytes.
pub binary_bytes-old :
    (btype : ℕ) (b rest : List ℕ)
    → (btype == 2) ≡ true
    → binary_bytes btype b ++ rest
      ≡ uint32_bytes (length b + 4) ++ (2 ∷ (uint32_bytes (length b) ++ (b ++ rest)))
unfolding binary_bytes uint32_bytes
binary_bytes-old btype b rest e = rw (e, binary_bytes) refl

pub binary_bytes-other :
    (btype : ℕ) (b rest : List ℕ)
    → (btype == 2) ≡ false
    → binary_bytes btype b ++ rest ≡ uint32_bytes (length b) ++ (btype ∷ (b ++ rest))
unfolding binary_bytes uint32_bytes
binary_bytes-other btype b rest e = rw (e, binary_bytes) refl

validate-binary :
    (off len btype : ℕ) (b rest : List ℕ)
    → (ltb 5 btype && ltb btype 0x80) ≡ false
    → off + size_value (Value.binary btype b) ≤ len
    → len < 2 ^ 31
    → validate_binary off len (binary_bytes btype b ++ rest)
      ≡ ok (size_value (Value.binary btype b))
unfolding size_value
validate-binary off len btype b rest valid h k = elim (Bool-cases (btype == 2)) [
  | inl e ↦
      let h' : off + (9 + length b) ≤ len = rw e at h in
      rw (binary_bytes-old btype b rest e, e)
        (validate_subtype off len (length b + 4) 2 _ refl (omega (arith, h')) k
          ∙ ap ok (omega arith))
  | inr e ↦
      let h' : off + (5 + length b) ≤ len = rw e at h in
      rw (binary_bytes-other btype b rest e, e)
        (validate_subtype off len (length b) btype _ valid (omega (arith, h')) k)
]

validate_regex-cstring_bytes :
    (pattern options rest : List ℕ)
    → NoZero pattern
    → NoZero options
    → validate_regex (cstring_bytes pattern ++ cstring_bytes options ++ rest)
      ≡ ok (length pattern + 1 + (length options + 1))
unfolding validate_regex
validate_regex-cstring_bytes pattern options rest h k =
    rw
      (
        append_assoc (cstring_bytes pattern) (cstring_bytes options) rest,
        validate_regex,
        cut_zero-cstring_bytes pattern (cstring_bytes options ++ rest) h,
        cut_zero-cstring_bytes options rest k,
      )
      refl

validate-at_least : (n : ℕ) (xs rest : List ℕ) → length xs ≡ n → at_least n (xs ++ rest) ≡ ok n
unfolding at_least
validate-at_least n xs rest e =
    let enough : ltb (length (xs ++ rest)) n ≡ false = ground (arith, length-append xs rest, e) in
    rw enough refl

validate_string :
    (off len more : ℕ) (s : Text) (rest : List ℕ)
    → off + more + (length s + 1) ≤ len
    → len < 2 ^ 31
    → (first_u32 (string_bytes s ++ rest) >>= after_length off len more)
      ≡ ok (more + (length s + 1))
unfolding string_bytes uint32_bytes
validate_string off len more s rest h k =
    validate_length off len more (length s + 1) (cstring_bytes s ++ rest) h k

validate_pointer :
    (off len : ℕ) (ns oid rest : List ℕ)
    → off + 16 + (length ns + 1) ≤ len
    → len < 2 ^ 31
    → (first_u32 (string_bytes ns ++ oid ++ rest) >>= after_length off len 16)
      ≡ ok (16 + (length ns + 1))
unfolding string_bytes uint32_bytes
validate_pointer off len ns oid rest h k =
    validate_length off len 16 (length ns + 1) (cstring_bytes ns ++ oid ++ rest) h k

validate_nested :
    (off len l : ℕ) (xs rest : List ℕ)
    → off + l ≤ len
    → len < 2 ^ 31
    → 5 ≤ l
    → (first_u32 (framed l xs ++ rest) >>= validate_document off len) ≡ ok l
unfolding framed uint32_bytes
validate_nested off len l xs rest h k five =
    validate_framed off len l (xs ++ (0 ∷ []) ++ rest) h k five

-- validate(true) of a value that was written finds its size.
pub validate-value_bytes :
    (v : Value) (off len : ℕ) (rest : List ℕ)
    → IsPlainValue v
    → off + size_value v ≤ len
    → len < 2 ^ 31
    → validate (type_of v) off len (value_bytes v ++ rest) ≡ ok (size_value v)
unfolding validate value_bytes size_value IsPlainValue type_of HasIds
validate-value_bytes (Value.double f) off len rest p h k =
    validate-at_least 8 (uint64_bytes f) rest (length-value_bytes (Value.double f) tt)
validate-value_bytes (Value.string s) off len rest p h k =
    validate_string off len 4 s rest (omega (arith, h)) k
validate-value_bytes (Value.document d) off len rest p h k =
    validate_nested off len (5 + size_elements d) (elements_bytes d) rest h k (omega arith)
validate-value_bytes (Value.array a) off len rest p h k =
    validate_nested off len (5 + size_items 0 a) (items_bytes 0 a) rest h k (omega arith)
validate-value_bytes (Value.binary btype b) off len rest p h k =
    validate-binary off len btype b rest p h k
validate-value_bytes Value.undefined off len rest p h k = refl
validate-value_bytes (Value.object_id oid) off len rest p h k = validate-at_least 12 oid rest p
validate-value_bytes (Value.boolean true) off len rest p h k = refl
validate-value_bytes (Value.boolean false) off len rest p h k = refl
validate-value_bytes (Value.date_time t) off len rest p h k =
    validate-at_least 8 (uint64_bytes t) rest (length-value_bytes (Value.date_time t) tt)
validate-value_bytes Value.null off len rest p h k = refl
validate-value_bytes (Value.regex pattern options) off len rest p h k =
    validate_regex-cstring_bytes pattern options rest p.0 p.1
validate-value_bytes (Value.db_pointer ns oid) off len rest p h k =
    validate_pointer off len ns oid rest (omega (arith, h)) k ∙ ap ok (omega arith)
validate-value_bytes (Value.java_script s) off len rest p h k =
    validate_string off len 4 s rest (omega (arith, h)) k
validate-value_bytes (Value.symbol s) off len rest p h k =
    validate_string off len 4 s rest (omega (arith, h)) k
validate-value_bytes (Value.code_with_scope code scope) off len rest p h k = absurd p
validate-value_bytes (Value.int32 i) off len rest p h k =
    validate-at_least 4 (uint32_bytes i) rest (length-value_bytes (Value.int32 i) tt)
validate-value_bytes (Value.timestamp t i) off len rest p h k =
    validate-at_least 8 (timestamp_bytes t i) rest (length-value_bytes (Value.timestamp t i) tt)
validate-value_bytes (Value.int64 i) off len rest p h k =
    validate-at_least 8 (uint64_bytes i) rest (length-value_bytes (Value.int64 i) tt)
validate-value_bytes (Value.decimal128 high low) off len rest p h k =
    validate-at_least 16 (decimal128_bytes high low) rest
      (length-value_bytes (Value.decimal128 high low) tt)
validate-value_bytes Value.min_key off len rest p h k = refl
validate-value_bytes Value.max_key off len rest p h k = refl
