-- ===== src/Bson/Decode.antt =====
-- How bsonx reads bytes: Reader.readElements (bsonx/reader.go) with Value.validate(true), the accessors
-- of a Value (bsonx/value.go), and Document.ReadFrom and UnmarshalBSON (bsonx/document.go). An element
-- that was read is its key, its type and the bytes behind them; the values in it are looked at
-- through the accessors, `read_value`, where a panic is the error `panicked`. A slice has fewer than
-- 2 ^ 31 bytes. Positions are uint32s and lengths int32s, which wrap around.
pub mod Values
pub mod Encodable
pub mod Elements
pub mod RoundTrip
use ftdc.Prelude.{
  ℕ, zero, suc, ◌+◌, ◌-◌, ◌*◌, ◌%◌, ◌^◌, Bool, true, false, not, ◌&&◌, ◌||◌, ltb, leb, ◌==◌,
  if◌then◌else◌, List, [], ◌∷◌, ◌++◌, length, take, drop, Option, none, some,
}
use ftdc.Result.{
  Error, Result, ok, err, ◌>>=◌, panicked, eof, unexpected_eof, too_small, invalid_length,
  invalid_key, invalid_document, invalid_string, invalid_boolean, invalid_element,
  invalid_binary_subtype, diverged,
}
use ftdc.Bson.{Text, BsonType, Value, Document, end, element, Array, nil, cons}

-- readi32 of the first four bytes, as its bit pattern, and what is behind them.
unfoldable pub read_u32 : List ℕ → Result (ℕ × List ℕ)
read_u32 (a ∷ b ∷ c ∷ d ∷ bs) = ok (a + b * 2 ^ 8 + c * 2 ^ 16 + d * 2 ^ 24, bs)
read_u32 _ = err panicked

unfoldable pub read_u64 : List ℕ → Result (ℕ × List ℕ)
unfolding read_u32
read_u64 bs = do (low, bs) ← read_u32 bs; (high, bs) ← read_u32 bs; ok (low + high * 2 ^ 32, bs)

-- The bytes before the first zero, and those behind it.
unfoldable pub cut_zero : List ℕ → Option (List ℕ × List ℕ)
cut_zero [] = none
cut_zero (zero ∷ bs) = some ([], bs)
cut_zero (suc b ∷ bs) = elim (cut_zero bs) [ none ↦ none | some (s, rest) ↦ some (suc b ∷ s, rest) ]

-- `bs[:n]`, and what is behind it.
unfoldable pub slice : ℕ → List ℕ → Result (List ℕ × List ℕ)
slice n bs = if leb n (length bs) then ok (take n bs, drop n bs) else err panicked

-- bsontype.Type of a byte, if validate knows it.
unfoldable pub type_of_byte : ℕ → Option BsonType
type_of_byte b =
    if b == 0x01
    then some BsonType.double
    else if b == 0x02
    then some BsonType.string
    else if b == 0x03
    then some BsonType.embedded_document
    else if b == 0x04
    then some BsonType.array
    else if b == 0x05
    then some BsonType.binary
    else if b == 0x06
    then some BsonType.undefined
    else if b == 0x07
    then some BsonType.object_id
    else if b == 0x08
    then some BsonType.boolean
    else if b == 0x09
    then some BsonType.date_time
    else if b == 0x0A
    then some BsonType.null
    else if b == 0x0B
    then some BsonType.regex
    else if b == 0x0C
    then some BsonType.db_pointer
    else if b == 0x0D
    then some BsonType.java_script
    else if b == 0x0E
    then some BsonType.symbol
    else if b == 0x0F
    then some BsonType.code_with_scope
    else if b == 0x10
    then some BsonType.int32
    else if b == 0x11
    then some BsonType.timestamp
    else if b == 0x12
    then some BsonType.int64
    else if b == 0x13
    then some BsonType.decimal128
    else if b == 0xFF
    then some BsonType.min_key
    else if b == 0x7F
    then some BsonType.max_key
    else none

-- `int32(v.offset)+k+l > int32(len(v.data))`, where the sum wraps around.
unfoldable pub exceeds : ℕ → ℕ → Bool
exceeds len sum = let wrapped = sum % 2 ^ 32 in ltb wrapped (2 ^ 31) && ltb len wrapped

-- `n` bytes have to follow.
unfoldable pub at_least : ℕ → List ℕ → Result ℕ
at_least n bs = if ltb (length bs) n then err too_small else ok n

-- A length behind which so many bytes have to follow, and the sum of both.
unfoldable pub after_length : ℕ → ℕ → ℕ → ℕ → Result ℕ
unfolding exceeds
after_length off len more l =
    if exceeds len (off + more + l) then err too_small else ok ((more + l) % 2 ^ 32)

unfoldable pub first_u32 : List ℕ → Result ℕ
unfolding read_u32
first_u32 bs = if ltb (length bs) 4 then err too_small else (do (l, _) ← read_u32 bs; ok l)

unfoldable pub validate_document : ℕ → ℕ → ℕ → Result ℕ
unfolding after_length
validate_document off len l =
    if ltb l 5 || leb (2 ^ 31) l then err invalid_document else after_length off len 0 l

unfoldable pub validate_binary : ℕ → ℕ → List ℕ → Result ℕ
unfolding read_u32 after_length
validate_binary off len bs = if ltb (length bs) 5 then err too_small else elim (read_u32 bs) [
  | err e ↦ err e
  | ok (l, []) ↦ err panicked
  | ok (l, subtype ∷ _) ↦
      if ltb 5 subtype && ltb subtype 0x80
      then err invalid_binary_subtype
      else after_length off len 5 l
]

unfoldable pub validate_boolean : List ℕ → Result ℕ
validate_boolean [] = err too_small
validate_boolean (b ∷ _) = if b == 0 || b == 1 then ok 1 else err invalid_boolean

unfoldable pub validate_regex : List ℕ → Result ℕ
unfolding cut_zero
validate_regex bs = elim (cut_zero bs) [
  | none ↦ err invalid_string
  | some (pattern, rest) ↦ elim (cut_zero rest) [
    | none ↦ err invalid_string
    | some (options, _) ↦ ok (length pattern + 1 + (length options + 1))
  ]
]

-- Value.validate(true) of a type, at an offset in a slice of a length, of the bytes from the offset
-- on: the size of the value.
unfoldable pub validate : BsonType → ℕ → ℕ → List ℕ → Result ℕ
unfolding at_least after_length first_u32 validate_document validate_binary validate_boolean
    validate_regex
validate BsonType.double off len bs = at_least 8 bs
validate BsonType.string off len bs = do l ← first_u32 bs; after_length off len 4 l
validate BsonType.embedded_document off len bs = do l ← first_u32 bs; validate_document off len l
validate BsonType.array off len bs = do l ← first_u32 bs; validate_document off len l
validate BsonType.binary off len bs = validate_binary off len bs
validate BsonType.undefined off len bs = ok 0
validate BsonType.object_id off len bs = at_least 12 bs
validate BsonType.boolean off len bs = validate_boolean bs
validate BsonType.date_time off len bs = at_least 8 bs
validate BsonType.null off len bs = ok 0
validate BsonType.regex off len bs = validate_regex bs
validate BsonType.db_pointer off len bs = do l ← first_u32 bs; after_length off len 16 l
validate BsonType.java_script off len bs = do l ← first_u32 bs; after_length off len 4 l
validate BsonType.symbol off len bs = do l ← first_u32 bs; after_length off len 4 l
validate BsonType.code_with_scope off len bs = do l ← first_u32 bs; after_length off len 0 l
validate BsonType.int32 off len bs = at_least 4 bs
validate BsonType.timestamp off len bs = at_least 8 bs
validate BsonType.int64 off len bs = at_least 8 bs
validate BsonType.decimal128 off len bs = at_least 16 bs
validate BsonType.min_key off len bs = ok 0
validate BsonType.max_key off len bs = ok 0

-- An element of a slice: its key, its type, and the slice from the value's offset on.
pub record RawElement : Type 0 where
  pub key : Text
  pub kind : BsonType
  pub bytes : List ℕ

-- The loop of readElements over a slice up to `limit`. It can come back to where it was, since a
-- negative length moves it backwards, and then it never returns.
unfoldable pub read_loop : ℕ → List ℕ → ℕ → ℕ → Result (List RawElement)
unfolding cut_zero type_of_byte validate
read_loop zero data_ limit pos = err diverged
read_loop (suc fuel) data_ limit pos =
    if leb limit pos then err invalid_document else elim (drop pos data_) [
      | [] ↦ err panicked
      | zero ∷ _ ↦ ok []
      | suc t ∷ bs ↦ elim (cut_zero bs) [
        | none ↦ err invalid_key
        | some (key, value) ↦
            let off = pos + 1 + length key + 1 in
            if ltb limit off then err invalid_key else elim (type_of_byte (suc t)) [
              | none ↦ err invalid_element
              | some kind ↦ do
                n ← validate kind off (length data_) value
                rest ← read_loop fuel data_ limit ((off + n) % 2 ^ 32)
                ok (record { key = key; kind = kind; bytes = value } ∷ rest)
            ]
      ]
    ]

-- readElements, with the elements that it hands to the function. More rounds than there are
-- positions come back to one of them.
unfoldable pub read_elements : List ℕ → Result (List RawElement)
unfolding read_u32 read_loop
read_elements data_ = if ltb (length data_) 5 then err too_small else (do
  (given, _) ← read_u32 data_
  if ltb (length data_) given || leb (2 ^ 31) given
      then err invalid_length
      else read_loop (suc (length data_)) data_ given 4)

-- StringValue, JavaScript and Symbol: the string, and what is behind its zero.
unfoldable pub read_string : List ℕ → Result (Text × List ℕ)
unfolding read_u32 slice
read_string bs = do
  (l, bs) ← read_u32 bs
  if l == 0 || leb (2 ^ 31) l
      then err panicked
      else (do (s, rest) ← slice (l - 1) bs; ok (s, drop 1 rest))

unfoldable pub read_binary : List ℕ → Result Value
unfolding read_u32 slice
read_binary bs = elim (read_u32 bs) [
  | err e ↦ err e
  | ok (l, []) ↦ err panicked
  | ok (l, subtype ∷ bs) ↦
      if subtype == 2
      then (do (l, bs) ← read_u32 bs; (b, _) ← slice l bs; ok (Value.binary subtype b))
      else (do (b, _) ← slice l bs; ok (Value.binary subtype b))
]

unfoldable pub read_boolean : List ℕ → Result Value
read_boolean [] = err panicked
read_boolean (b ∷ _) = ok (Value.boolean (b == 1))

unfoldable pub read_regex : List ℕ → Result Value
unfolding cut_zero
read_regex bs = elim (cut_zero bs) [
  | none ↦ err panicked
  | some (pattern, rest) ↦ elim (cut_zero rest) [
    | none ↦ err panicked
    | some (options, _) ↦ ok (Value.regex pattern options)
  ]
]

-- MutableArray: the values of a document that was read.
abbrev pub to_array : Document → Array
to_array end = nil
to_array (element key v d) = cons v (to_array d)

module _ (value : BsonType → List ℕ → Result Value) where
  -- The values of the elements of a document.
  unfoldable pub view : List RawElement → Result Document
  view [] = ok end
  view (r ∷ rs) = do v ← value r.kind r.bytes; d ← view rs; ok (element r.key v d)

  -- MutableDocument.
  unfoldable pub read_nested : List ℕ → Result Document
  unfolding read_u32 slice read_elements view
  read_nested bs = do (l, _) ← read_u32 bs; (b, _) ← slice l bs; rs ← read_elements b; view rs

  -- MutableJavaScriptWithScope.
  unfoldable pub read_code : List ℕ → Result Value
  unfolding read_u32 slice read_elements view
  read_code bs = do
    (l, bs) ← read_u32 bs
    (n, bs) ← read_u32 bs
    if n == 0 || leb (2 ^ 31) n || leb (2 ^ 31) l || ltb l (8 + n) then err panicked else (do
      (code, rest) ← slice (n - 1) bs
      (scope, _) ← slice (l - (8 + n)) (drop 1 rest)
      rs ← read_elements scope
      d ← view rs
      ok (Value.code_with_scope code d))

  -- The accessor of each type.
  unfoldable pub read_one : BsonType → List ℕ → Result Value
  unfolding read_u64 read_u32 read_string read_binary read_boolean read_regex slice read_nested
      read_code
  read_one BsonType.double bs = do (u, _) ← read_u64 bs; ok (Value.double u)
  read_one BsonType.string bs = do (s, _) ← read_string bs; ok (Value.string s)
  read_one BsonType.embedded_document bs = do d ← read_nested bs; ok (Value.document d)
  read_one BsonType.array bs = do d ← read_nested bs; ok (Value.array (to_array d))
  read_one BsonType.binary bs = read_binary bs
  read_one BsonType.undefined bs = ok Value.undefined
  read_one BsonType.object_id bs = do (oid, _) ← slice 12 bs; ok (Value.object_id oid)
  read_one BsonType.boolean bs = read_boolean bs
  read_one BsonType.date_time bs = do (u, _) ← read_u64 bs; ok (Value.date_time u)
  read_one BsonType.null bs = ok Value.null
  read_one BsonType.regex bs = read_regex bs
  read_one BsonType.db_pointer bs = do
    (ns, bs) ← read_string bs
    (oid, _) ← slice 12 bs
    ok (Value.db_pointer ns oid)
  read_one BsonType.java_script bs = do (s, _) ← read_string bs; ok (Value.java_script s)
  read_one BsonType.symbol bs = do (s, _) ← read_string bs; ok (Value.symbol s)
  read_one BsonType.code_with_scope bs = read_code bs
  read_one BsonType.int32 bs = do (u, _) ← read_u32 bs; ok (Value.int32 u)
  read_one BsonType.timestamp bs = do
    (i, bs) ← read_u32 bs
    (t, _) ← read_u32 bs
    ok (Value.timestamp t i)
  read_one BsonType.int64 bs = do (u, _) ← read_u64 bs; ok (Value.int64 u)
  read_one BsonType.decimal128 bs = do
    (low, bs) ← read_u64 bs
    (high, _) ← read_u64 bs
    ok (Value.decimal128 high low)
  read_one BsonType.min_key bs = ok Value.min_key
  read_one BsonType.max_key bs = ok Value.max_key

-- The value of an element, to a depth of nesting. A value is nested less deep than it has bytes.
unfoldable pub read_value : ℕ → BsonType → List ℕ → Result Value
unfolding read_one
read_value zero kind bs = err panicked
read_value (suc depth) kind bs = read_one (read_value depth) kind bs

-- UnmarshalBSON into an empty document, and ReadDocument, with the values of all elements.
unfoldable pub unmarshal_bson : List ℕ → Result Document
unfolding read_elements view read_value
unmarshal_bson bs = do rs ← read_elements bs; view (read_value (length bs)) rs

-- io.ReadFull of `n` bytes.
unfoldable pub read_full : ℕ → List ℕ → Result (List ℕ × List ℕ)
read_full zero bs = ok ([], bs)
read_full (suc n) [] = err eof
read_full (suc n) (b ∷ bs) =
    if leb (suc n) (length (b ∷ bs))
    then ok (take (suc n) (b ∷ bs), drop (suc n) (b ∷ bs))
    else err unexpected_eof

-- ReadFrom into an empty document, with the bytes that it leaves.
unfoldable pub read_from : List ℕ → Result (Document × List ℕ)
unfolding read_full read_u32 unmarshal_bson
read_from bs = do
  (size, behind) ← read_full 4 bs
  (given, _) ← read_u32 size
  if leb (2 ^ 31) given || ltb given 4 then err panicked else (do
    (body, rest) ← read_full (given - 4) behind
    doc ← unmarshal_bson (size ++ body)
    ok (doc, rest))
