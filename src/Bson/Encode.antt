-- ===== src/Bson/Encode.antt =====
-- The bytes that Document.MarshalBSON writes (bsonx/document.go, bsonx/element.go, bsonx/array.go), by
-- the encoders of bsonx/elements/elements.go. The slice that they write into has the size that Validate
-- counts (bsonx/value.go), and what follows `start` in it is the list. The documents are those of fewer
-- than 2 ^ 31 bytes.
pub mod Size
use ftdc.Prelude.{
  ℕ, zero, suc, ◌+◌, ◌/◌, ◌%◌, ◌^◌, Bool, true, false, not, ◌&&◌, ltb, ◌==◌, if◌then◌else◌, List,
  [], ◌∷◌, ◌++◌, length, Option, none, some,
}
use ftdc.Result.{Error, Result, ok, err, invalid_binary_subtype}
use ftdc.Bson.{Text, Value, Document, end, element, Array, nil, cons, type_byte, type_of}
use ftdc.Metrics.Key.{decimal}

-- encodeUint32 and encodeUint64, which are little-endian.
unfoldable pub uint32_bytes : ℕ → List ℕ
uint32_bytes u = u % 2 ^ 8 ∷ (u / 2 ^ 8) % 2 ^ 8 ∷ (u / 2 ^ 16) % 2 ^ 8 ∷ (u / 2 ^ 24) % 2 ^ 8 ∷ []

unfoldable pub uint64_bytes : ℕ → List ℕ
unfolding uint32_bytes
uint64_bytes u = uint32_bytes (u % 2 ^ 32) ++ uint32_bytes (u / 2 ^ 32)

-- CString.Encode
unfoldable pub cstring_bytes : Text → List ℕ
cstring_bytes s = s ++ (0 ∷ [])

-- String.Encode
unfoldable pub string_bytes : Text → List ℕ
unfolding uint32_bytes cstring_bytes
string_bytes s = uint32_bytes (length s + 1) ++ cstring_bytes s

-- Binary.Encode, of a subtype and bytes.
unfoldable pub binary_bytes : ℕ → Text → List ℕ
unfolding uint32_bytes
binary_bytes btype b =
    if btype == 2
    then uint32_bytes (length b + 4) ++ (2 ∷ uint32_bytes (length b)) ++ b
    else uint32_bytes (length b) ++ (btype ∷ b)

-- Timestamp.Encode, of the seconds and the increment.
unfoldable pub timestamp_bytes : ℕ → ℕ → List ℕ
unfolding uint32_bytes
timestamp_bytes t i = uint32_bytes i ++ uint32_bytes t

-- Decimal128.Encode, of the high and the low half.
unfoldable pub decimal128_bytes : ℕ → ℕ → List ℕ
unfolding uint64_bytes
decimal128_bytes high low = uint64_bytes low ++ uint64_bytes high

abbrev pub boolean_byte : Bool → ℕ
boolean_byte true = 1
boolean_byte false = 0

-- The writeByteSlice of a document or an array: its size, its elements, and a zero.
unfoldable pub framed : ℕ → List ℕ → List ℕ
unfolding uint32_bytes
framed size elements = uint32_bytes size ++ elements ++ (0 ∷ [])

-- The size of a string's value: its length, its bytes and the zero.
abbrev pub string_size : Text → ℕ
string_size s = 4 + (length s + 1)

-- Value.validate and the Validate of an element, a document and an array: the sizes. A key without a
-- zero byte is counted to its end.
unfoldable mutual
  pub size_value : Value → ℕ
  size_value (Value.double f) = 8
  size_value (Value.string s) = string_size s
  size_value (Value.document d) = 5 + size_elements d
  size_value (Value.array a) = 5 + size_items 0 a
  size_value (Value.binary btype b) = if btype == 2 then 9 + length b else 5 + length b
  size_value Value.undefined = 0
  size_value (Value.object_id oid) = 12
  size_value (Value.boolean b) = 1
  size_value (Value.date_time dt) = 8
  size_value Value.null = 0
  size_value (Value.regex pattern options) = (length pattern + 1) + (length options + 1)
  size_value (Value.db_pointer ns oid) = string_size ns + 12
  size_value (Value.java_script code) = string_size code
  size_value (Value.symbol s) = string_size s
  size_value (Value.code_with_scope code scope) = 4 + string_size code + (5 + size_elements scope)
  size_value (Value.int32 i) = 4
  size_value (Value.timestamp t i) = 8
  size_value (Value.int64 i) = 8
  size_value (Value.decimal128 high low) = 16
  size_value Value.min_key = 0
  size_value Value.max_key = 0

  pub size_elements : Document → ℕ
  size_elements end = 0
  size_elements (element key v d) = 1 + (length key + 1) + size_value v + size_elements d

  pub size_items : ℕ → Array → ℕ
  size_items i nil = 0
  size_items i (cons v a) = 1 + (length (decimal i) + 1) + size_value v + size_items (i + 1) a

unfoldable pub size_document : Document → ℕ
unfolding size_elements
size_document d = 5 + size_elements d

-- The error that Validate returns: a subtype that is none. It reaches into documents and arrays.
unfoldable mutual
  pub check_value : Value → Bool
  check_value (Value.document d) = check_document d
  check_value (Value.array a) = check_array a
  check_value (Value.binary btype b) = not (ltb 5 btype && ltb btype 0x80)
  check_value (Value.code_with_scope code scope) = check_document scope
  check_value v = true

  pub check_document : Document → Bool
  check_document end = true
  check_document (element key v d) = check_value v && check_document d

  pub check_array : Array → Bool
  check_array nil = true
  check_array (cons v a) = check_value v && check_array a

unfoldable mutual
  unfolding uint32_bytes uint64_bytes cstring_bytes string_bytes binary_bytes timestamp_bytes
      decimal128_bytes framed size_value

  -- Element.writeByteSlice behind the key.
  pub value_bytes : Value → List ℕ
  value_bytes (Value.double f) = uint64_bytes f
  value_bytes (Value.string s) = string_bytes s
  value_bytes (Value.document d) = framed (5 + size_elements d) (elements_bytes d)
  value_bytes (Value.array a) = framed (5 + size_items 0 a) (items_bytes 0 a)
  value_bytes (Value.binary btype b) = binary_bytes btype b
  value_bytes Value.undefined = []
  value_bytes (Value.object_id oid) = oid
  value_bytes (Value.boolean b) = boolean_byte b ∷ []
  value_bytes (Value.date_time dt) = uint64_bytes dt
  value_bytes Value.null = []
  value_bytes (Value.regex pattern options) = cstring_bytes pattern ++ cstring_bytes options
  value_bytes (Value.db_pointer ns oid) = string_bytes ns ++ oid
  value_bytes (Value.java_script code) = string_bytes code
  value_bytes (Value.symbol s) = string_bytes s
  value_bytes (Value.code_with_scope code scope) =
      uint32_bytes (size_value (Value.code_with_scope code scope))
      ++ string_bytes code
      ++ framed (5 + size_elements scope) (elements_bytes scope)
  value_bytes (Value.int32 i) = uint32_bytes i
  value_bytes (Value.timestamp t i) = timestamp_bytes t i
  value_bytes (Value.int64 i) = uint64_bytes i
  value_bytes (Value.decimal128 high low) = decimal128_bytes high low
  value_bytes Value.min_key = []
  value_bytes Value.max_key = []

  -- The loop of Document.writeByteSlice.
  pub elements_bytes : Document → List ℕ
  elements_bytes end = []
  elements_bytes (element key v d) =
      (type_byte (type_of v) ∷ cstring_bytes key) ++ value_bytes v ++ elements_bytes d

  -- The loop of Array.writeByteSlice, in which the index is the key.
  pub items_bytes : ℕ → Array → List ℕ
  items_bytes i nil = []
  items_bytes i (cons v a) =
      (type_byte (type_of v) ∷ cstring_bytes (decimal i)) ++ value_bytes v ++ items_bytes (i + 1) a

unfoldable pub document_bytes : Document → List ℕ
unfolding framed elements_bytes size_document
document_bytes d = framed (size_document d) (elements_bytes d)

-- Document.MarshalBSON
unfoldable pub marshal_bson : Document → Result (List ℕ)
unfolding document_bytes check_document
marshal_bson d = if check_document d then ok (document_bytes d) else err invalid_binary_subtype
