-- ===== src/Bson.antt =====
-- BSON documents as the ftdc package sees them through bsonx: keys in order, values by their type
-- (bsonx/bsontype/bsontype.go). A Go string is its bytes, a double its IEEE 754 bits, an int32, an
-- int64 and a datetime (milliseconds) its bit pattern. The documents are those whose bytes are valid
-- in all their parts, nested documents included, so that no iterator over one meets an error.
pub mod Lookup
pub mod Encode
pub mod Decode
use ftdc.Prelude.{ℕ, ◌+◌, List, Bool, ◌==◌, ◌≡◌}

abbrev pub Text : Type 0
Text = List ℕ

pub data BsonType : Type 0 where
  double string embedded_document array binary undefined object_id boolean date_time null regex :
      BsonType
  db_pointer java_script symbol code_with_scope int32 timestamp int64 decimal128 : BsonType
  min_key max_key : BsonType

-- The byte of each type.
unfoldable pub type_byte : BsonType → ℕ
type_byte double = 0x01
type_byte string = 0x02
type_byte embedded_document = 0x03
type_byte array = 0x04
type_byte binary = 0x05
type_byte undefined = 0x06
type_byte object_id = 0x07
type_byte boolean = 0x08
type_byte date_time = 0x09
type_byte null = 0x0A
type_byte regex = 0x0B
type_byte db_pointer = 0x0C
type_byte java_script = 0x0D
type_byte symbol = 0x0E
type_byte code_with_scope = 0x0F
type_byte int32 = 0x10
type_byte timestamp = 0x11
type_byte int64 = 0x12
type_byte decimal128 = 0x13
type_byte min_key = 0xFF
type_byte max_key = 0x7F

-- `==` on Type.
unfoldable pub same_type : BsonType → BsonType → Bool
unfolding type_byte
same_type a b = type_byte a == type_byte b

mutual
  pub data Value : Type 0 where
    double : ℕ → Value
    string : Text → Value
    document : Document → Value
    array : Array → Value
    binary : ℕ → Text → Value
    undefined : Value
    object_id : Text → Value
    boolean : Bool → Value
    date_time : ℕ → Value
    null : Value
    regex : Text → Text → Value
    db_pointer : Text → Text → Value
    java_script : Text → Value
    symbol : Text → Value
    code_with_scope : Text → Document → Value
    int32 : ℕ → Value
    -- the seconds and the increment
    timestamp : ℕ → ℕ → Value
    int64 : ℕ → Value
    decimal128 : ℕ → ℕ → Value
    min_key : Value
    max_key : Value

  pub data Document : Type 0 where
    end : Document
    element : Text → Value → Document → Document

  pub data Array : Type 0 where
    nil : Array
    cons : Value → Array → Array

unfoldable pub type_of : Value → BsonType
type_of (double _) = double
type_of (string _) = string
type_of (document _) = embedded_document
type_of (array _) = array
type_of (binary _ _) = binary
type_of undefined = undefined
type_of (object_id _) = object_id
type_of (boolean _) = boolean
type_of (date_time _) = date_time
type_of null = null
type_of (regex _ _) = regex
type_of (db_pointer _ _) = db_pointer
type_of (java_script _) = java_script
type_of (symbol _) = symbol
type_of (code_with_scope _ _) = code_with_scope
type_of (int32 _) = int32
type_of (timestamp _ _) = timestamp
type_of (int64 _) = int64
type_of (decimal128 _ _) = decimal128
type_of min_key = min_key
type_of max_key = max_key

-- Document.Len
unfoldable pub len : Document → ℕ
len end = 0
len (element k v d) = len d + 1
