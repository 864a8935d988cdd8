-- ===== src/Events/Custom.antt =====
-- events/custom.go: a list of named numbers that becomes a document. EC.Interface is of
-- bsonx/constructor.go, Value.Interface of bsonx/value.go.
pub mod Order
pub mod RoundTrip
use ftdc.Bson.Decode
use ftdc.Prelude.{
  ℕ, ◌-◌, ◌%◌, ◌^◌, Bool, true, false, ◌&&◌, ◌||◌, ltb, leb, ◌==◌, if◌then◌else◌, List, [], ◌∷◌,
  ◌++◌, map, Option, none, some,
}
use ftdc.Result.{Result, ok, err, ◌>>=◌, unsupported_type}
use ftdc.Bson.{Text, Value, Document, end, element, Array, nil, cons}
use ftdc.Bson.Encode
use ftdc.Codec.{Codec}
use ftdc.Input.{Outcome}

-- What an `interface{}` holds here: the types that Add names; what Value.Interface makes of a value
-- that is not a number; and any other, with the value that EC.Interface makes of it. An int64 and an
-- int are bit patterns of 64 bits, an int32 is one of 32; a time is in milliseconds.
pub data GoValue : Type 0 where
  int64 int32 int uint32 uint64 float64 float32 time : ℕ → GoValue
  boolean : Bool → GoValue
  int64s int32s ints uint32s uint64s float64s float32s times : List ℕ → GoValue
  booleans : List Bool → GoValue
  exported other : Value → GoValue

pub record CustomPoint : Type 0 where
  pub name : Text
  pub value : GoValue

abbrev pub Custom : Type 0
Custom = List CustomPoint

-- The types in the two cases of Add.
unfoldable pub is_accepted : GoValue → Bool
is_accepted (other v) = false
is_accepted (exported v) = false
is_accepted v = true

unfoldable pub add : Text → GoValue → Custom → Outcome Custom
unfolding is_accepted
add key value ps =
    if is_accepted value
    then (ps ++ (record { name = key; value = value } ∷ []), none)
    else (ps, some unsupported_type)

-- Less: `<` on the bytes of two names.
unfoldable pub text_less : Text → Text → Bool
text_less [] [] = false
text_less [] (y ∷ ys) = true
text_less (x ∷ xs) [] = false
text_less (x ∷ xs) (y ∷ ys) = ltb x y || ((x == y) && text_less xs ys)

unfoldable pub less : CustomPoint → CustomPoint → Bool
unfolding text_less
less p q = text_less p.name q.name

-- sort.Stable: a point stays before those that are not less.
unfoldable pub insert : CustomPoint → Custom → Custom
unfolding less
insert p [] = p ∷ []
insert p (q ∷ qs) = let rest = insert p qs in if less q p then q ∷ rest else p ∷ q ∷ qs

unfoldable pub sort : Custom → Custom
unfolding insert
sort [] = []
sort (p ∷ ps) = insert p (sort ps)

abbrev max_int32 : ℕ
max_int32 = 2 ^ 31 - 1

-- EC.Int: a negative int is less than MaxInt32, and is cut to 32 bits.
unfoldable pub int_value : ℕ → Value
int_value i = if leb (2 ^ 63) i || ltb i max_int32 then Value.int32 (i % 2 ^ 32) else Value.int64 i

-- The case of EC.Interface for an unsigned integer.
unfoldable pub unsigned_value : ℕ → Value
unsigned_value t =
    if ltb t max_int32 then Value.int32 t else if leb (2 ^ 63) t then Value.null else Value.int64 t

-- NewArray
unfoldable pub new_array : List Value → Array
new_array [] = nil
new_array (v ∷ vs) = cons v (new_array vs)

-- The conversion of a float32 to a float64, on their bits, and what EC.Interface makes of an exported
-- value.
module _ (widen : ℕ → ℕ) (of_exported : Value → Value) where
  -- EC.Interface. Slices of bool, uint32 and uint64 have no case there.
  unfoldable pub interface_value : GoValue → Value
  unfolding int_value unsigned_value new_array
  interface_value (boolean b) = Value.boolean b
  interface_value (int32 i) = Value.int32 i
  interface_value (int64 i) = Value.int64 i
  interface_value (int i) = int_value i
  interface_value (uint32 t) = unsigned_value t
  interface_value (uint64 t) = unsigned_value t
  interface_value (float32 f) = Value.double (widen f)
  interface_value (float64 f) = Value.double f
  interface_value (time t) = Value.date_time t
  interface_value (int64s is) = Value.array (new_array (map Value.int64 is))
  interface_value (int32s is) = Value.array (new_array (map Value.int32 is))
  interface_value (float64s fs) = Value.array (new_array (map Value.double fs))
  interface_value (float32s fs) = Value.array (new_array (map (λ f. Value.double (widen f)) fs))
  interface_value (ints is) = Value.array (new_array (map int_value is))
  interface_value (times ts) = Value.array (new_array (map Value.date_time ts))
  interface_value (booleans bs) = Value.null
  interface_value (uint32s ts) = Value.null
  interface_value (uint64s ts) = Value.null
  interface_value (exported v) = of_exported v
  interface_value (other v) = v

  -- The loop of MarshalBSON.
  unfoldable pub custom_document : Custom → Document
  unfolding interface_value
  custom_document [] = end
  custom_document (p ∷ ps) = element p.name (interface_value p.value) (custom_document ps)

  -- MarshalBSON: the bytes, or an error, and the points that it has sorted in place.
  unfoldable pub marshal_bson : Custom → Result (List ℕ) × Custom
  unfolding sort custom_document Encode.marshal_bson
  marshal_bson ps = let sorted = sort ps in (Encode.marshal_bson (custom_document sorted), sorted)

-- GetBSON: the pairs of the document, and the points that it has sorted in place.
unfoldable pub get_bson : Custom → Custom × Custom
unfolding sort
get_bson ps = let sorted = sort ps in (sorted, sorted)

-- Value.Interface. A datetime becomes its int64.
unfoldable pub value_interface : Value → GoValue
value_interface (Value.double f) = float64 f
value_interface (Value.boolean b) = boolean b
value_interface (Value.date_time t) = int64 t
value_interface (Value.int32 i) = int32 i
value_interface (Value.int64 i) = int64 i
value_interface v = exported v

-- The loop of UnmarshalBSON.
unfoldable pub append_elements : Document → Custom → Custom
unfolding value_interface
append_elements end ps = ps
append_elements (element k v doc) ps =
    append_elements doc (ps ++ (record { name = k; value = value_interface v } ∷ []))

unfoldable pub unmarshal_bson : List ℕ → Custom → Result Custom
unfolding append_elements
unmarshal_bson bytes ps = do doc ← Decode.unmarshal_bson bytes; ok (append_elements doc ps)

-- SetBSON, of the pairs of the map in the order in which Go goes over them.
unfoldable pub set_bson : Result Custom → Custom → Result Custom
unfolding sort
set_bson pairs ps = do entries ← pairs; ok (sort (ps ++ entries))
