-- ===== src/Bson/Lookup.antt =====
-- Document.Lookup and LookupElement (bsonx/x_document.go), the accessors TimeOK and Binary
-- (bsonx/value.go), and isNum (util.go).
use ftdc.Prelude.{
  ℕ, ◌%◌, ◌^◌, [], ◌∷◌, Bool, true, false, Option, none, some, ◌==◌, ◌&&◌, ◌≡◌, refl, arith,
  if◌then◌else◌,
}
use ftdc.Result.{Result, ok, err, panicked}
use ftdc.Bson.{Text, Value, Document, end, element}

-- `==` on strings.
unfoldable pub same_text : Text → Text → Bool
same_text [] [] = true
same_text (a ∷ s) (b ∷ t) = a == b && same_text s t
same_text _ _ = false

pub same_text_refl : (s : Text) → same_text s s ≡ true
unfolding same_text
same_text_refl [] = refl
same_text_refl (a ∷ s) = ground (arith, same_text_refl s)

-- The value of the first element with the key; `none` for nil.
unfoldable pub lookup : Text → Document → Option Value
unfolding same_text
lookup key end = none
lookup key (element k v d) = let rest = lookup key d in if same_text k key then some v else rest

-- `val, _ := doc.Lookup("_id").TimeOK()`, in milliseconds; `none` is the zero time.
unfoldable pub time_ok : Option Value → Option ℕ
time_ok (some (Value.date_time ms)) = some ms
time_ok (some _) = none
time_ok none = none

-- Value.Binary panics on any other type.
unfoldable pub binary_of : Value → Result Text
binary_of (Value.binary _ bytes) = ok bytes
binary_of _ = err panicked

-- isNum. `float_is` compares the bits of a double with a small integer.
unfoldable pub is_num : (ℕ → ℕ → Bool) → ℕ → Option Value → Bool
is_num float_is num none = false
is_num float_is num (some (Value.int32 v)) = v == num % 2 ^ 32
is_num float_is num (some (Value.int64 v)) = v == num % 2 ^ 64
is_num float_is num (some (Value.double v)) = float_is v num
is_num float_is num (some _) = false
