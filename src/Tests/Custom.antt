-- ===== src/Tests/Custom.antt =====
-- Custom points at concrete inputs.
use ftdc.Prelude.{ℕ, ◌≡◌, refl, arith, List, [], ◌∷◌, map}
use ftdc.Bson.{Value}
use ftdc.Bson.Encode.{size_document}
use ftdc.Bson.Decode.Encodable.{IsPlainDocument}
use ftdc.Bson.Decode.RoundTrip.{IsEncodable}
use mathlib.Core.List.Permᴰ.{swap}
use ftdc.Result.{ok}
use ftdc.Events.Custom.{
  CustomPoint, Custom, GoValue, sort, custom_document, marshal_bson, unmarshal_bson, set_bson,
}
use ftdc.Events.Custom.Order.{set_bson-Perm}
use ftdc.Events.Custom.RoundTrip.{again, Ordered, unmarshal_bson-marshal_bson}

abbrev below : CustomPoint
below = record { name = b'b' ∷ []; value = GoValue.int 7 }

abbrev above : CustomPoint
above = record { name = b'b' ∷ b'a' ∷ []; value = GoValue.float64 0 }

abbrev points : Custom
points = above ∷ below ∷ []

set_bson-Perm_example :
    set_bson (ok (above ∷ below ∷ [])) (above ∷ [])
    ≡ set_bson (ok (below ∷ above ∷ [])) (above ∷ [])
set_bson-Perm_example =
    set_bson-Perm (above ∷ below ∷ []) (below ∷ above ∷ []) (above ∷ []) (swap refl refl)
      (((λ e. cc), tt), (tt, tt))

-- What EC.Interface makes of other values.
abbrev to_null : Value → Value
to_null v = Value.null

abbrev widen : ℕ → ℕ
widen f = f

points-IsEncodable : IsEncodable (custom_document widen to_null (sort points))
unfolding custom_document sort IsPlainDocument size_document
points-IsEncodable = record {
  plain = ((omega arith, tt), omega arith, ((omega arith, (omega arith, tt)), omega arith, tt));
  short = omega arith;
}

unmarshal_bson-marshal_bson_example :
    (bytes : List ℕ) × ((marshal_bson widen to_null points).0 ≡ ok bytes)
    × (unmarshal_bson bytes [] ≡ ok (map (again widen to_null) (sort points)))
    × Ordered (sort points)
unmarshal_bson-marshal_bson_example =
    unmarshal_bson-marshal_bson widen to_null points [] points-IsEncodable
