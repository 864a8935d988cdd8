-- ===== src/Input.antt =====
-- readDocument of util.go: what a caller may hand to a collector.
use ftdc.Bson.Decode.{unmarshal_bson}
use ftdc.Prelude.{ℕ, List, Option, some}
use ftdc.Result.{Error, Result, ok, err, map_value, ◌>>=◌}
use ftdc.Bson.{Document}
use ftdc.Codec.{Codec}

-- The types that readDocument tells apart. A marshaler, and bson.Marshal on any other value, belong
-- to the caller: the bytes or the error that they return.
pub data Input : Type 0 where
  document : Document → Input
  bytes : List ℕ → Input
  marshaler : Result (List ℕ) → Input
  plain_map : Input
  custom_map : Input
  other : Result (List ℕ) → Input

module _ (codec : Codec) where
  unfoldable pub read_document : Input → Result Document
  read_document (document doc) = ok doc
  read_document (bytes bs) = unmarshal_bson bs
  read_document (marshaler r) = do bs ← r; unmarshal_bson bs
  read_document plain_map = err map_value
  read_document custom_map = err map_value
  read_document (other r) = do bs ← r; unmarshal_bson bs

-- A method's result beside the new state: `none` is a nil error.
abbrev pub Outcome {ℓ} : Type ℓ → Type ℓ
Outcome S = S × Option Error

-- `doc, err := readDocument(in); if err != nil { return errors.WithStack(err) }`
unfoldable pub with_document {ℓ} :
    {S : Type ℓ} → Codec → Input → (Document → S → Outcome S) → S → Outcome S
with_document codec input method s = elim (read_document codec input) [
  | ok doc ↦ method doc s
  | err e ↦ (s, some e)
]
