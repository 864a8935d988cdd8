-- ===== src/Result.antt =====
-- Go's `(value, error)` results, with a value of `Error` for each message of the package
-- (util.go, read.go, writer.go, collector_*.go), and for the errors of what it calls.
use ftdc.Prelude.{◌≡◌, refl, ◌⊎◌, inl, inr}

pub data Error : Type 0 where
  -- util.go
  map_value : Error
  -- collector_better.go
  overfull schema_count schema_types invalid_type no_reference : Error
  -- collector_uncompressed.go
  schema_change no_data not_configured bad_configuration : Error
  -- collector_streaming.go
  invalid_writer short_write : Error
  -- writer.go, iterator_*.go, bson_matrix.go
  aborted invalid_data_type : Error
  -- read.go
  data_not_populated metrics_mismatch : Error
  -- csv.go
  csv_schema_change field_count : Error
  -- events/custom.go
  unsupported_type : Error
  -- json.go
  bad_source bad_follow : Error
  -- bsonx/bsonerr
  invalid_binary_subtype too_small invalid_length invalid_key invalid_document : Error
  invalid_string invalid_boolean invalid_element : Error
  -- io.EOF and io.ErrUnexpectedEOF, binary's overflow, and an error of compress/zlib
  eof unexpected_eof uvarint_overflow bad_zlib : Error
  -- an error that the io.Writer returns
  write_failed : Error
  -- what Go does on a value of the wrong type, or out of a slice's range
  panicked : Error
  -- what stands for a call that never returns
  diverged : Error

-- A call that failed has an error and no value.
pub data Result {ℓ} (Val : Type ℓ) : Type ℓ where
  err : Error → Result Val
  ok : Val → Result Val

-- What follows a call whose error is returned to the caller.
infixl 5 ◌>>=◌
abbrev pub ◌>>=◌ {ℓ κ} : {V : Type ℓ} {U : Type κ} → Result V → (V → Result U) → Result U
err failure >>= next = err failure
ok v >>= next = next v

-- The two calls of a chain that succeeded.
pub >>=-eq-ok {ℓ κ} :
    {V : Type ℓ} {U : Type κ} (call : Result V) (next : V → Result U) {result : U}
    → (call >>= next) ≡ ok result
    → (v : V) × (call ≡ ok v) × (next v ≡ ok result)
>>=-eq-ok (err failure) next done = cc
>>=-eq-ok (ok v) next done = (v, refl, done)

pub ok_injective {ℓ} : {A : Type ℓ} {x y : A} → ok x ≡ ok y → x ≡ y
ok_injective e = cc

pub Result-cases {ℓ} :
    {A : Type ℓ} (r : Result A) → ((x : A) × (r ≡ ok x)) ⊎ ((e : Error) × (r ≡ err e))
Result-cases (ok x) = inl (x, refl)
Result-cases (err e) = inr (e, refl)
