-- ===== src/Varint.antt =====
-- encoding/binary as util.go, collector_better.go and read.go use it: PutUvarint and ReadUvarint on
-- uint64, PutUint32 and Uint32 in little-endian order, over slices of bytes as lists of numbers.
pub mod RoundTrip
use ftdc.Prelude.{
  ℕ, zero, suc, ◌+◌, ◌*◌, ◌/◌, ◌%◌, ◌^◌, List, [], ◌∷◌, ltb, leb, ◌==◌, ◌&&◌, ◌||◌, if◌then◌else◌,
}
use ftdc.Result.{Result, ok, err, eof, uvarint_overflow}
use ftdc.Word.{word, add64}

-- The room left in the buffer, and the number. Go panics where the room is used up; ten bytes hold
-- every uint64.
pub put_uvarint : ℕ → ℕ → List ℕ
put_uvarint zero x = []
put_uvarint (suc room) x =
    let rest = put_uvarint room (x / 128) in if ltb x 128 then x ∷ [] else (x % 128 + 128) ∷ rest

abbrev pub max_varint_len64 : ℕ
max_varint_len64 = 10

-- util.go, encodeValue
unfoldable pub encode_value : ℕ → List ℕ
unfolding put_uvarint
encode_value val = put_uvarint max_varint_len64 val

-- The bytes left, how many were read, the sum so far.
pub read_uvarint_loop : List ℕ → ℕ → ℕ → Result (ℕ × List ℕ)
read_uvarint_loop [] i x = err eof
read_uvarint_loop (b ∷ bs) i x =
    let more = read_uvarint_loop bs (i + 1) (add64 x (b % 128 * 2 ^ (7 * i) % word)) in
    if ltb b 128
    then (if ltb 9 i || (i == 9 && ltb 1 b)
        then err uvarint_overflow
        else ok (add64 x (b * 2 ^ (7 * i) % word), bs))
    else more

unfoldable pub read_uvarint : List ℕ → Result (ℕ × List ℕ)
unfolding read_uvarint_loop
read_uvarint bs = read_uvarint_loop bs 0 0

-- util.go, encodeSizeValue
unfoldable pub encode_size_value : ℕ → List ℕ
encode_size_value val =
    val % 256 ∷ (val / 2 ^ 8) % 256 ∷ (val / 2 ^ 16) % 256 ∷ (val / 2 ^ 24) % 256 ∷ []

-- binary.LittleEndian.Uint32 on the front of a slice.
unfoldable pub read_size : List ℕ → Result (ℕ × List ℕ)
read_size (a ∷ b ∷ c ∷ d ∷ rest) = ok (a + b * 2 ^ 8 + c * 2 ^ 16 + d * 2 ^ 24, rest)
read_size _ = err eof
