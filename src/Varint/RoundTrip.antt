-- ===== src/Varint/RoundTrip.antt =====
-- encodeValue and encodeSizeValue of util.go, and the readers of read.go, on one another.
use ftdc.Prelude.{
  ℕ, zero, suc, ◌+◌, ◌*◌, ◌/◌, ◌%◌, ◌^◌, ◌≤◌, ◌<◌, ◌≡◌, ap, refl, false, ltb, List, ◌∷◌, ◌++◌,
  arith,
}
use native.Mathlib.Nat.{div-add-mod}
use native.Mathlib.Numerals.{towards_suc}
use ftdc.Result.{ok}
use ftdc.Word.{word, IsWord, add64}
use ftdc.Varint.{
  put_uvarint, encode_value, read_uvarint_loop, read_uvarint, encode_size_value, read_size,
}

-- The place of the next byte.
shift_seven : (s : ℕ) → 2 ^ (s + 7) ≡ 128 * 2 ^ s
shift_seven s = simp towards_suc (omega arith)

next_place : (i : ℕ) → 2 ^ (7 * (i + 1)) ≡ 128 * 2 ^ (7 * i)
next_place i = let e : 7 * (i + 1) ≡ 7 * i + 7 = omega arith in rw e (shift_seven (7 * i))

-- The lowest seven bits of `x` and the rest, both at place `i`.
split_place : (x i : ℕ) → x * 2 ^ (7 * i) ≡ x % 128 * 2 ^ (7 * i) + x / 128 * 2 ^ (7 * (i + 1))
split_place x i = omega (
  arith,
  ap (λ (t : ℕ). t * 2 ^ (7 * i)) (div-add-mod x 128),
  ap (λ (t : ℕ). x / 128 * t) (next_place i),
)

last_byte :
    (x i acc : ℕ) (rest : List ℕ)
    → x < 128
    → i ≤ 9
    → (i ≡ 9 → x ≤ 1)
    → acc + x * 2 ^ (7 * i) < word
    → read_uvarint_loop (x ∷ rest) i acc ≡ ok (acc + x * 2 ^ (7 * i), rest)
unfolding read_uvarint_loop add64
last_byte x i acc rest hx hi top fits = ground arith

inner_byte :
    (g i acc : ℕ) (rest : List ℕ)
    → g < 128
    → acc + g * 2 ^ (7 * i) < word
    → read_uvarint_loop ((g + 128) ∷ rest) i acc
      ≡ read_uvarint_loop rest (i + 1) (acc + g * 2 ^ (7 * i))
unfolding read_uvarint_loop add64
inner_byte g i acc rest hg fits =
    let more : ltb (g + 128) 128 ≡ false = ground arith in
    let low : (g + 128) % 128 ≡ g = omega (arith, hg) in
    let sum : (acc + g * 2 ^ (7 * i) % word) % word ≡ acc + g * 2 ^ (7 * i) = omega (arith, fits) in
    rw (more, low, sum) refl

-- In the tenth byte only the lowest bit is left.
top_bit : (x i acc : ℕ) → acc + x * 2 ^ (7 * i) < word → i ≡ 9 → x ≤ 1
top_bit x i acc fits e = let fits' : acc + x * 2 ^ (7 * 9) < word = rw e at fits in omega arith

read_uvarint_loop-put_uvarint :
    (room x i acc : ℕ) (rest : List ℕ)
    → x < 128 ^ suc room
    → i + room ≡ 9
    → acc + x * 2 ^ (7 * i) < word
    → read_uvarint_loop (put_uvarint (suc room) x ++ rest) i acc ≡ ok (acc + x * 2 ^ (7 * i), rest)
unfolding put_uvarint
read_uvarint_loop-put_uvarint zero x i acc rest hx hi fits =
    ground (arith, last_byte x i acc rest, top_bit x i acc)
read_uvarint_loop-put_uvarint (suc room) x i acc rest hx hi fits = ground (
  arith,
  last_byte x i acc rest,
  split_place x i,
  inner_byte (x % 128) i acc (put_uvarint (suc room) (x / 128) ++ rest),
  read_uvarint_loop-put_uvarint room (x / 128) (i + 1) (acc + x % 128 * 2 ^ (7 * i)) rest
      (omega arith),
)

-- ReadUvarint returns the uint64 that encodeValue wrote, and leaves what follows it.
pub read_uvarint-encode_value :
    (val : ℕ) (rest : List ℕ)
    → IsWord val
    → read_uvarint (encode_value val ++ rest) ≡ ok (val, rest)
unfolding read_uvarint encode_value
read_uvarint-encode_value val rest h = ground (arith, read_uvarint_loop-put_uvarint 9 val 0 0 rest)

-- Uint32 returns the uint32 that encodeSizeValue wrote, and leaves what follows it.
pub read_size-encode_size_value :
    (val : ℕ) (rest : List ℕ)
    → val < 2 ^ 32
    → read_size (encode_size_value val ++ rest) ≡ ok (val, rest)
unfolding read_size encode_size_value
read_size-encode_size_value val rest h = ap (λ (n : ℕ). ok (n, rest)) (omega arith)
