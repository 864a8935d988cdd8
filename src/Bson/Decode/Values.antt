-- ===== src/Bson/Decode/Values.antt =====
-- Values that MarshalBSON has written, read back (bsonx/value.go).
use ftdc.Prelude.{
  ℕ, zero, suc, ◌+◌, ◌*◌, ◌%◌, ◌/◌, ◌^◌, ◌≤◌, ◌<◌, ◌≡◌, refl, ap, arith, true, leb, List, [], ◌∷◌,
  ◌++◌, length, length-append, take, drop, some,
}
use ftdc.Result.{ok}
use ftdc.Word.{All}
use ftdc.Bson.{Text, BsonType, type_byte}
use ftdc.Bson.Encode.{uint32_bytes, uint64_bytes, cstring_bytes}
use ftdc.Bson.Decode.{read_u32, read_u64, cut_zero, slice, type_of_byte, exceeds, after_length}

pub read_u32-uint32_bytes :
    (u : ℕ) (rest : List ℕ) → u < 2 ^ 32 → read_u32 (uint32_bytes u ++ rest) ≡ ok (u, rest)
unfolding read_u32 uint32_bytes
read_u32-uint32_bytes u rest h = ap (λ n. ok (n, rest)) (omega (arith, h))

four_bytes :
    (u : ℕ)
    → u < 2 ^ 32
    → u % 2 ^ 8
        + (u / 2 ^ 8) % 2 ^ 8 * 2 ^ 8
        + (u / 2 ^ 16) % 2 ^ 8 * 2 ^ 16
        + (u / 2 ^ 24) % 2 ^ 8 * 2 ^ 24
      ≡ u
four_bytes u h = omega (arith, h)

pub read_u64-uint64_bytes :
    (u : ℕ) (rest : List ℕ) → u < 2 ^ 64 → read_u64 (uint64_bytes u ++ rest) ≡ ok (u, rest)
unfolding read_u64 uint64_bytes
read_u64-uint64_bytes u rest h =
    ap (λ n. ok (n, rest))
      (omega (
        arith,
        h,
        four_bytes (u % 2 ^ 32) (omega arith),
        four_bytes (u / 2 ^ 32) (omega (arith, h)),
      ))

pub cut_zero-cstring_bytes :
    (s : Text) (rest : List ℕ)
    → All (λ b. 1 ≤ b) s
    → cut_zero (cstring_bytes s ++ rest) ≡ some (s, rest)
unfolding cut_zero cstring_bytes
cut_zero-cstring_bytes [] rest h = refl
cut_zero-cstring_bytes (zero ∷ s) rest h = absurd (omega (arith, h.0))
cut_zero-cstring_bytes (suc b ∷ s) rest h = rw (cut_zero-cstring_bytes s rest h.1) refl

pub take-append : (xs ys : List ℕ) → take (length xs) (xs ++ ys) ≡ xs
take-append [] ys = refl
take-append (x ∷ xs) ys = ap (λ zs. x ∷ zs) (take-append xs ys)

pub drop-append : (xs ys : List ℕ) → drop (length xs) (xs ++ ys) ≡ ys
drop-append [] ys = refl
drop-append (x ∷ xs) ys = drop-append xs ys

pub slice-append : (n : ℕ) (xs ys : List ℕ) → n ≡ length xs → slice n (xs ++ ys) ≡ ok (xs, ys)
unfolding slice
slice-append n xs ys e =
    let fits : leb (length xs) (length (xs ++ ys)) ≡ true = ground (arith, length-append xs ys) in
    rw (e, fits, take-append xs ys, drop-append xs ys) refl

pub type_of_byte-type_byte : (t : BsonType) → type_of_byte (type_byte t) ≡ some t
unfolding type_of_byte type_byte
type_of_byte-type_byte t = ground arith

pub after_length-fits :
    (off len more l : ℕ)
    → off + more + l ≤ len
    → len < 2 ^ 31
    → after_length off len more l ≡ ok (more + l)
unfolding after_length exceeds
after_length-fits off len more l h k = ground arith
