-- ===== src/Bson/Decode/Elements.antt =====
-- readElements (bsonx/reader.go) of the elements that were written.
use ftdc.Prelude.{
  ℕ, zero, suc, ◌+◌, ◌-◌, ◌%◌, ◌^◌, ◌≤◌, ◌<◌, ◌≡◌, refl, sym, ap, ◌∙◌, arith, false, ◌||◌, ltb, leb,
  List, [], ◌∷◌, ◌++◌, length, length-append, drop, some,
}
use mathlib.Core.List.{append_assoc}
use ftdc.Result.{ok, ◌>>=◌}
use ftdc.Bson.{Text, BsonType, Value, Document, end, element, type_of, type_byte}
use ftdc.Bson.Encode.{
  uint32_bytes, cstring_bytes, value_bytes, elements_bytes, framed, size_value, size_elements,
}
use ftdc.Bson.Encode.Size.{length-elements_bytes, length-value_bytes}
use ftdc.Bson.Decode.{RawElement, read_u32, type_of_byte, validate, read_loop, read_elements}
use ftdc.Bson.Decode.Values.{
  read_u32-uint32_bytes, cut_zero-cstring_bytes, drop-append, type_of_byte-type_byte,
}
use ftdc.Bson.Decode.Encodable.{
  NoZero, IsPlainValue, IsPlainDocument, value-HasIds, document-AllIds, validate-value_bytes,
}

-- The elements of a document in a slice that goes on with other bytes.
abbrev pub raw_elements : Document → List ℕ → List RawElement
raw_elements end tail = []
raw_elements (element key v d) tail =
    record { key = key; kind = type_of v; bytes = value_bytes v ++ (elements_bytes d ++ tail) }
    ∷ raw_elements d tail

nonzero_byte : (t : BsonType) → (n : ℕ) × (type_byte t ≡ suc n)
unfolding type_byte
nonzero_byte t = (type_byte t - 1, ground arith)

-- One round.
read_loop-more :
    (fuel limit pos n : ℕ) (data_ : List ℕ) (t : BsonType) (key : Text) (after : List ℕ)
    → drop pos data_ ≡ type_byte t ∷ (cstring_bytes key ++ after)
    → NoZero key
    → pos + 1 + length key + 1 ≤ limit
    → validate t (pos + 1 + length key + 1) (length data_) after ≡ ok n
    → pos + 1 + length key + 1 + n < 2 ^ 32
    → read_loop (suc fuel) data_ limit pos ≡ (
        read_loop fuel data_ limit (pos + 1 + length key + 1 + n)
        >>= (λ rest. ok (record { key = key; kind = t; bytes = after } ∷ rest)))
unfolding read_loop
read_loop-more fuel limit pos n data_ t key after at_pos keyed h size fits =
    let (b, byte) = nonzero_byte t in
    let known : type_of_byte (suc b) ≡ some t = rw byte at (type_of_byte-type_byte t) in
    let before : leb limit pos ≡ false = ground (arith, h) in
    let inside : ltb limit (pos + 1 + length key + 1) ≡ false = ground (arith, h) in
    let same : (pos + 1 + length key + 1 + n) % 2 ^ 32 ≡ pos + 1 + length key + 1 + n =
      omega (arith, fits) in
    let at_pos' : drop pos data_ ≡ suc b ∷ (cstring_bytes key ++ after) = rw byte at at_pos in
    rw (before, at_pos', cut_zero-cstring_bytes key after keyed, inside, known, size, same) refl

reassoc : (xs ys zs ws : List ℕ) → xs ++ ys ++ zs ++ ws ≡ xs ++ (ys ++ (zs ++ ws))
reassoc xs ys zs ws = append_assoc (xs ++ ys) zs ws ∙ append_assoc xs ys (zs ++ ws)

drop-behind :
    (pos : ℕ) (data_ pre xs : List ℕ) → data_ ≡ pre ++ xs → length pre ≡ pos → drop pos data_ ≡ xs
drop-behind pos data_ pre xs e l =
    ap (λ n. drop n data_) (sym l) ∙ ap (drop (length pre)) e ∙ drop-append pre xs

read_loop-end :
    (fuel limit pos : ℕ) (data_ tail : List ℕ)
    → drop pos data_ ≡ 0 ∷ tail
    → pos < limit
    → read_loop (suc fuel) data_ limit pos ≡ ok []
unfolding read_loop
read_loop-end fuel limit pos data_ tail at_pos h =
    let before : leb limit pos ≡ false = ground (arith, h) in rw (before, at_pos) refl

length_behind :
    (data_ pre xs : List ℕ) (tail : List ℕ) (n : ℕ)
    → data_ ≡ pre ++ (xs ++ (0 ∷ tail))
    → length xs ≡ n
    → length pre + n ≤ length data_
length_behind data_ pre xs tail n e l =
    omega (arith, ap length e, length-append pre (xs ++ (0 ∷ tail)), length-append xs (0 ∷ tail), l)

length_element :
    (t : ℕ) (key : Text) (v : Value) (pre : List ℕ)
    → IsPlainValue v
    → length (pre ++ ((t ∷ cstring_bytes key) ++ value_bytes v))
      ≡ length pre + 1 + length key + 1 + size_value v
unfolding cstring_bytes
length_element t key v pre p = omega (
  arith,
  length-append pre ((t ∷ cstring_bytes key) ++ value_bytes v),
  length-append (t ∷ cstring_bytes key) (value_bytes v),
  length-append key (0 ∷ []),
  length-value_bytes v (value-HasIds v p),
)

-- The loop from a position on, behind the bytes `pre`.
pub read_loop-elements_bytes :
    (d : Document) (fuel limit pos : ℕ) (data_ pre tail : List ℕ)
    → IsPlainDocument d
    → data_ ≡ pre ++ (elements_bytes d ++ (0 ∷ tail))
    → length pre ≡ pos
    → pos + size_elements d < limit
    → length data_ < 2 ^ 31
    → size_elements d < fuel
    → read_loop fuel data_ limit pos ≡ ok (raw_elements d (0 ∷ tail))
unfolding IsPlainDocument elements_bytes size_elements
read_loop-elements_bytes d zero limit pos data_ pre tail p e l h k f = absurd (omega (arith, f))
read_loop-elements_bytes end (suc fuel) limit pos data_ pre tail p e l h k f =
    read_loop-end fuel limit pos data_ tail (drop-behind pos data_ pre (0 ∷ tail) e l)
      (omega (arith, h))
read_loop-elements_bytes (element key v d) (suc fuel) limit pos data_ pre tail p e l h k f =
    let t = type_byte (type_of v) in
    let head = t ∷ cstring_bytes key in
    let behind = elements_bytes d ++ (0 ∷ tail) in
    let value = value_bytes v ++ behind in
    let off = pos + 1 + length key + 1 in
    let at_pos : drop pos data_ ≡ t ∷ (cstring_bytes key ++ value) =
      drop-behind pos data_ pre _ e l
      ∙ reassoc head (value_bytes v) (elements_bytes d) (0 ∷ tail) in
    let inside =
      length_behind data_ pre (elements_bytes (element key v d)) tail _ e
        (length-elements_bytes (element key v d) (document-AllIds (element key v d) p)) in
    let room : off + size_value v ≤ length data_ = omega (arith, inside, l) in
    let size = validate-value_bytes v off (length data_) behind p.1 room k in
    let next : data_ ≡ (pre ++ (head ++ value_bytes v)) ++ behind =
      e
      ∙ ap (λ xs. pre ++ xs) (append_assoc (head ++ value_bytes v) (elements_bytes d) (0 ∷ tail))
      ∙ sym (append_assoc pre (head ++ value_bytes v) behind) in
    let pos' : length (pre ++ (head ++ value_bytes v)) ≡ off + size_value v =
      omega (arith, length_element t key v pre p.1, l) in
    let rest =
      read_loop-elements_bytes d fuel limit (off + size_value v) data_
        (pre ++ (head ++ value_bytes v)) tail p.2 next pos' (omega (arith, h)) k
        (omega (arith, f)) in
    read_loop-more fuel limit pos (size_value v) data_ (type_of v) key value at_pos p.0
      (omega (arith, h)) size (omega (arith, room, k))
    ∙ ap (λ r. r >>= (λ rs. ok (record { key = key; kind = type_of v; bytes = value } ∷ rs))) rest

read_elements-valid :
    (data_ behind : List ℕ) (given : ℕ) (rs : List RawElement)
    → read_u32 data_ ≡ ok (given, behind)
    → 5 ≤ length data_
    → given ≤ length data_
    → given < 2 ^ 31
    → read_loop (suc (length data_)) data_ given 4 ≡ ok rs
    → read_elements data_ ≡ ok rs
unfolding read_elements
read_elements-valid data_ behind given rs e five h k loop =
    let enough : ltb (length data_) 5 ≡ false = ground (arith, five) in
    let whole : (ltb (length data_) given || leb (2 ^ 31) given) ≡ false = ground (arith, h, k) in
    rw (enough, e, whole, loop) refl

pub length-uint32_bytes : (u : ℕ) → length (uint32_bytes u) ≡ 4
unfolding uint32_bytes
length-uint32_bytes u = refl

pub framed_parts :
    (size : ℕ) (xs : List ℕ)
    → (framed size xs ≡ uint32_bytes size ++ (xs ++ (0 ∷ [])))
      × (length (framed size xs) ≡ 5 + length xs)
unfolding framed uint32_bytes
framed_parts size xs = (refl, omega (arith, length-append xs (0 ∷ [])))

-- readElements of the bytes of a document.
pub read_elements-framed :
    (d : Document)
    → IsPlainDocument d
    → 5 + size_elements d < 2 ^ 31
    → read_elements (framed (5 + size_elements d) (elements_bytes d)) ≡ ok (raw_elements d (0 ∷ []))
read_elements-framed d p k =
    let size = 5 + size_elements d in
    let data_ = framed size (elements_bytes d) in
    let (parts, len) = framed_parts size (elements_bytes d) in
    let same = length-elements_bytes d (document-AllIds d p) in
    let start : read_u32 data_ ≡ ok (size, elements_bytes d ++ (0 ∷ [])) =
      ap read_u32 parts ∙ read_u32-uint32_bytes size _ (omega (arith, k)) in
    read_elements-valid data_ _ size _ start (omega (arith, len)) (omega (arith, len, same)) k (
      read_loop-elements_bytes d (suc (length data_)) size 4 data_ (uint32_bytes size) [] p parts
        (length-uint32_bytes size) (omega arith) (omega (arith, len, same, k))
        (omega (arith, len, same)))
