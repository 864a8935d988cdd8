-- ===== src/Csv/Number.antt =====
-- strconv.FormatInt in base ten and strconv.Atoi, as csv.go calls them, on an int64.
use ftdc.Prelude.{
  ℕ, zero, suc, ◌+◌, ◌-◌, ◌*◌, ◌/◌, ◌%◌, ◌^◌, ◌<◌, ◌≡◌, refl, ap, arith, Bool, true, false, ◌&&◌,
  [], ◌∷◌, ◌++◌, Option, none, some, ltb, leb, ◌==◌, if◌then◌else◌, Bool-cases, inl, inr,
}
use ftdc.Word.{word, IsWord}
use ftdc.Bson.{Text}

abbrev minus : ℕ
minus = b'-'

abbrev plus : ℕ
plus = b'+'

abbrev first_digit : ℕ
first_digit = b'0'

abbrev bind {ℓ κ} : {A : Type ℓ} {B : Type κ} → Option A → (A → Option B) → Option B
bind none f = none
bind (some a) f = f a

-- The digits of a number, for the most digits there are.
unfoldable format_digits : ℕ → ℕ → Text
format_digits zero n = []
format_digits (suc fuel) n =
    let front = format_digits fuel (n / 10) in
    (if ltb n 10 then [] else front) ++ ((n % 10 + first_digit) ∷ [])

-- FormatInt(v, 10). Twenty digits hold every uint64.
unfoldable pub format_int : ℕ → Text
unfolding format_digits
format_int v = if ltb v (2 ^ 63) then format_digits 20 v else minus ∷ format_digits 20 (word - v)

abbrev is_digit : ℕ → Bool
is_digit d = leb first_digit d && ltb d (first_digit + 10)

-- The number that the digits go on with.
unfoldable parse_digits : ℕ → Text → Option ℕ
parse_digits n [] = some n
parse_digits n (d ∷ ds) =
    let more = parse_digits (n * 10 + (d - first_digit)) ds in if is_digit d then more else none

-- A number without a sign, of at least one digit.
unfoldable parse_unsigned : Text → Option ℕ
unfolding parse_digits
parse_unsigned [] = none
parse_unsigned (d ∷ ds) = parse_digits 0 (d ∷ ds)

-- The range of an int64: the bit pattern of `n`, or of `- n`.
unfoldable signed : Bool → ℕ → Option ℕ
signed false n = if ltb n (2 ^ 63) then some n else none
signed true n = if leb n (2 ^ 63) then some ((word - n) % word) else none

-- Atoi; `none` stands for an error.
unfoldable pub atoi : Text → Option ℕ
unfolding parse_unsigned signed
atoi [] = none
atoi (c ∷ cs) =
    if c == minus
    then bind (parse_unsigned cs) (signed true)
    else if c == plus
    then bind (parse_unsigned cs) (signed false)
    else bind (parse_unsigned (c ∷ cs)) (signed false)

parse_digits-append :
    (n : ℕ) (xs ys : Text)
    → parse_digits n (xs ++ ys) ≡ bind (parse_digits n xs) (λ m. parse_digits m ys)
unfolding parse_digits
parse_digits-append n [] ys = refl
parse_digits-append n (x ∷ xs) ys = elim (Bool-cases (is_digit x)) [
  | inl e ↦ rw (e) (parse_digits-append (n * 10 + (x - first_digit)) xs ys)
  | inr e ↦ rw (e) refl
]

-- The last digit behind those before it.
parse_digits-last : (n : ℕ) → parse_digits (n / 10) ((n % 10 + first_digit) ∷ []) ≡ some n
unfolding parse_digits
parse_digits-last n = ground arith

abbrev ten_to : ℕ → ℕ
ten_to zero = 1
ten_to (suc k) = 10 * ten_to k

parse_digits-format :
    (fuel n : ℕ) → n < ten_to (suc fuel) → parse_digits 0 (format_digits (suc fuel) n) ≡ some n
unfolding format_digits
parse_digits-format zero n h =
    let e : ltb n 10 ≡ true = ground (arith, h) in
    let q : n / 10 ≡ 0 = omega (arith, h) in rw (e) (rw (q) at (parse_digits-last n))
parse_digits-format (suc fuel) n h = elim (Bool-cases (ltb n 10)) [
  | inl e ↦ (let q : n / 10 ≡ 0 = ground (arith, e) in rw (e) (rw (q) at (parse_digits-last n)))
  | inr e ↦
      (let ih = parse_digits-format fuel (n / 10) (omega (arith, h)) in
        let split =
          parse_digits-append 0 (format_digits (suc fuel) (n / 10)) ((n % 10 + first_digit) ∷ []) in
        rw (e, split, ih) (parse_digits-last n))
]

-- The first of the digits is one.
format_digits-first :
    (fuel n : ℕ)
    → (d : ℕ) × (ds : Text) × (format_digits (suc fuel) n ≡ d ∷ ds) × (is_digit d ≡ true)
unfolding format_digits
format_digits-first zero n = (n % 10 + first_digit, [], ground arith, ground arith)
format_digits-first (suc fuel) n = elim (Bool-cases (ltb n 10)) [
  | inl e ↦ (n % 10 + first_digit, [], rw (e) refl, ground arith)
  | inr e ↦
      (let (d, ds, eq, digit) = format_digits-first fuel (n / 10) in
        (d, ds ++ ((n % 10 + first_digit) ∷ []), rw (e, eq) refl, digit))
]

-- Atoi of digits without a sign.
atoi-unsigned : (n : ℕ) → n < ten_to 20 → atoi (format_digits 20 n) ≡ signed false n
unfolding atoi parse_unsigned
atoi-unsigned n h =
    let (d, ds, eq, digit) = format_digits-first 19 n in
    let parsed : parse_digits 0 (d ∷ ds) ≡ some n = rw (eq) at (parse_digits-format 19 n h) in
    let not_minus : (d == minus) ≡ false = ground (arith, digit) in
    let not_plus : (d == plus) ≡ false = ground (arith, digit) in
    rw (eq, not_minus, not_plus, parsed) refl

pub atoi-format_int : (v : ℕ) → IsWord v → atoi (format_int v) ≡ some v
unfolding atoi format_int parse_unsigned signed
atoi-format_int v h = elim (Bool-cases (ltb v (2 ^ 63))) [
  | inl e ↦ rw (e, atoi-unsigned v (ground (arith, e))) (rw (e) refl)
  | inr e ↦
      (let (d, ds, eq, digit) = format_digits-first 19 (word - v) in
        let parsed : parse_digits 0 (d ∷ ds) ≡ some (word - v) =
          rw (eq) at (parse_digits-format 19 (word - v) (ground (arith, e))) in
        let fits : leb (word - v) (2 ^ 63) ≡ true = ground (arith, e) in
        rw (e, eq, parsed, fits) (ap some (omega (arith, h))))
]
