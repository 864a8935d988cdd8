-- ===== src/Word.antt =====
-- Go's int64 and uint64 as bit patterns: a number below 2 ^ 64, with the wrap-around written out.
-- The conversion between the two types keeps the pattern.
use ftdc.Prelude.{
  ℕ, ◌+◌, ◌-◌, ◌%◌, ◌^◌, ◌<◌, ◌≡◌, arith, List, [], ◌∷◌, ◌++◌, zero, suc, set, replicate,
}

abbrev pub word : ℕ
word = 2 ^ 64

abbrev pub IsWord : ℕ → Type 0
IsWord v = v < word

abbrev pub All {ℓ κ} : {A : Type ℓ} → (A → Type κ) → List A → Type κ
All P [] = Unit
All P (x ∷ xs) = P x × All P xs

pub All-append {ℓ κ} :
    {A : Type ℓ} (P : A → Type κ) (xs ys : List A) → All P xs → All P ys → All P (xs ++ ys)
All-append P [] ys hx hy = hy
All-append P (x ∷ xs) ys hx hy = (hx.0, All-append P xs ys hx.1 hy)

pub All-map {ℓ κ μ} :
    {A : Type ℓ} (P : A → Type κ) (Q : A → Type μ)
    → ((x : A) → P x → Q x)
    → (xs : List A) → All P xs
    → All Q xs
All-map P Q f [] h = tt
All-map P Q f (x ∷ xs) h = (f x h.0, All-map P Q f xs h.1)

pub All-set {ℓ κ} :
    {A : Type ℓ} (P : A → Type κ) (xs : List A) (i : ℕ) (v : A)
    → All P xs
    → P v
    → All P (set xs i v)
All-set P [] i v h p = tt
All-set P (x ∷ xs) zero v h p = (p, h.1)
All-set P (x ∷ xs) (suc i) v h p = (h.0, All-set P xs i v h.1 p)

pub All-replicate {ℓ κ} :
    {A : Type ℓ} (P : A → Type κ) (n : ℕ) (v : A) → P v → All P (replicate n v)
All-replicate P zero v p = tt
All-replicate P (suc n) v p = (p, All-replicate P n v p)

unfoldable pub add64 : ℕ → ℕ → ℕ
add64 a b = (a + b) % word

unfoldable pub sub64 : ℕ → ℕ → ℕ
sub64 a b = (a + word - b) % word

pub add64-IsWord : (a b : ℕ) → IsWord (add64 a b)
unfolding add64
add64-IsWord a b = omega arith

pub sub64-IsWord : (a b : ℕ) → IsWord (sub64 a b)
unfolding sub64
sub64-IsWord a b = omega arith

pub add64-sub64 : (a b : ℕ) → IsWord a → IsWord b → add64 b (sub64 a b) ≡ a
unfolding add64 sub64
add64-sub64 a b ha hb = omega arith
