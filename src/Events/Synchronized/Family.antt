-- ===== src/Events/Synchronized/Family.antt =====
-- A value for every thread: the change of one, and a sum over the first `n`.
use ftdc.Prelude.{ℕ, zero, suc, ◌+◌, ◌≤◌, ◌<◌, ◌≡◌, ◌≢◌, ◌⊎◌, inl, inr, refl, arith}
use mathlib.Core.Logic.{ite}
use native.Mathlib.Decide.{dec_lt, ℕ_discrete}

abbrev pub update {ℓ} : {A : Type ℓ} → (ℕ → A) → ℕ → A → ℕ → A
update f i a j = ite (ℕ_discrete i j) a (f j)

pub update-cases {ℓ} :
    {A : Type ℓ} (f : ℕ → A) (i : ℕ) (a : A) (j : ℕ)
    → ((i ≡ j) × (update f i a j ≡ a)) ⊎ ((i ≢ j) × (update f i a j ≡ f j))
update-cases f i a j =
    elim (ℕ_discrete i j)
      as (λ d. ((i ≡ j) × (ite d a (f j) ≡ a)) ⊎ ((i ≢ j) × (ite d a (f j) ≡ f j))) [
        | yes same ↦ inl (same, refl)
        | no other ↦ inr (other, refl)
      ]

pub update_self {ℓ} : {A : Type ℓ} (f : ℕ → A) (i : ℕ) (a : A) → update f i a i ≡ a
update_self f i a = elim (update-cases f i a i) [ inl (q, u) ↦ u | inr (ne, u) ↦ absurd (ne refl) ]

module _ {ℓ} {A : Type ℓ} (weight : A → ℕ) where
  unfoldable pub sum : ℕ → (ℕ → A) → ℕ
  sum zero f = 0
  sum (suc n) f = sum n f + weight (f n)

  sum-update_above : (n : ℕ) (f : ℕ → A) (i : ℕ) (a : A) → n ≤ i → sum n (update f i a) ≡ sum n f
  unfolding sum
  sum-update_above zero f i a h = refl
  sum-update_above (suc n) f i a h = ground (arith, sum-update_above n f i a)

  pub sum-update :
      (n : ℕ) (f : ℕ → A) (i : ℕ) (a : A)
      → i < n
      → sum n (update f i a) + weight (f i) ≡ sum n f + weight a
  unfolding sum
  sum-update zero f i a h = absurd (omega arith)
  sum-update (suc n) f i a h = elim (dec_lt i n) [
    | yes below ↦ ground (arith, sum-update n f i a below)
    | no last ↦ ground (arith, sum-update_above n f i a)
  ]

  pub weight-le-sum : (n : ℕ) (f : ℕ → A) (i : ℕ) → i < n → weight (f i) ≤ sum n f
  unfolding sum
  weight-le-sum zero f i h = absurd (omega arith)
  weight-le-sum (suc n) f i h = elim (dec_lt i n) [
    | yes below ↦ ground (arith, weight-le-sum n f i below)
    | no last ↦ ground arith
  ]

pub sum-compose {ℓ κ} :
    {A : Type ℓ} {B : Type κ} (weight : B → ℕ) (n : ℕ) (f : ℕ → A) (g : A → B)
    → sum weight n (λ i. g (f i)) ≡ sum (λ a. weight (g a)) n f
unfolding sum
sum-compose weight zero f g = refl
sum-compose weight (suc n) f g = omega (arith, sum-compose weight n f g)
