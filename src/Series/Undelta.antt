-- ===== src/Series/Undelta.antt =====
-- undelta of util.go on the differences of a series.
use ftdc.Prelude.{ℕ, suc, ◌≡◌, refl, ap, List, [], ◌∷◌, length}
use ftdc.Word.{IsWord, All, sub64, add64-sub64}
use ftdc.Series.{undelta}

-- The differences between neighbours, the first from `value`.
unfoldable pub differences : ℕ → List ℕ → List ℕ
differences value [] = []
differences value (v ∷ vs) = sub64 v value ∷ differences v vs

pub length-differences : (value : ℕ) (vs : List ℕ) → length (differences value vs) ≡ length vs
unfolding differences
length-differences value [] = refl
length-differences value (v ∷ vs) = ap suc (length-differences v vs)

-- undelta returns every int64 series from its first value and its wrapping differences.
pub undelta-differences :
    (value : ℕ) (vs : List ℕ)
    → IsWord value
    → All IsWord vs
    → undelta value (differences value vs) ≡ value ∷ vs
unfolding undelta differences
undelta-differences value [] h hs = refl
undelta-differences value (v ∷ vs) h hs =
    rw (add64-sub64 v value hs.0 h)
      (ap (λ (l : List ℕ). value ∷ l) (undelta-differences v vs hs.0 hs.1))
