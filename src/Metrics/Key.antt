-- ===== src/Metrics/Key.antt =====
-- How keys are written: `fmt.Sprintf("%d")`, and the paths of a metric.
use ftdc.Prelude.{ℕ, zero, suc, ◌+◌, ◌/◌, ◌%◌, List, [], ◌∷◌, ◌++◌, ltb, if◌then◌else◌}
use ftdc.Bson.{Text}

abbrev pub dot : ℕ
dot = b'.'

-- The digits of a number in base ten. The number itself is fuel enough.
unfoldable pub decimal_loop : ℕ → ℕ → Text
decimal_loop zero n = (n + b'0') ∷ []
decimal_loop (suc fuel) n =
    let front = decimal_loop fuel (n / 10) in
    if ltb n 10 then (n + b'0') ∷ [] else front ++ ((n % 10 + b'0') ∷ [])

unfoldable pub decimal : ℕ → Text
unfolding decimal_loop
decimal n = decimal_loop n n

-- `strings.Join(keys, ".")`
unfoldable pub join : List Text → Text
join [] = []
join (k ∷ []) = k
join (k ∷ (k' ∷ ks)) = k ++ (dot ∷ join (k' ∷ ks))
