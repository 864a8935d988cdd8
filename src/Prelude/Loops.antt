-- ===== src/Prelude/Loops.antt =====
-- Counted loops: `for i := 0; i < n; i++`.
use ftdc.Prelude.{ℕ, zero, suc, ◌+◌}

-- The rounds left, the counter's value in the first of them, the body and the state.
unfoldable pub for_range {ℓ} : {State : Type ℓ} → ℕ → ℕ → (ℕ → State → State) → State → State
for_range zero counter round state = state
for_range (suc rounds) counter round state =
    for_range rounds (counter + 1) round (round counter state)
