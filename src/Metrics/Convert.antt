-- ===== src/Metrics/Convert.antt =====
-- The conversions of util.go and of Go's integer types, on bit patterns.
use ftdc.Prelude.{ℕ, ◌+◌, ◌-◌, ◌*◌, ◌/◌, ◌%◌, ◌^◌, ◌≤◌, ◌<◌, ◌≡◌, ◌⊎◌, arith, ltb, if◌then◌else◌}
use ftdc.Word.{word}

-- int64 of an int32: the sign is kept.
unfoldable pub int64_of_int32 : ℕ → ℕ
int64_of_int32 v = if ltb v (2 ^ 31) then v else v + (2 ^ 64 - 2 ^ 32)

-- int32 and uint32 of an int64.
unfoldable pub low32 : ℕ → ℕ
low32 v = v % 2 ^ 32

-- Go's `/` on int64 by a positive constant, which rounds to zero.
unfoldable pub quot64 : ℕ → ℕ → ℕ
quot64 a n = if ltb a (2 ^ 63) then a / n else (word - (word - a) / n) % word

-- util.go, epochMs of the time that Value.Time makes of a datetime in milliseconds. UnixNano wraps.
unfoldable pub epoch_ms : ℕ → ℕ
unfolding quot64
epoch_ms ms = quot64 (ms * 1000000 % word) 1000000

pub low32-int64_of_int32 : (v : ℕ) → v < 2 ^ 32 → low32 (int64_of_int32 v) ≡ v
unfolding low32 int64_of_int32
low32-int64_of_int32 v h = ground arith

-- The datetimes whose nanoseconds fit an int64: the years 1678 to 2262.
abbrev pub IsNanoRange : ℕ → Type 0
IsNanoRange ms = (ms ≤ 9223372036854) ⊎ ((word - 9223372036854 ≤ ms) × (ms < word))

pub epoch_ms_lem : (ms : ℕ) → IsNanoRange ms → epoch_ms ms ≡ ms
unfolding epoch_ms
epoch_ms_lem ms h = ground arith
