-- ===== src/Controller/Backoff.antt =====
-- internal/controller/reconciler.go, `backoffDuration`. A duration is an `int64` of nanoseconds,
-- here its bit pattern below 2 ^ 64, and doubling it wraps.
pub mod Overflow
use gpuscale.Prelude.{ℕ, zero, suc, ◌+◌, ◌-◌, ◌*◌, ◌%◌, ◌^◌, Bool, ltb, ◌&&◌, if◌then◌else◌}

abbrev pub wrap : ℕ → ℕ
wrap n = n % 18446744073709551616

-- The pattern stands for a number that is not negative.
abbrev pub is_non_negative : ℕ → Bool
is_non_negative d = ltb d 9223372036854775808

-- `a > b` on `int64`, for `b` not negative.
abbrev pub exceeds : ℕ → ℕ → Bool
exceeds a b = is_non_negative a && ltb b a

abbrev pub base : ℕ
base = 30000000000

abbrev pub max_backoff : ℕ
max_backoff = 300000000000

-- `for i := 1; i < retryCount; i++ { d *= 2 }`, by the rounds left.
unfoldable pub doubled : ℕ → ℕ → ℕ
doubled zero d = d
doubled (suc rounds) d = doubled rounds (wrap (d * 2))

unfoldable pub backoff_duration : ℕ → ℕ
unfolding doubled
backoff_duration retry_count =
    let d = doubled (retry_count - 1) base in if exceeds d max_backoff then max_backoff else d
