-- ===== src/JobRunner/Duration.antt =====
-- client/jobrunner.go: `durationSeconds`. `d.Seconds()` is a float64, the sum of the whole seconds
-- and of the rest over 1e9. Its rounding reaches the next second only for a rest so near to it that
-- the gap is at most half a unit in the last place of the whole seconds, `2 ^ (k - 53)` where
-- `2 ^ k` is their highest bit. Whole seconds of an `int64` of nanoseconds are below `2 ^ 34`.
pub mod Bounds
use managed_services_lib.Common.{
  ℕ, zero, suc, ◌+◌, ◌-◌, ◌*◌, ◌/◌, ◌%◌, ◌^◌, ◌≡◌, refl, Bool, ◌&&◌, ltb, leb, if◌then◌else◌,
}
use managed_services_lib.Common.Int.{ℤ, pos, negsuc, is_nonpos}
use managed_services_lib.JobRunner.Types.{Duration, second}

-- The highest power of two at most `n`, for `0 < n < 2 ^ bits`.
unfoldable pub top_bit : ℕ → ℕ → ℕ
top_bit zero n = 1
top_bit (suc bits) n = if leb (2 ^ bits) n then 2 ^ bits else top_bit bits n

unfoldable pub rounds_up : ℕ → ℕ → Bool
rounds_up secs rest = ltb 0 secs && leb ((second - rest) * 2 ^ 53) (second * top_bit 34 secs)

-- `int64(d.Seconds())`
unfoldable pub whole_seconds : ℕ → ℕ
whole_seconds d = if rounds_up (d / second) (d % second) then d / second + 1 else d / second

abbrev pub nanoseconds : ℤ → ℕ
nanoseconds (pos n) = n
nanoseconds (negsuc n) = 0

unfoldable pub duration_seconds : Duration → Duration → ℕ
duration_seconds d fallback = whole_seconds (nanoseconds (if is_nonpos d then fallback else d))

half_day : duration_seconds (pos (12 * 3600 * second)) (pos 0) ≡ 43200
unfolding duration_seconds whole_seconds rounds_up top_bit
half_day = refl

-- 2 ^ 24 seconds less a nanosecond: the float64 is the whole number of seconds above.
rounded_up : duration_seconds (pos (2 ^ 24 * second + 999999999)) (pos 0) ≡ 2 ^ 24 + 1
unfolding duration_seconds whole_seconds rounds_up top_bit
rounded_up = refl

not_rounded_up : duration_seconds (pos (2 ^ 22 * second + 999999999)) (pos 0) ≡ 2 ^ 22
unfolding duration_seconds whole_seconds rounds_up top_bit
not_rounded_up = refl
