-- ===== src/Common/Time.antt =====
-- Go's `time.Time` as an instant, and its RFC 3339 text in UTC.
pub mod Calendar
pub mod RoundTrip
use Prim.Native.String.{◌++◌}
use Prim.Native.Nat.{ℕ, ◌+◌, ◌-◌, ◌*◌, ◌/◌, ◌%◌, ◌^◌, min}
use Prim.Native.String.{String}
use mathlib.Core.Path.{◌≡◌, refl}
use mathlib.Core.Bool.{Bool, not, ◌&&◌, ◌||◌}
use mathlib.Core.List.{List, [], ◌∷◌}
use managed_services_lib.Common.Tests.{ltb, nat_eq, if◌then◌else◌}
use managed_services_lib.Common.Decimal.{decimal, decimal_from, digit}

-- Nanoseconds since Go's zero time, 0001-01-01T00:00:00Z. Earlier instants are left out.
abbrev pub Time : Type 0
Time = ℕ

-- `t.IsZero()`
abbrev pub is_zero : Time → Bool
is_zero t = nat_eq t 0

-- `t.Before(u)`
abbrev pub before : Time → Time → Bool
before t u = ltb t u

-- A day of the proleptic Gregorian calendar.
pub record Date : Type 0 where
  pub year : ℕ
  pub month : ℕ
  pub day : ℕ

pub is_leap : ℕ → Bool
is_leap y = nat_eq (y % 4) 0 && (not (nat_eq (y % 100) 0) || nat_eq (y % 400) 0)

pub month_lengths : ℕ → List ℕ
month_lengths y =
    31 ∷ (if is_leap y then 29 else 28) ∷ 31 ∷ 30 ∷ 31 ∷ 30 ∷ 31 ∷ 31 ∷ 30 ∷ 31 ∷ 30 ∷ 31 ∷ []

-- The month and the day in it of a day of the year, from 0.
pub place : ℕ → ℕ → ℕ → List ℕ → Date
place year month d [] = record { year = year; month = month; day = d + 1 }
place year month d (len ∷ rest) =
    let later = place year (month + 1) (d - len) rest in
    if ltb d len then record { year = year; month = month; day = d + 1 } else later

-- The date that is `days` after 0001-01-01, by cycles of 400, 100, 4 and 1 years.
unfoldable pub date : ℕ → Date
unfolding place month_lengths is_leap
date days =
    let d400 = days % 146097 in
    let n100 = min 3 (d400 / 36524) in
    let d100 = d400 - n100 * 36524 in
    let d4 = d100 % 1461 in
    let n1 = min 3 (d4 / 365) in
    let year = 400 * (days / 146097) + 100 * n100 + 4 * (d100 / 1461) + n1 + 1 in
    place year 1 (d4 - n1 * 365) (month_lengths year)

-- `t.UTC().Format(time.RFC3339)`
unfoldable pub format_rfc3339 : Time → String
unfolding date decimal decimal_from digit
format_rfc3339 t =
    let secs = t / 10 ^ 9 in
    let clock = secs % 86400 in
    let d = date (secs / 86400) in
    decimal 4 d.year
    ++ "-"
    ++ decimal 2 d.month
    ++ "-"
    ++ decimal 2 d.day
    ++ "T"
    ++ decimal 2 (clock / 3600)
    ++ ":"
    ++ decimal 2 (clock / 60 % 60)
    ++ ":"
    ++ decimal 2 (clock % 60)
    ++ "Z"

-- The Unix epoch, a leap day and the last second of a year.
format_examples :
    (format_rfc3339 (62135596800 * 10 ^ 9) ≡ "1970-01-01T00:00:00Z")
    × (format_rfc3339 ((62135596800 + 1709208000) * 10 ^ 9) ≡ "2024-02-29T12:00:00Z")
    × (format_rfc3339 ((62135596800 + 1735689599) * 10 ^ 9 + 7) ≡ "2024-12-31T23:59:59Z")
unfolding format_rfc3339
format_examples = (refl, refl, refl)
