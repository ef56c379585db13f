-- ===== src/Common/Time/Calendar.antt =====
-- The Gregorian calendar: `date` counts years and months right.
use Prim.Native.Nat.{ℕ, zero, suc, ◌+◌, ◌-◌, ◌*◌, ◌/◌, ◌%◌, ◌≤◌, ◌<◌, min}
use mathlib.Core.Path.{◌≡◌, refl}
use mathlib.Core.Bool.{false}
use mathlib.Core.Logic.{◌⊎◌, inl, inr}
use mathlib.Core.List.{List, [], ◌∷◌}
use native.Mathlib.Omega.{arith}
use managed_services_lib.Common.Lists.{All, length}
use managed_services_lib.Common.Tests.{ltb, Bool-cases}
use managed_services_lib.Common.Time.{Date, is_leap, month_lengths, place, date}

-- The days of the first `k` months.
abbrev pub days_of : ℕ → List ℕ → ℕ
days_of zero lens = 0
days_of (suc k) [] = 0
days_of (suc k) (len ∷ lens) = len + days_of k lens

-- The days before a year, from the year 1.
abbrev pub days_before_year : ℕ → ℕ
days_before_year y = let p = y - 1 in p * 365 + p / 4 - p / 100 + p / 400

-- The day number of a date, from 0 for the first day of the year 1.
abbrev pub ordinal : Date → ℕ
ordinal d = days_before_year d.year + days_of (d.month - 1) (month_lengths d.year) + (d.day - 1)

-- A date of the year, at the day of the year that the months from `month` on are searched for.
record IsPlace (year month d : ℕ) (lens : List ℕ) (r : Date) : Type 0 where
  pub in_year : r.year ≡ year
  pub in_months :
      (k : ℕ) × (r.month ≡ month + k) × (k < length lens) × (days_of k lens + r.day ≡ d + 1)
  pub in_month : (1 ≤ r.day) × (r.day ≤ 31)

IsPlace-later :
    (year month d len : ℕ) (lens : List ℕ) (r : Date)
    → ltb d len ≡ false
    → IsPlace year (month + 1) (d - len) lens r
    → IsPlace year month d (len ∷ lens) r
IsPlace-later year month d len lens r later p =
    let (k, at, few, sum) = p.in_months in
    record {
      in_year = p.in_year;
      in_months = (suc k, omega (arith, at), omega (arith, few), ground (arith, later, sum));
      in_month = p.in_month;
    }

place-IsPlace :
    (year month d : ℕ) (lens : List ℕ)
    → All (λ len. len ≤ 31) lens
    → d < days_of (length lens) lens
    → IsPlace year month d lens (place year month d lens)
unfolding place
place-IsPlace year month d [] short h = elim h [ ]
place-IsPlace year month d (len ∷ lens) (short, shorter) h = elim (Bool-cases (ltb d len)) [
  | inl here ↦ rw here (record {
    in_year = refl;
    in_months = (0, omega arith, omega arith, omega arith);
    in_month = (omega arith, ground (arith, here));
  })
  | inr later ↦ rw later (
      IsPlace-later year month d len lens _ later
        (place-IsPlace year (month + 1) (d - len) lens shorter (ground (arith, later))))
]

-- The date of a day, for the parts of its number: `q` cycles of 400 years, `c` centuries in the cycle,
-- `f` cycles of four years in the century, `y` years in those and `r` days in the year.
record IsSplit (q c f y r : ℕ) : Type 0 where
  pub centuries : c ≤ 3
  pub fours : f ≤ 24
  pub years : y ≤ 3
  pub days : r < 366
  pub leap : (r < 365) ⊎ ((y ≡ 3) × ((f < 24) ⊎ (c ≡ 3)))

abbrev year_of : ℕ → ℕ → ℕ → ℕ → ℕ
year_of q c f y = 400 * q + 100 * c + 4 * f + y + 1

days_before_split :
    (q c f y r : ℕ)
    → IsSplit q c f y r
    → days_before_year (year_of q c f y) ≡ 146097 * q + 36524 * c + 1461 * f + 365 * y
days_before_split q c f y r s =
    let p : ℕ = 400 * q + 100 * c + 4 * f + y in
    let fourth : p / 4 ≡ 100 * q + 25 * c + f = omega arith in
    let hundredth : p / 100 ≡ 4 * q + c = omega arith in
    let cycle : p / 400 ≡ q = omega arith in omega (arith, fourth, hundredth, cycle)

days_of_year :
    (q c f y r : ℕ) → IsSplit q c f y r → r < days_of 12 (month_lengths (year_of q c f y))
unfolding month_lengths is_leap
days_of_year q c f y r s = elim (s.leap) [
  | inl common ↦ ground arith
  | inr (last, long) ↦ ground arith
]

-- The parts that `date` takes a day number into.
abbrev in_cycle : ℕ → ℕ
in_cycle n = n % 146097

abbrev century : ℕ → ℕ
century n = min 3 (in_cycle n / 36524)

abbrev in_century : ℕ → ℕ
in_century n = in_cycle n - century n * 36524

abbrev in_four : ℕ → ℕ
in_four n = in_century n % 1461

abbrev year_in_four : ℕ → ℕ
year_in_four n = min 3 (in_four n / 365)

abbrev in_year : ℕ → ℕ
in_year n = in_four n - year_in_four n * 365

abbrev year_at : ℕ → ℕ
year_at n = year_of (n / 146097) (century n) (in_century n / 1461) (year_in_four n)

date-place : (n : ℕ) → date n ≡ place (year_at n) 1 (in_year n) (month_lengths (year_at n))
unfolding date
date-place n = refl

in_century_bound : (n : ℕ) → (in_century n < 36524) ⊎ ((century n ≡ 3) × (in_century n ≡ 36524))
in_century_bound n = ground arith

in_year_bound :
    (n : ℕ) → (in_year n < 365) ⊎ ((year_in_four n ≡ 3) × (in_year n ≡ 365) × (in_four n ≡ 1460))
in_year_bound n = ground arith

year_at-IsSplit :
    (n : ℕ) → IsSplit (n / 146097) (century n) (in_century n / 1461) (year_in_four n) (in_year n)
year_at-IsSplit n = record {
  centuries = omega arith;
  fours = elim (in_century_bound n) [ inl h ↦ omega (arith, h) | inr h ↦ omega (arith, h) ];
  years = omega arith;
  days = elim (in_year_bound n) [ inl h ↦ omega (arith, h) | inr h ↦ omega (arith, h) ];
  leap = elim (in_year_bound n) [
    | inl h ↦ inl h
    | inr (last, day, four) ↦ inr (
      last,
      (elim (in_century_bound n) [
        | inl h ↦ inl (omega (arith, h, four))
        | inr (long, h) ↦ inr long
      ]),
    )
  ];
}

parts_sum :
    (n : ℕ)
    → n
      ≡ 146097 * (n / 146097)
        + 36524 * century n
        + 1461 * (in_century n / 1461)
        + 365 * year_in_four n
        + in_year n
parts_sum n = omega arith

-- What `date` finds for a day of the years 1 to 9999.
pub record IsDate (n : ℕ) (d : Date) : Type 0 where
  pub year : (1 ≤ d.year) × (d.year < 10000)
  pub month : (1 ≤ d.month) × (d.month ≤ 12)
  pub day : (1 ≤ d.day) × (d.day ≤ 31)
  pub number : ordinal d ≡ n

abbrev pub last_day : ℕ
last_day = 3652059

month_lengths_short : (y : ℕ) → All (λ len. len ≤ 31) (month_lengths y)
unfolding month_lengths
month_lengths_short y = ground arith

year_at_bound : (n : ℕ) → n < last_day → (1 ≤ year_at n) × (year_at n < 10000)
year_at_bound n h = omega (arith, parts_sum n)

days_before_year_at : (n : ℕ) → days_before_year (year_at n) + in_year n ≡ n
days_before_year_at n = omega (
  arith,
  parts_sum n,
  days_before_split (n / 146097) (century n) (in_century n / 1461) (year_in_four n) (in_year n)
      (year_at-IsSplit n),
)

place-ordinal :
    (year rest n k : ℕ) (d : Date)
    → d.year ≡ year
    → d.month ≡ 1 + k
    → days_of k (month_lengths year) + d.day ≡ rest + 1
    → 1 ≤ d.day
    → days_before_year year + rest ≡ n
    → ordinal d ≡ n
place-ordinal year rest n k d same month sum day total =
    let month' : d.month - 1 ≡ k = omega (arith, month) in
    rw (same, month') (omega (arith, sum, total))

length-month_lengths : (y : ℕ) → length (month_lengths y) ≡ 12
unfolding month_lengths
length-month_lengths y = refl

date-IsPlace : (n : ℕ) → IsPlace (year_at n) 1 (in_year n) (month_lengths (year_at n)) (date n)
date-IsPlace n = rw (date-place n) (
    place-IsPlace (year_at n) 1 (in_year n) (month_lengths (year_at n))
      (month_lengths_short (year_at n))
      (rw (length-month_lengths (year_at n)) (
        days_of_year (n / 146097) (century n) (in_century n / 1461) (year_in_four n) (in_year n)
          (year_at-IsSplit n))))

-- Every day up to the last one of the year 9999 has a date, whose number it is.
pub date-IsDate : (n : ℕ) → n < last_day → IsDate n (date n)
date-IsDate n h =
    let p = date-IsPlace n in
    let (k, month, few, sum) = p.in_months in
    record {
      year = rw p.in_year (year_at_bound n h);
      month = omega (arith, month, few, length-month_lengths (year_at n));
      day = p.in_month;
      number =
          place-ordinal (year_at n) (in_year n) n k (date n) p.in_year month sum p.in_month.0
            (days_before_year_at n);
    }
