-- ===== src/Common/Time/RoundTrip.antt =====
-- A reader of RFC 3339 in UTC, and that it reads back what `Format` prints.
use Prim.Native.Char.{Char, code}
use Prim.Native.Nat.{ℕ, zero, suc, ◌+◌, ◌-◌, ◌*◌, ◌/◌, ◌%◌, ◌^◌, ◌<◌}
use Prim.Native.String.{String, ◌++◌}
use mathlib.Core.Path.{◌≡◌, refl, ap, ◌∙◌}
use mathlib.Core.Bool.{◌&&◌}
use mathlib.Core.Option.{Option, none, some}
use native.Mathlib.Omega.{arith}
use text.Mathlib.TextLemmas.{cons-append, nil-append}
use managed_services_lib.Common.Tests.{leb, nat_eq, if◌then◌else◌}
use managed_services_lib.Common.Decimal.{decimal, decimal_from, digit}
use managed_services_lib.Common.Decimal.RoundTrip.{digit-code}
use managed_services_lib.Common.Time.{Time, date, format_rfc3339}
use managed_services_lib.Common.Time.Calendar.{ordinal, last_day, date-IsDate}

-- A number of a given width in front of a text, and the rest of the text.
number : ℕ → ℕ → String → Option (ℕ × String)
number zero n s = some (n, s)
number (suc width) n String.[] = none
number (suc width) n (String.◌∷◌ c s) =
    let rest = number width (n * 10 + (code c - b'0')) s in
    if leb b'0' (code c) && leb (code c) b'9' then rest else none

-- The rest of a text after a character.
after : ℕ → String → Option String
after c String.[] = none
after c (String.◌∷◌ d s) = if nat_eq (code d) c then some s else none

infixl 5 ◌>>=◌
abbrev ◌>>=◌ : {A B : Type 0} → Option A → (A → Option B) → Option B
none >>= f = none
some a >>= f = f a

-- A number, and the character that has to follow it.
field : ℕ → ℕ → String → Option (ℕ × String)
field width c s = do (n, rest) ← number width 0 s; rest' ← after c rest; some (n, rest')

-- The end of the text.
only : ℕ → String → Option ℕ
only n String.[] = some n
only n (String.◌∷◌ c s) = none

-- `yyyy-mm-ddThh:mm:ssZ`, as the seconds since the start of the year 1.
pub read_rfc3339 : String → Option ℕ
read_rfc3339 s = do
  (year, s1) ← field 4 b'-' s
  (month, s2) ← field 2 b'-' s1
  (day, s3) ← field 2 b'T' s2
  (hour, s4) ← field 2 b':' s3
  (minute, s5) ← field 2 b':' s4
  (second, s6) ← field 2 b'Z' s5
  only
      (ordinal (record { year = year; month = month; day = day }) * 86400
        + hour * 3600
        + minute * 60
        + second)
      s6

decimal_from-last : (fuel n : ℕ) (out : String) → n ≡ 0 → decimal_from (suc fuel) 0 n out ≡ out
unfolding decimal_from
decimal_from-last fuel n out h = rw h refl

decimal_from-digit :
    (fuel width n : ℕ) (out : String)
    → decimal_from (suc fuel) (suc width) n out
      ≡ decimal_from fuel width (n / 10) (String.◌∷◌ (digit (n % 10)) out)
unfolding decimal_from
decimal_from-digit fuel width n out = ground arith

decimal_two :
    (n : ℕ)
    → n < 100
    → decimal 2 n ≡ String.◌∷◌ (digit (n / 10 % 10)) (String.◌∷◌ (digit (n % 10)) "")
unfolding decimal
decimal_two n h =
    let fuel : n + 2 + 1 ≡ suc (suc (suc n)) = omega arith in
    let rest : n / 10 / 10 ≡ 0 = omega arith in
    rw (fuel, decimal_from-digit, decimal_from-digit) (decimal_from-last n (n / 10 / 10) _ rest)

decimal_four :
    (n : ℕ)
    → n < 10000
    → decimal 4 n
      ≡ String.◌∷◌ (digit (n / 10 / 10 / 10 % 10)) (
          String.◌∷◌
            (digit (n / 10 / 10 % 10))
            (String.◌∷◌ (digit (n / 10 % 10)) (String.◌∷◌ (digit (n % 10)) "")))
unfolding decimal
decimal_four n h =
    let fuel : n + 4 + 1 ≡ suc (suc (suc (suc (suc n)))) = omega arith in
    let rest : n / 10 / 10 / 10 / 10 ≡ 0 = omega arith in
    rw (fuel, decimal_from-digit, decimal_from-digit, decimal_from-digit, decimal_from-digit)
      (decimal_from-last n (n / 10 / 10 / 10 / 10) _ rest)

number-cons :
    (width a : ℕ) (c : Char) (s : String)
    → number (suc width) a (String.◌∷◌ c s) ≡ (
        if leb b'0' (code c) && leb (code c) b'9'
        then number width (a * 10 + (code c - b'0')) s
        else none)
unfolding number
number-cons width a c s = refl

number-digit :
    (width a n : ℕ) (s : String)
    → n < 10
    → number (suc width) a (String.◌∷◌ (digit n) s) ≡ number width (a * 10 + n) s
number-digit width a n s h =
    let value : n + b'0' - b'0' ≡ n = omega arith in
    rw (number-cons width a (digit n) s, digit-code n h, value) (ground arith)

number-two : (n : ℕ) (s : String) → n < 100 → number 2 0 (decimal 2 n ++ s) ≡ some (n, s)
number-two n s h =
    let value : (0 * 10 + n / 10 % 10) * 10 + n % 10 ≡ n = omega arith in
    rw (decimal_two n h, cons-append, cons-append, nil-append)
      (number-digit 1 0 (n / 10 % 10) (String.◌∷◌ (digit (n % 10)) s) (omega arith)
        ∙ number-digit 0 (0 * 10 + n / 10 % 10) (n % 10) s (omega arith)
        ∙ unfold number in ap (λ m. some (m, s)) value)

number-four : (n : ℕ) (s : String) → n < 10000 → number 4 0 (decimal 4 n ++ s) ≡ some (n, s)
number-four n s h =
    let a : ℕ = n / 10 / 10 / 10 % 10 in
    let b : ℕ = n / 10 / 10 % 10 in
    let c : ℕ = n / 10 % 10 in
    let d : ℕ = n % 10 in
    let value : (((0 * 10 + a) * 10 + b) * 10 + c) * 10 + d ≡ n = omega arith in
    rw (decimal_four n h, cons-append, cons-append, cons-append, cons-append, nil-append)
      (number-digit 3 0 a _ (omega arith)
        ∙ number-digit 2 (0 * 10 + a) b _ (omega arith)
        ∙ number-digit 1 ((0 * 10 + a) * 10 + b) c _ (omega arith)
        ∙ number-digit 0 (((0 * 10 + a) * 10 + b) * 10 + c) d s (omega arith)
        ∙ unfold number in ap (λ m. some (m, s)) value)

after-cons : (c : Char) (s : String) → after (code c) (String.◌∷◌ c s) ≡ some s
unfolding after
after-cons c s = ground arith

field_of :
    (width n : ℕ) (c : Char) (s t u : String)
    → number width 0 t ≡ some (n, u)
    → u ≡ String.◌∷◌ c s
    → field width (code c) t ≡ some (n, s)
unfolding field
field_of width n c s t u h e = rw (h, e, after-cons c s) refl

-- A character in front of a text, as a text of its own.
front : (c : Char) (s : String) → String.◌∷◌ c "" ++ s ≡ String.◌∷◌ c s
front c s = cons-append c "" s ∙ ap (String.◌∷◌ c) (nil-append s)

field-two :
    (n : ℕ) (c : Char) (s : String)
    → n < 100
    → field 2 (code c) (decimal 2 n ++ String.◌∷◌ c "" ++ s) ≡ some (n, s)
field-two n c s h = field_of 2 n c s _ _ (number-two n (String.◌∷◌ c "" ++ s) h) (front c s)

field-four :
    (n : ℕ) (c : Char) (s : String)
    → n < 10000
    → field 4 (code c) (decimal 4 n ++ String.◌∷◌ c "" ++ s) ≡ some (n, s)
field-four n c s h = field_of 4 n c s _ _ (number-four n (String.◌∷◌ c "" ++ s) h) (front c s)

read_fields :
    (year month day hour minute second : ℕ)
    → year < 10000
    → month < 100
    → day < 100
    → hour < 100
    → minute < 100
    → second < 100
    → read_rfc3339 (
        decimal 4 year
        ++ "-"
        ++ decimal 2 month
        ++ "-"
        ++ decimal 2 day
        ++ "T"
        ++ decimal 2 hour
        ++ ":"
        ++ decimal 2 minute
        ++ ":"
        ++ decimal 2 second
        ++ "Z")
      ≡ some (
          ordinal (record { year = year; month = month; day = day }) * 86400
          + hour * 3600
          + minute * 60
          + second)
unfolding read_rfc3339
read_fields year month day hour minute second h1 h2 h3 h4 h5 h6 =
    rw
      (
        field-four year "-" _ h1,
        field-two month "-" _ h2,
        field-two day "T" _ h3,
        field-two hour ":" _ h4,
        field-two minute ":" _ h5,
        field_of 2 second "Z" "" (decimal 2 second ++ "Z") "Z" (number-two second "Z" h6) refl,
      )
      (unfold only in refl)

-- The instants up to the end of the year 9999, which is as far as RFC 3339 goes.
abbrev pub last_time : Time
last_time = last_day * 86400 * 10 ^ 9

-- The text of an instant reads back as its whole seconds.
pub read-format_rfc3339 :
    (t : Time) → t < last_time → read_rfc3339 (format_rfc3339 t) ≡ some (t / 10 ^ 9)
unfolding format_rfc3339
read-format_rfc3339 t h =
    let secs : ℕ = t / 10 ^ 9 in
    let d = date-IsDate (secs / 86400) (omega arith) in
    let whole : secs / 86400 * 86400
          + secs % 86400 / 3600 * 3600
          + secs % 86400 / 60 % 60 * 60
          + secs % 86400 % 60
        ≡ secs =
      omega arith in
    read_fields (date (secs / 86400)).year (date (secs / 86400)).month (date (secs / 86400)).day
      (secs % 86400 / 3600) (secs % 86400 / 60 % 60) (secs % 86400 % 60) d.year.1
      (omega (arith, d.month)) (omega (arith, d.day)) (omega arith) (omega arith) (omega arith)
    ∙ ap some (rw d.number whole)

pub read_nothing : read_rfc3339 "" ≡ none
unfolding read_rfc3339 field number
read_nothing = refl
