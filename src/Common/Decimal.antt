-- ===== src/Common/Decimal.antt =====
-- Decimal numbers: printing, as `fmt` and `time` do, and `strconv.Atoi`.
pub mod RoundTrip
use Prim.Native.Char.{Char, code}
use Prim.Native.Nat.{ℕ, zero, suc, ◌+◌, ◌-◌, ◌*◌, ◌/◌, ◌%◌, ◌^◌}
use Prim.Native.String.{String}
use mathlib.Core.Path.{◌≡◌, refl}
use mathlib.Core.Bool.{Bool, true, false, ◌&&◌, ◌||◌}
use mathlib.Core.Option.{Option, none, some}
use text.Mathlib.Text.{◌==◌}
use managed_services_lib.Common.Tests.{ltb, leb, nat_eq, if◌then◌else◌}
use managed_services_lib.Common.Int.{ℤ, pos, negsuc}

unfoldable pub digit : ℕ → Char
digit zero = "0"
digit (suc zero) = "1"
digit (suc (suc zero)) = "2"
digit (suc (suc (suc zero))) = "3"
digit (suc (suc (suc (suc zero)))) = "4"
digit (suc (suc (suc (suc (suc zero))))) = "5"
digit (suc (suc (suc (suc (suc (suc zero)))))) = "6"
digit (suc (suc (suc (suc (suc (suc (suc zero))))))) = "7"
digit (suc (suc (suc (suc (suc (suc (suc (suc zero)))))))) = "8"
digit _ = "9"

-- Decimal digits in front of `out`: at least `width` of them, at most `fuel`.
unfoldable pub decimal_from : ℕ → ℕ → ℕ → String → String
decimal_from zero width n out = out
decimal_from (suc fuel) width n out =
    let more = decimal_from fuel (width - 1) (n / 10) (String.◌∷◌ (digit (n % 10)) out) in
    if nat_eq n 0 && nat_eq width 0 then out else more

-- `n` in at least `width` digits. A number has at most as many digits as its value and one more.
unfoldable pub decimal : ℕ → ℕ → String
decimal width n = decimal_from (n + width + 1) width n ""

-- `%d` of an `int`.
unfoldable pub show_int : ℤ → String
show_int (pos n) = decimal 1 n
show_int (negsuc n) = String.◌∷◌ "-" (decimal 1 (suc n))

-- The digits of a number, from the left; `none` at any other character.
unfoldable pub read_digits : ℕ → String → Option ℕ
read_digits n String.[] = some n
read_digits n (String.◌∷◌ c s) =
    if leb b'0' (code c) && leb (code c) b'9'
    then read_digits (n * 10 + (code c - b'0')) s
    else none

-- An `int` has 64 bits.
abbrev pub bounded_pos : Option ℕ → Option ℤ
bounded_pos none = none
bounded_pos (some n) = if ltb n (2 ^ 63) then some (pos n) else none

abbrev pub bounded_neg : Option ℕ → Option ℤ
bounded_neg none = none
bounded_neg (some zero) = some (pos 0)
bounded_neg (some (suc n)) = if ltb n (2 ^ 63) then some (negsuc n) else none

-- Digits, at least one.
abbrev pub digits : String → Option ℕ
digits s = if s == "" then none else read_digits 0 s

-- `strconv.Atoi`: an optional sign and digits, in the range of `int`; `none` is its error.
unfoldable pub atoi : String → Option ℤ
atoi String.[] = none
atoi (String.◌∷◌ c s) =
    if nat_eq (code c) b'-'
    then bounded_neg (digits s)
    else if nat_eq (code c) b'+'
    then bounded_pos (digits s)
    else bounded_pos (read_digits 0 (String.◌∷◌ c s))

atoi_examples :
    (atoi "42" ≡ some (pos 42))
    × (atoi "-7" ≡ some (negsuc 6))
    × (atoi "9223372036854775808" ≡ none)
    × (atoi "3x" ≡ none)
    × (atoi "-" ≡ none)
unfolding atoi read_digits
atoi_examples = (refl, refl, refl, refl, refl)
