-- ===== src/Common/Decimal/RoundTrip.antt =====
-- `strconv.Atoi` reads what `%d` prints.
use Prim.Native.Char.{code}
use Prim.Native.Nat.{ℕ, zero, suc, ◌+◌, ◌-◌, ◌*◌, ◌/◌, ◌%◌, ◌^◌, ◌<◌}
use Prim.Native.String.{String}
use mathlib.Core.Path.{◌≡◌, refl, ◌∙◌}
use mathlib.Core.Bool.{Bool, true, false, ◌&&◌}
use mathlib.Core.Logic.{◌⊎◌, inl}
use mathlib.Core.Option.{some}
use native.Mathlib.Omega.{arith}
use text.Mathlib.TextEquality.{eq_iff}
use text.Mathlib.TextLemmas.{cons-ne-nil}
use managed_services_lib.Common.Tests.{leb}
use managed_services_lib.Common.Int.{ℤ, pos, negsuc}
use managed_services_lib.Common.Decimal.{
  digit, decimal_from, decimal, show_int, read_digits, bounded_pos, digits, atoi,
}

pub digit-code : (d : ℕ) → d < 10 → code (digit d) ≡ d + b'0'
unfolding digit
digit-code zero h = refl
digit-code (suc zero) h = refl
digit-code (suc (suc zero)) h = refl
digit-code (suc (suc (suc zero))) h = refl
digit-code (suc (suc (suc (suc zero)))) h = refl
digit-code (suc (suc (suc (suc (suc zero))))) h = refl
digit-code (suc (suc (suc (suc (suc (suc zero)))))) h = refl
digit-code (suc (suc (suc (suc (suc (suc (suc zero))))))) h = refl
digit-code (suc (suc (suc (suc (suc (suc (suc (suc zero)))))))) h = refl
digit-code (suc (suc (suc (suc (suc (suc (suc (suc (suc zero))))))))) h = refl
digit-code (suc (suc (suc (suc (suc (suc (suc (suc (suc (suc d)))))))))) h = absurd (omega arith)

read_digits-cons :
    (a d : ℕ) (s : String)
    → d < 10
    → read_digits a (String.◌∷◌ (digit d) s) ≡ read_digits (a * 10 + d) s
unfolding read_digits
read_digits-cons a d s h = rw (digit-code d h) (ground arith)

digits_split : (n : ℕ) → n / 10 * 10 + n % 10 ≡ n
digits_split n = omega arith

read_digits-decimal_from :
    (fuel width n : ℕ) (out : String)
    → n + width < fuel
    → read_digits 0 (decimal_from fuel width n out) ≡ read_digits n out
unfolding decimal_from
read_digits-decimal_from zero width n out h = elim h [ ]
read_digits-decimal_from (suc fuel) width n out h = ground (
  arith,
  read_digits-decimal_from fuel (width - 1) (n / 10) (String.◌∷◌ (digit (n % 10)) out),
  read_digits-cons (n / 10) (n % 10) out,
  digits_split n,
)

head_digit : String → Bool
head_digit String.[] = false
head_digit (String.◌∷◌ c s) = leb b'0' (code c) && leb (code c) b'9'

head_digit-decimal_from :
    (fuel width n : ℕ) (out : String)
    → n + width < fuel
    → (0 < n + width) ⊎ (head_digit out ≡ true)
    → head_digit (decimal_from fuel width n out) ≡ true
unfolding decimal_from head_digit
head_digit-decimal_from zero width n out h k = elim h [ ]
head_digit-decimal_from (suc fuel) width n out h k = ground (
  arith,
  head_digit-decimal_from fuel (width - 1) (n / 10) (String.◌∷◌ (digit (n % 10)) out),
  digit-code (n % 10),
)

atoi_plain : (s : String) → head_digit s ≡ true → atoi s ≡ bounded_pos (read_digits 0 s)
unfolding atoi head_digit
atoi_plain String.[] h = ground arith
atoi_plain (String.◌∷◌ c s) h = ground arith

digits_plain : (s : String) → head_digit s ≡ true → digits s ≡ read_digits 0 s
unfolding head_digit
digits_plain String.[] h = ground arith
digits_plain (String.◌∷◌ c s) h = ground (arith, eq_iff (String.◌∷◌ c s) "", cons-ne-nil c s)

-- The range of an `int`.
abbrev pub IsInt64 : ℤ → Type 0
IsInt64 (pos n) = n < 2 ^ 63
IsInt64 (negsuc n) = n < 2 ^ 63

head_digit-decimal : (n : ℕ) → head_digit (decimal 1 n) ≡ true
unfolding decimal
head_digit-decimal n = head_digit-decimal_from (n + 1 + 1) 1 n "" (omega arith) (inl (omega arith))

read_digits-decimal : (n : ℕ) → read_digits 0 (decimal 1 n) ≡ some n
unfolding decimal
read_digits-decimal n =
    read_digits-decimal_from (n + 1 + 1) 1 n "" (omega arith) ∙ unfold read_digits in refl

-- `strconv.Atoi` reads back every `int` that `%d` prints.
pub atoi-show_int : (z : ℤ) → IsInt64 z → atoi (show_int z) ≡ some z
atoi-show_int (pos n) h =
    unfold show_int in
    ground (arith, atoi_plain (decimal 1 n) (head_digit-decimal n), read_digits-decimal n)
atoi-show_int (negsuc n) h =
    unfold show_int atoi in
    ground (
      arith,
      digits_plain (decimal 1 (suc n)) (head_digit-decimal (suc n)),
      read_digits-decimal (suc n),
    )
