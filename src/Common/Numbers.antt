-- ===== src/Common/Numbers.antt =====
-- Integers and numerals in text: package strconv, and the part of fmt that the source calls.
use Prim.Native.Nat.{ℕ, zero, suc, ◌+◌, ◌-◌, ◌*◌}
use mathlib.Core.Bool.{Bool, true, false, ◌&&◌}
use mathlib.Core.Option.{Option, none, some}
use mathlib.Core.List.{[], ◌∷◌}
use librelock_server.Common.Tests.{◌==◌, leb, ltb, if◌then◌else◌}
use librelock_server.Common.Texts.{Text}
use mathlib.Core.Bool.{◌||◌}
use Prim.Native.Nat.{◌/◌}
use Prim.Native.Nat.{◌%◌}
use librelock_server.Common.{is_empty, ◌<◌, ◌≡◌}
use librelock_server.Common.Texts.{is_empty}
use Prim.Native.Nat.{◌<◌}
use librelock_server.Common.{Bool-cases, arith}
use librelock_server.Common.{inl}
use librelock_server.Common.{inr}
use librelock_server.Common.{refl}

-- `negsuc n` is -(n + 1)
pub data ℤ : Type 0 where
  pos : ℕ → ℤ
  negsuc : ℕ → ℤ

abbrev pub is_digit : ℕ → Bool
is_digit c = leb 48 c && leb c 57

-- The value of a text of digits, after those read before.
unfoldable pub digits_value : ℕ → Text → Option ℕ
digits_value acc [] = some acc
digits_value acc (c ∷ s) = elim (is_digit c) [
  | true ↦ digits_value (acc * 10 + (c - 48)) s
  | false ↦ none
]

abbrev pub natural : Text → Option ℕ
natural [] = none
natural (c ∷ s) = digits_value 0 (c ∷ s)

abbrev pub int64_limit : ℕ
int64_limit = 9_223_372_036_854_775_808

abbrev positive : Option ℕ → Option ℤ
positive none = none
positive (some n) = if ltb n int64_limit then some (pos n) else none

abbrev negative : Option ℕ → Option ℤ
negative none = none
negative (some zero) = some (pos 0)
negative (some (suc n)) = if ltb n int64_limit then some (negsuc n) else none

-- strconv.Atoi: an optional sign and digits, in the range of an int64.
unfoldable pub atoi : Text → Option ℤ
unfolding digits_value
atoi [] = none
atoi (c ∷ s) =
    if c == b'-'
    then negative (natural s)
    else if c == b'+'
    then positive (natural s)
    else positive (natural (c ∷ s))

decimal_digits : ℕ → ℕ → Text → Text
decimal_digits zero n acc = acc
decimal_digits (suc fuel) n acc = elim (ltb n 10) [
  | true ↦ (48 + n) ∷ acc
  | false ↦ decimal_digits fuel (n / 10) ((48 + n % 10) ∷ acc)
]

-- fmt's `%d`, for the numbers of at most twenty digits, which all of an int64 are.
unfoldable pub decimal : ℕ → Text
unfolding decimal_digits
decimal n = decimal_digits 20 n []

abbrev cons_digit : ℕ → Text × Text → Text × Text
cons_digit c (ds, rest) = (c ∷ ds, rest)

span_digits : Text → Text × Text
span_digits [] = ([], [])
span_digits (c ∷ s) = if is_digit c then cons_digit c (span_digits s) else ([], c ∷ s)

-- fmt skips blanks before a number.
skip_blanks : Text → Text
skip_blanks [] = []
skip_blanks (c ∷ s) = if c == 32 || c == 9 then skip_blanks s else c ∷ s

abbrev below_limit : ℕ → Text → Option ℕ → Option (ℕ × Text)
below_limit limit rest none = none
below_limit limit rest (some n) = if ltb n limit then some (n, rest) else none

-- Sscanf's `%d` into an unsigned integer that is less than the limit, with what follows it.
unfoldable pub scan_uint : ℕ → Text → Option (ℕ × Text)
unfolding span_digits skip_blanks digits_value
scan_uint limit s =
    let (digits, rest) = span_digits (skip_blanks s) in below_limit limit rest (natural digits)

-- The powers of ten that a number of at most so many digits stays below.
abbrev pub power_of_ten : ℕ → ℕ
power_of_ten zero = 1
power_of_ten (suc n) = 10 * power_of_ten n

digits_value-decimal_digits :
    (fuel n : ℕ) (s : Text)
    → n < power_of_ten fuel
    → digits_value 0 (decimal_digits fuel n s) ≡ digits_value n s
unfolding digits_value decimal_digits
digits_value-decimal_digits zero n s h = ground arith
digits_value-decimal_digits (suc fuel) n s h = elim (Bool-cases (ltb n 10)) [
  | inl one ↦ ground arith
  | inr more ↦
      ground (arith, digits_value-decimal_digits fuel (n / 10) ((48 + n % 10) ∷ s) (omega arith))
]

decimal_digits_nonempty :
    (fuel n c : ℕ) (s : Text) → is_empty (decimal_digits fuel n (c ∷ s)) ≡ false
unfolding decimal_digits
decimal_digits_nonempty zero n c s = refl
decimal_digits_nonempty (suc fuel) n c s = elim (Bool-cases (ltb n 10)) [
  | inl one ↦ ground arith
  | inr more ↦ ground (arith, decimal_digits_nonempty fuel (n / 10) (48 + n % 10) (c ∷ s))
]

-- A text of digits is read as their value.
atoi-digits_value :
    (c n : ℕ) (s : Text)
    → digits_value 0 (c ∷ s) ≡ some n
    → n < int64_limit
    → atoi (c ∷ s) ≡ some (pos n)
unfolding atoi digits_value
atoi-digits_value c n s e h = ground arith

decimal-atoi_text :
    (t : Text) (n : ℕ)
    → is_empty t ≡ false
    → digits_value 0 t ≡ some n
    → n < int64_limit
    → atoi t ≡ some (pos n)
decimal-atoi_text [] n e d h = cc
decimal-atoi_text (c ∷ s) n e d h = atoi-digits_value c n s d h

pub decimal_nonempty : (n : ℕ) → is_empty (decimal n) ≡ false
unfolding decimal decimal_digits
decimal_nonempty n = elim (Bool-cases (ltb n 10)) [
  | inl one ↦ ground arith
  | inr more ↦ ground (arith, decimal_digits_nonempty 19 (n / 10) (48 + n % 10) [])
]

-- A numeral is read back.
pub atoi-decimal : (n : ℕ) → n < int64_limit → atoi (decimal n) ≡ some (pos n)
unfolding decimal digits_value
atoi-decimal n h =
    decimal-atoi_text (decimal_digits 20 n []) n (decimal_nonempty n)
      (digits_value-decimal_digits 20 n [] (omega arith)) h
