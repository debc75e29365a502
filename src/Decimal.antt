-- ===== src/Decimal.antt =====
-- What the code uses of Go's `math/big`: `SetString(s, 10)` and `String()`, on byte strings.
pub mod RoundTrip
pub mod Digits
use qday_pool.Prelude.{
  ℕ, zero, suc, ◌+◌, ◌-◌, ◌*◌, ◌/◌, ◌%◌, [], ◌∷◌, Option, none, some, Bool, ◌&&◌, Text, leb, ◌==◌,
  if◌then◌else◌, ◌≡◌, refl, codes,
}
use qday_pool.Prelude.Int.{ℤ, pos, negsuc}
use mathlib.Core.Option

abbrev pub is_digit : ℕ → Bool
is_digit c = leb b'0' c && leb c b'9'

-- One or more digits behind `n`.
unfoldable pub scan : Text → ℕ → Option ℕ
scan [] n = some n
scan (c ∷ s) n = if is_digit c then scan s (n * 10 + (c - b'0')) else none

unfoldable pub magnitude : Text → Option ℕ
magnitude [] = none
magnitude (c ∷ s) = scan (c ∷ s) 0

abbrev pub negate : ℕ → ℤ
negate zero = pos zero
negate (suc n) = negsuc n

-- `new(big.Int).SetString(s, 10)`: an optional sign, then digits; `none` is `ok == false`.
unfoldable pub set_string : Text → Option ℤ
set_string [] = none
set_string (c ∷ s) =
    if c == b'-'
    then Option.map negate (magnitude s)
    else if c == b'+'
    then Option.map pos (magnitude s)
    else Option.map pos (magnitude (c ∷ s))

-- The digits of `n` in front of `out`; each round divides `n` by ten.
unfoldable pub digits : ℕ → ℕ → Text → Text
digits zero n out = out
digits (suc fuel) n out =
    let rest = digits fuel (n / 10) ((b'0' + n % 10) ∷ out) in if n == 0 then out else rest

-- `String()` of a number that is not negative; `n + 1` rounds are enough.
unfoldable pub decimal : ℕ → Text
unfolding digits
decimal n = if n == 0 then b'0' ∷ [] else digits (suc n) n []

-- `String()` of any integer.
unfoldable pub to_string : ℤ → Text
to_string (pos n) = decimal n
to_string (negsuc n) = b'-' ∷ decimal (suc n)

decimal_test : decimal 1204 ≡ codes "1204"
unfolding decimal
decimal_test = refl

set_string_test : set_string (codes "-007") ≡ some (negsuc 6)
unfolding set_string magnitude scan
set_string_test = refl
