-- ===== src/Web/Amounts.antt =====
-- `formatAmount` of internal/web/server.go: an amount of atoms in the unit of the day.
pub mod RoundTrip
use qday_pool.Prelude.{
  ℕ, zero, suc, ◌+◌, ◌-◌, ◌/◌, ◌%◌, ◌≡◌, refl, Bool, true, false, ◌==◌, Option, none, some, List,
  [], ◌∷◌, ◌++◌, reverse, replicate, length, Text, codes, if◌then◌else◌,
}
use qday_pool.Prelude.Int.{ℤ, pos, negsuc}
use qday_pool.Decimal.{negate, set_string, magnitude, scan, to_string, decimal, digits}

-- `QuoRem`: both towards zero.
abbrev pub quotient : ℤ → ℕ → ℤ
quotient (pos n) u = pos (n / u)
quotient (negsuc n) u = negate (suc n / u)

abbrev pub remainder : ℤ → ℕ → ℤ
remainder (pos n) u = pos (n % u)
remainder (negsuc n) u = negate (suc n % u)

unfoldable pub drop_zeros : Text → Text
drop_zeros [] = []
drop_zeros (c ∷ s) = let rest = drop_zeros s in if c == b'0' then rest else c ∷ s

-- `strings.TrimRight(s, "0")`
abbrev pub trim_right : Text → Text
trim_right s = reverse (drop_zeros (reverse s))

abbrev pub is_zero : ℤ → Bool
is_zero (pos n) = n == 0
is_zero (negsuc n) = false

-- Behind the checks: the quotient, and the remainder as a fraction of `decimals` digits.
abbrev pub fraction_of : ℤ → ℕ → Text
fraction_of r decimals =
    trim_right (replicate (decimals - length (to_string r)) b'0' ++ to_string r)

unfoldable pub format_parts : ℤ → ℤ → ℕ → Text
format_parts q r decimals =
    if is_zero r then to_string q else to_string q ++ b'.' ∷ fraction_of r decimals

abbrev pub format_in : Text → Option ℤ → Option ℤ → ℕ → Text
format_in value (some n) (some (pos u)) decimals =
    if u == 0 then value else format_parts (quotient n u) (remainder n u) decimals
format_in value _ _ decimals = value

-- The field `QDAY`; the field `Atomic` is the value itself.
unfoldable pub format_amount : Text → Text → Text
format_amount value unit = format_in value (set_string value) (set_string unit) (length unit - 1)

format_amount_test : format_amount (codes "1205") (codes "1000") ≡ codes "1.205"
unfolding format_amount format_parts drop_zeros set_string magnitude scan to_string decimal digits
format_amount_test = refl

format_negative_test : format_amount (codes "-1050") (codes "1000") ≡ codes "-1.-5"
unfolding format_amount format_parts drop_zeros set_string magnitude scan to_string decimal digits
format_negative_test = refl
