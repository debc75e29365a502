-- ===== src/Decimal/RoundTrip.antt =====
-- Reading back a decimal print, and what a canonical decimal looks like.
use qday_pool.Prelude.{
  ℕ, zero, suc, ◌+◌, ◌/◌, ◌%◌, ◌<◌, [], ◌∷◌, some, true, Text, ◌≡◌, arith, ◌==◌, Bool-cases, inl,
  inr,
}
use qday_pool.Prelude.Int.{pos}
use qday_pool.Decimal.{is_digit, scan, magnitude, set_string, digits, decimal}

-- The last digit of `n` behind the digits before it gives `n`.
scan_last : (n : ℕ) (out : Text) → scan ((b'0' + n % 10) ∷ out) (n / 10) ≡ scan out n
unfolding scan
scan_last n out = ground arith

scan-digits : (fuel n : ℕ) (out : Text) → n < fuel → scan (digits fuel n out) 0 ≡ scan out n
unfolding digits
scan-digits zero n out h = absurd (omega arith)
scan-digits (suc fuel) n out h = elim (Bool-cases (n == 0)) [
  | inl done ↦ ground arith
  | inr more ↦ ground (arith, scan-digits fuel (n / 10) ((b'0' + n % 10) ∷ out), scan_last n out)
]

-- A print starts with a digit.
abbrev pub StartsWithDigit : Text → Type 0
StartsWithDigit [] = ⊥
StartsWithDigit (c ∷ s) = is_digit c ≡ true

digits-StartsWithDigit :
    (fuel n : ℕ) (out : Text) → StartsWithDigit out → StartsWithDigit (digits fuel n out)
unfolding digits
digits-StartsWithDigit zero n out h = h
digits-StartsWithDigit (suc fuel) n out h =
    ground (arith, digits-StartsWithDigit fuel (n / 10) ((b'0' + n % 10) ∷ out))

pub decimal-StartsWithDigit : (n : ℕ) → StartsWithDigit (decimal n)
unfolding decimal digits
decimal-StartsWithDigit n = ground (arith, digits-StartsWithDigit n (n / 10) ((b'0' + n % 10) ∷ []))

pub scan-decimal : (n : ℕ) → scan (decimal n) 0 ≡ some n
unfolding decimal scan
scan-decimal n = ground (arith, scan-digits (suc n) n [])

-- A text that starts with a digit is read as digits, with no sign.
pub set_string-scan :
    (s : Text) (n : ℕ) → StartsWithDigit s → scan s 0 ≡ some n → set_string s ≡ some (pos n)
unfolding set_string magnitude
set_string-scan [] n h e = absurd h
set_string-scan (c ∷ s) n h e = ground arith

-- Every number is read back from its decimal print.
pub set_string-decimal : (n : ℕ) → set_string (decimal n) ≡ some (pos n)
set_string-decimal n = set_string-scan (decimal n) n (decimal-StartsWithDigit n) (scan-decimal n)
