-- ===== src/Amount/Displays.antt =====
-- What `Parse` makes of a display in the unit of k decimals.
use qday_pool.Prelude.{
  ℕ, zero, suc, ◌+◌, ◌-◌, ◌*◌, ◌^◌, ◌≤◌, ◌≡◌, refl, ap, ◌∙◌, true, false, Option, none, some, [],
  ◌∷◌, ◌++◌, keep, length, length-replicate, Text, text_eq_refl, arith, All-append, All-map,
}
use qday_pool.Prelude.Int.{pos}
use qday_pool.Decimal.{is_digit, scan, set_string, decimal}
use qday_pool.Decimal.RoundTrip.{
  set_string-decimal, set_string-scan, StartsWithDigit, decimal-StartsWithDigit,
}
use qday_pool.Decimal.Digits.{
  IsDigits, zeros, unit_text, decimal-IsDigits, LeadsNonzero, decimal-LeadsNonzero, decimal-power,
  power_positive, scan-zeros,
}
use qday_pool.Amount.Spaces.{IsPlain, is_plain, trim_space-plain}
use qday_pool.Amount.{
  Parsed, parsed, all_of, is_dot, is_zero_digit, split_dot, read_unit, is_malformed,
  has_leading_zero, is_blank, read_digits, add_fraction, check_part, check_parts, parse_parts,
  parse,
}

scan-unit : (k : ℕ) → scan (unit_text k) 0 ≡ some (10 ^ k)
unfolding scan
scan-unit k = scan-zeros k 1 ∙ ap some (omega arith)

pub set_string-unit : (k : ℕ) → set_string (unit_text k) ≡ some (pos (10 ^ k))
set_string-unit k = set_string-scan (unit_text k) (10 ^ k) refl (scan-unit k)

read_unit-unit : (k : ℕ) → read_unit (unit_text k) ≡ some (10 ^ k)
unfolding read_unit
read_unit-unit k =
    ground (arith, set_string-unit k, power_positive k, decimal-power k, text_eq_refl (unit_text k))

zeros-only : (k : ℕ) → all_of is_zero_digit (zeros k) ≡ true
zeros-only zero = refl
zeros-only (suc k) = zeros-only k

-- Texts of digits.
digits-all_of : (s : Text) → IsDigits s → all_of is_digit s ≡ true
digits-all_of [] h = refl
digits-all_of (c ∷ s) (p, h) = ground (arith, digits-all_of s h)

split_dot-digits : (s : Text) → IsDigits s → split_dot s ≡ (s, none)
unfolding split_dot
split_dot-digits [] h = refl
split_dot-digits (c ∷ s) (p, h) = ground (arith, split_dot-digits s h)

split_dot-fraction : (s t : Text) → IsDigits s → split_dot (s ++ b'.' ∷ t) ≡ (s, some t)
unfolding split_dot
split_dot-fraction [] t h = refl
split_dot-fraction (c ∷ s) t (p, h) = ground (arith, split_dot-fraction s t h)

dots-digits : (s : Text) → IsDigits s → keep is_dot s ≡ []
dots-digits [] h = refl
dots-digits (c ∷ s) (p, h) = ground (arith, dots-digits s h)

dots-fraction : (s t : Text) → IsDigits s → IsDigits t → length (keep is_dot (s ++ b'.' ∷ t)) ≡ 1
dots-fraction [] t h k = ground (arith, dots-digits t k)
dots-fraction (c ∷ s) t (p, h) k = ground (arith, dots-fraction s t h k)

digits-IsPlain : (s : Text) → IsDigits s → IsPlain s
digits-IsPlain =
    All-map (λ c (p : is_digit c ≡ true). let q : is_plain c ≡ true = ground arith in q)

leading : (s : Text) → LeadsNonzero s → has_leading_zero s ≡ false
leading [] h = absurd h
leading (c ∷ s) h = ground (arith, h)

-- A number of a display.
no_leading_zero : (n : ℕ) → has_leading_zero (decimal n) ≡ false
unfolding decimal
no_leading_zero zero = refl
no_leading_zero (suc n) = leading (decimal (suc n)) (decimal-LeadsNonzero (suc n) (omega arith))

read_digits-scan :
    (s : Text) (n : ℕ) → StartsWithDigit s → scan s 0 ≡ some n → read_digits s ≡ parsed n
read_digits-scan s n d e = ground (arith, set_string-scan s n d e)

check_part-digits :
    (s : Text) (rest : Parsed) → IsDigits s → StartsWithDigit s → check_part s rest ≡ rest
unfolding check_part
check_part-digits [] rest h d = absurd d
check_part-digits (c ∷ s) rest h d = ground (arith, digits-all_of (c ∷ s) h)

-- A display that has passed the checks on its form.
parse-parts :
    (k : ℕ) (s whole : Text) (fraction : Option Text)
    → IsPlain s
    → is_malformed s ≡ false
    → split_dot s ≡ (whole, fraction)
    → parse s (unit_text k) ≡ parse_parts whole fraction (10 ^ k) k
unfolding parse
parse-parts k s whole fraction plain formed split = ground (
  arith,
  read_unit-unit k,
  zeros-only k,
  trim_space-plain s plain,
  length-replicate {A = ℕ} k b'0',
)

not_blank : (s : Text) → StartsWithDigit s → is_blank s ≡ false
not_blank [] d = absurd d
not_blank (c ∷ s) d = refl

-- The whole part.
parse_parts-decimal :
    (q u k : ℕ) (fraction : Option Text)
    → parse_parts (decimal q) fraction u k
      ≡ check_parts (decimal q) fraction (add_fraction (q * u) k fraction)
unfolding parse_parts
parse_parts-decimal q u k fraction = ground (
  arith,
  no_leading_zero q,
  set_string-decimal q,
  decimal-StartsWithDigit q,
  not_blank (decimal q) (decimal-StartsWithDigit q),
)

formed : (s : Text) → StartsWithDigit s → length (keep is_dot s) ≤ 1 → is_malformed s ≡ false
formed [] d h = absurd d
formed (c ∷ s) d h = ground arith

-- A whole number of units.
pub parse-whole : (q k : ℕ) → parse (decimal q) (unit_text k) ≡ parsed (q * 10 ^ k)
unfolding check_parts add_fraction
parse-whole q k =
    let s = decimal q in
    let h = decimal-IsDigits q in
    let d = decimal-StartsWithDigit q in
    parse-parts k s s none (digits-IsPlain s h)
      (formed s d (omega (arith, ap length (dots-digits s h)))) (split_dot-digits s h)
    ∙ parse_parts-decimal q (10 ^ k) k none
    ∙ check_part-digits s (parsed (q * 10 ^ k)) h d

starts_append : (s t : Text) → StartsWithDigit s → StartsWithDigit (s ++ t)
starts_append [] t d = absurd d
starts_append (c ∷ s) t d = d

fraction-IsPlain : (s t : Text) → IsDigits s → IsDigits t → IsPlain (s ++ b'.' ∷ t)
fraction-IsPlain s t h k =
    All-append (λ c. is_plain c ≡ true) s (b'.' ∷ t) (digits-IsPlain s h) (refl, digits-IsPlain t k)

-- A number of units and a fraction.
pub parse-fraction :
    (q k f : ℕ) (t : Text)
    → IsDigits t
    → StartsWithDigit t
    → length t ≤ k
    → scan (t ++ zeros (k - length t)) 0 ≡ some f
    → parse (decimal q ++ b'.' ∷ t) (unit_text k) ≡ parsed (q * 10 ^ k + f)
unfolding check_parts add_fraction
parse-fraction q k f t h d short e =
    let s = decimal q in
    let hs = decimal-IsDigits q in
    let ds = decimal-StartsWithDigit q in
    let read =
      read_digits-scan (t ++ zeros (k - length t)) f (starts_append t (zeros (k - length t)) d) e in
    parse-parts k (s ++ b'.' ∷ t) s (some t) (fraction-IsPlain s t hs h)
      (formed (s ++ b'.' ∷ t) (starts_append s (b'.' ∷ t) ds)
        (omega (arith, dots-fraction s t hs h)))
      (split_dot-fraction s t hs)
    ∙ parse_parts-decimal q (10 ^ k) k (some t)
    ∙ check_part-digits s _ hs ds
    ∙ check_part-digits t _ h d
    ∙ ground (arith, read)
