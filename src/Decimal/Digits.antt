-- ===== src/Decimal/Digits.antt =====
-- The digits of a number: how many there are, and those of a power of ten.
use qday_pool.Prelude.{
  ℕ, zero, suc, ◌+◌, ◌*◌, ◌/◌, ◌%◌, ◌^◌, ◌≤◌, ◌<◌, ◌≡◌, refl, ap, sym, ◌∙◌, true, false, ◌==◌, some,
  [], ◌∷◌, ◌++◌, Text, arith, All, length, replicate,
}
use native.Mathlib.Nat.{pow-succ', mul_assoc}
use mathlib.Core.List.{append-nil}
use qday_pool.Decimal.{is_digit, scan, digits, decimal}

abbrev pub IsDigits : Text → Type 0
IsDigits = All (λ c. is_digit c ≡ true)

abbrev pub zeros : ℕ → Text
zeros k = replicate k b'0'

digits-IsDigits : (fuel n : ℕ) (out : Text) → IsDigits out → IsDigits (digits fuel n out)
unfolding digits
digits-IsDigits zero n out h = h
digits-IsDigits (suc fuel) n out h =
    ground (arith, digits-IsDigits fuel (n / 10) ((b'0' + n % 10) ∷ out))

pub decimal-IsDigits : (n : ℕ) → IsDigits (decimal n)
unfolding decimal
decimal-IsDigits n = ground (arith, digits-IsDigits (suc n) n [] tt)

-- A number below 10 ^ k has k digits at most.
digits-short :
    (k fuel n : ℕ) (out : Text) → n < 10 ^ k → length (digits fuel n out) ≤ k + length out
unfolding digits
digits-short k zero n out h = omega arith
digits-short zero (suc fuel) n out h = ground arith
digits-short (suc k) (suc fuel) n out h =
    let power : 10 ^ suc k ≡ 10 * 10 ^ k = pow-succ' 10 k in
    let ih = digits-short k fuel (n / 10) ((b'0' + n % 10) ∷ out) (omega (arith, power)) in
    ground (arith, ih)

pub decimal-short : (k n : ℕ) → 0 < n → n < 10 ^ k → length (decimal n) ≤ k
unfolding decimal
decimal-short k n p h = ground (arith, digits-short k (suc n) n [] h)

-- Rounds that are left over do nothing.
digits-rounds : (f g n : ℕ) (out : Text) → n ≤ f → n ≤ g → digits f n out ≡ digits g n out
unfolding digits
digits-rounds zero zero n out h k = refl
digits-rounds zero (suc g) n out h k = ground arith
digits-rounds (suc f) zero n out h k = ground arith
digits-rounds (suc f) (suc g) n out h k =
    ground (arith, digits-rounds f g (n / 10) ((b'0' + n % 10) ∷ out))

-- The first digit of a positive number is not zero.
abbrev pub LeadsNonzero : Text → Type 0
LeadsNonzero [] = ⊥
LeadsNonzero (c ∷ s) = c == b'0' ≡ false

digits-LeadsNonzero : (f n : ℕ) (out : Text) → n ≤ f → 0 < n → LeadsNonzero (digits f n out)
unfolding digits
digits-LeadsNonzero zero n out h p = absurd (omega arith)
digits-LeadsNonzero (suc f) n out h p = ground (
  arith,
  digits-rounds f zero (n / 10) ((b'0' + n % 10) ∷ out),
  digits-LeadsNonzero f (n / 10) ((b'0' + n % 10) ∷ out),
)

pub decimal-LeadsNonzero : (n : ℕ) → 0 < n → LeadsNonzero (decimal n)
unfolding decimal
decimal-LeadsNonzero n p = ground (arith, digits-LeadsNonzero (suc n) n [])

zeros-snoc : (k : ℕ) (out : Text) → zeros k ++ b'0' ∷ out ≡ b'0' ∷ zeros k ++ out
zeros-snoc zero out = refl
zeros-snoc (suc k) out = ap (λ s. b'0' ∷ s) (zeros-snoc k out)

digits-times_ten :
    (f n : ℕ) (out : Text) → 0 < n → digits (suc f) (10 * n) out ≡ digits f n (b'0' ∷ out)
unfolding digits
digits-times_ten f n out h =
    let q : (10 * n) / 10 ≡ n = omega arith in
    let r : (10 * n) % 10 ≡ 0 = omega arith in ground (arith, q, r)

pub power_positive : (k : ℕ) → 0 < 10 ^ k
power_positive zero = omega arith
power_positive (suc k) = omega (arith, pow-succ' 10 k, power_positive k)

digits-power : (k f : ℕ) (out : Text) → 10 ^ k ≤ f → digits f (10 ^ k) out ≡ b'1' ∷ zeros k ++ out
unfolding digits
digits-power zero zero out h = absurd (omega arith)
digits-power zero (suc f) out h =
    ground (arith, digits-rounds f zero 0 (b'1' ∷ out) (omega arith) (omega arith))
digits-power (suc k) zero out h = absurd (omega (arith, power_positive (suc k)))
digits-power (suc k) (suc f) out h =
    let power = pow-succ' 10 k in
    rw power (
      digits-times_ten f (10 ^ k) out (power_positive k)
      ∙ digits-power k f (b'0' ∷ out) (omega (arith, power, power_positive k))
      ∙ ap (λ s. b'1' ∷ s) (zeros-snoc k out))

-- The unit of k decimals.
abbrev pub unit_text : ℕ → Text
unit_text k = b'1' ∷ zeros k

pub decimal-power : (k : ℕ) → decimal (10 ^ k) ≡ unit_text k
unfolding decimal
decimal-power k =
    ground (
      arith,
      power_positive k,
      digits-power k (suc (10 ^ k)) [] (omega arith),
      append-nil (zeros k),
    )

-- Trailing and leading zeros.
pub scan-zeros : (k n : ℕ) → scan (zeros k) n ≡ some (n * 10 ^ k)
unfolding scan
scan-zeros zero n = ap some (omega arith)
scan-zeros (suc k) n =
    let power : 10 ^ suc k ≡ 10 * 10 ^ k = pow-succ' 10 k in
    let regroup : n * 10 * 10 ^ k ≡ n * 10 ^ suc k =
      mul_assoc n 10 (10 ^ k) ∙ ap (λ p. n * p) (sym power) in
    ground (arith, scan-zeros k (n * 10), regroup)

pub scan-leading : (k : ℕ) (s : Text) → scan (zeros k ++ s) 0 ≡ scan s 0
unfolding scan
scan-leading zero s = refl
scan-leading (suc k) s = scan-leading k s
