-- ===== src/Float/Results.antt =====
-- Which results of the operations are numbers.
use native.Mathlib.Nat.{mul-le-mul_right, mul-le-mul_left, mul_right_comm, mul-one, pow-succ'}
use qday_pool.Prelude.{ℕ, zero, suc, ◌*◌, ◌^◌, ◌≤◌, ◌<◌, ◌≡◌, refl, false, arith, ◌==◌, Bool}
use qday_pool.Float.{
  Float, not_a_number, infinite, finite, unit, top, double, rounds, round_to, of_ratio, constant,
  mul, div, is_nan, xor,
}
use qday_pool.Float.Rounding.{Fits, below, twice, round_to-Fits, round_to-le, le-round_to}
use qday_pool.Float.Laws.{IsFloat, IsFinite, of_ratio-IsFloat, mul-bound}

pub doubled : (n k : ℕ) → k * 2 ^ suc n ≡ 2 * (k * 2 ^ n)
doubled n k = rw (pow-succ' 2 n) (grind arith)

pub Fits-doubled : (limit n k : ℕ) → Fits limit k → Fits limit (k * 2 ^ n)
Fits-doubled limit zero k f = rw (mul-one k) f
Fits-doubled limit (suc n) k f =
    twice (k * 2 ^ n) (k * 2 ^ suc n) (Fits-doubled limit n k f) (doubled n k)

room : (n d k : ℕ) → 0 < d → k < top → n ≤ k * d → n < double * d * 2 ^ rounds
room n d k p small h =
    let most : suc k * d ≤ double * 2 ^ rounds * d =
      mul-le-mul_right d (unfold top double in omega (arith, small)) in
    rw (mul_right_comm double d (2 ^ rounds)) (omega (arith, most))

below_top :
    (s : Bool) (n d : ℕ)
    → round_to rounds double n d < top
    → of_ratio s n d ≡ finite s (round_to rounds double n d)
unfolding of_ratio
below_top s n d h = ground arith

-- A result is between the float64 that the exact one is between.
pub of_ratio-finite :
    (s : Bool) (n d k : ℕ)
    → 0 < d
    → Fits double k
    → k < top
    → n ≤ k * d
    → (r : ℕ) × (of_ratio s n d ≡ finite s r)
      × Fits double r
      × (r ≤ k)
      × ((m : ℕ) → Fits double m → m * d ≤ n → m ≤ r)
of_ratio-finite s n d k p f small h =
    let r = round_to rounds double n d in
    let most : r ≤ k = unfold double in round_to-le (2 ^ 52) (omega arith) rounds k n d p f h in
    let fits : Fits double r =
      unfold double in round_to-Fits (2 ^ 52) (omega arith) rounds n d p (room n d k p small h) in
    let least = λ (m : ℕ) (g : Fits double m) (l : m * d ≤ n).
      let a : m ≤ r = unfold double in le-round_to (2 ^ 52) (omega arith) rounds m n d p g l in a in
    (r, below_top s n d (omega arith), fits, most, least)

of_ratio-number : (s : Bool) (n d : ℕ) → is_nan (of_ratio s n d) ≡ false
unfolding of_ratio
of_ratio-number s n d = ground arith

unit_pos : 0 < unit
unit_pos = unfold unit in omega arith

pub mul-IsNumber :
    (x y : Float) → IsFinite x → IsFinite y → IsFloat (mul x y) × (is_nan (mul x y) ≡ false)
unfolding mul
mul-IsNumber (finite s j) (finite t k) (_, p) (_, q) = (
  of_ratio-IsFloat (xor s t) (j * k) unit unit_pos (mul-bound j k p q),
  of_ratio-number (xor s t) (j * k) unit,
)
mul-IsNumber not_a_number y p q = elim p [ ]
mul-IsNumber (infinite s) y p q = elim p [ ]
mul-IsNumber (finite s j) not_a_number p q = elim q [ ]
mul-IsNumber (finite s j) (infinite t) p q = elim q [ ]

-- A quotient by a positive number.
pub div-IsNumber :
    (x : Float) (k : ℕ)
    → IsFloat x
    → is_nan x ≡ false
    → 0 < k
    → k < top
    → IsFloat (div x (finite false k)) × (is_nan (div x (finite false k)) ≡ false)
unfolding div
div-IsNumber not_a_number k f h p q = absurd (cc)
div-IsNumber (infinite s) k f h p q = (tt, refl)
div-IsNumber (finite s j) k (_, small) h p q =
    let scaled : j * unit ≤ top * unit = mul-le-mul_right unit (omega arith) in
    let large : top * unit < double * 2 ^ rounds = unfold top double unit in omega arith in
    let more : double * 2 ^ rounds * 1 ≤ double * 2 ^ rounds * k =
      mul-le-mul_left (double * 2 ^ rounds) p in
    let bound : j * unit < double * k * 2 ^ rounds =
      rw (mul_right_comm double k (2 ^ rounds)) (omega (arith, scaled, large, more)) in
    let good = of_ratio-IsFloat (xor s false) (j * unit) k p bound in
    let number = of_ratio-number (xor s false) (j * unit) k in
    let nonzero : (k == 0) ≡ false = ground arith in rw nonzero (good, number)

pub one-Fits : Fits double 1
one-Fits = unfold double in below 1 (omega arith)

-- A quotient of a number below 2 ^ 64.
pub constant-finite :
    (n d : ℕ)
    → n < 2 ^ 64
    → 0 < d
    → (r : ℕ) × (constant n d ≡ finite false r)
      × Fits double r
      × (r ≤ 2 ^ 1_138)
      × ((m : ℕ) → Fits double m → m * d ≤ n * unit → m ≤ r)
unfolding constant
constant-finite n d h p =
    let fits : Fits double (2 ^ 1_138) = Fits-doubled double 1_138 1 one-Fits in
    let small : 2 ^ 1_138 < top = unfold top in omega arith in
    let a : n * unit ≤ 2 ^ 1_138 * 1 = unfold unit in omega (arith, h) in
    let b : 2 ^ 1_138 * 1 ≤ 2 ^ 1_138 * d = mul-le-mul_left (2 ^ 1_138) p in
    of_ratio-finite false (n * unit) d (2 ^ 1_138) p fits small (omega (arith, a, b))
