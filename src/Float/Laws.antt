-- ===== src/Float/Laws.antt =====
-- Numbers of float64: which results are such numbers, and clipping to a range.
use native.Mathlib.Nat.{mul-le-mul}
use qday_pool.Prelude.{
  ℕ, ◌*◌, ◌^◌, ◌≤◌, ◌<◌, ◌≡◌, refl, true, false, leb, arith, Bool-cases, inl, inr, if_both, ◌==◌,
  Bool, ◌&&◌, ◌||◌,
}
use qday_pool.Float.{
  Float, not_a_number, infinite, finite, unit, top, double, rounds, round_to, of_ratio, lt, le,
  fmax, fmin, is_nan, is_negative_inf, is_positive_inf, is_zero, sign_bit,
}
use qday_pool.Float.Rounding.{Fits, round_to-Fits}

-- A float64: a finite one has 53 bits, and is below 2 ^ 1024.
abbrev pub IsFloat : Float → Type 0
IsFloat not_a_number = Unit
IsFloat (infinite s) = Unit
IsFloat (finite s k) = Fits double k × (k < top)

abbrev pub IsFinite : Float → Type 0
IsFinite not_a_number = ⊥
IsFinite (infinite s) = ⊥
IsFinite (finite s k) = Fits double k × (k < top)

pub of_ratio-IsFloat :
    (s : Bool) (n d : ℕ) → 0 < d → n < double * d * 2 ^ rounds → IsFloat (of_ratio s n d)
unfolding of_ratio double
of_ratio-IsFloat s n d p h =
    let k = round_to rounds double n d in
    let fits = round_to-Fits (2 ^ 52) (omega arith) rounds n d p h in
    elim (Bool-cases (leb top k)) [
      | inl large ↦ rw large tt
      | inr small ↦ rw small (fits, ground arith)
    ]

pub mul-bound : (j k : ℕ) → j < top → k < top → j * k < double * unit * 2 ^ rounds
mul-bound j k p q =
    let most : j * k ≤ top * top = mul-le-mul (omega arith) (omega arith) in
    let room : top * top < double * unit * 2 ^ rounds = unfold top double unit in omega arith in
    omega arith

abbrev pub IsWithin : Float → Float → Float → Type 0
IsWithin low high x = (le low x ≡ true) × (le x high ≡ true)

-- The smaller and the larger of two float64 are float64.
pub fmin-IsFloat : (x y : Float) → IsFloat x → IsFloat y → IsFloat (fmin x y)
unfolding fmin
fmin-IsFloat x y p q = if_both IsFloat (is_negative_inf x || is_negative_inf y) tt (
    if_both IsFloat (is_nan x || is_nan y) tt (
      if_both IsFloat (is_zero x && is_zero y) (if_both IsFloat (sign_bit x) p q)
        (if_both IsFloat (lt x y) p q)))

pub fmax-IsFloat : (x y : Float) → IsFloat x → IsFloat y → IsFloat (fmax x y)
unfolding fmax
fmax-IsFloat x y p q = if_both IsFloat (is_positive_inf x || is_positive_inf y) tt (
    if_both IsFloat (is_nan x || is_nan y) tt (
      if_both IsFloat (is_zero x && is_zero y) (if_both IsFloat (sign_bit x) q p)
        (if_both IsFloat (lt y x) p q)))

fmin-le :
    (high x : Float) → IsFinite high → IsFloat x → is_nan x ≡ false → le (fmin high x) high ≡ true
unfolding le lt fmin
fmin-le (finite t b) (finite u c) g h q = ground arith
fmin-le (finite t b) (infinite u) g h q = ground arith
fmin-le (finite t b) not_a_number g h q = cc
fmin-le not_a_number x g h q = elim g [ ]
fmin-le (infinite s) x g h q = elim g [ ]

pub le-fmax :
    (low y : Float) → IsFinite low → IsFloat y → is_nan y ≡ false → le low (fmax low y) ≡ true
unfolding le lt fmax
le-fmax (finite t b) (finite u c) g h q = ground arith
le-fmax (finite t b) (infinite u) g h q = ground arith
le-fmax (finite t b) not_a_number g h q = cc
le-fmax not_a_number x g h q = elim g [ ]
le-fmax (infinite s) x g h q = elim g [ ]

pub fmax-le :
    (low high y : Float)
    → IsFinite low
    → is_nan y ≡ false
    → le low high ≡ true
    → le y high ≡ true
    → le (fmax low y) high ≡ true
unfolding fmax
fmax-le (finite s a) high (finite t b) f n p q =
    let P = λ (z : Float). le z high ≡ true in
    if_both P ((a == 0) && (b == 0)) (if_both P s q p)
      (if_both P (lt (finite t b) (finite s a)) p q)
fmax-le (finite s a) high (infinite false) f n p q = q
fmax-le (finite s a) high (infinite true) f n p q =
    let P = λ (z : Float). le z high ≡ true in
    if_both P ((a == 0) && false) (if_both P s q p)
      (if_both P (lt (infinite true) (finite s a)) p q)
fmax-le (finite s a) high not_a_number f n p q = cc
fmax-le not_a_number high y f n p q = elim f [ ]
fmax-le (infinite s) high y f n p q = elim f [ ]

is_nan-le : (x y : Float) → le x y ≡ true → is_nan x ≡ false
unfolding le
is_nan-le not_a_number y h = cc
is_nan-le (infinite s) y h = refl
is_nan-le (finite s k) y h = refl

pub IsFinite-IsFloat : (x : Float) → IsFinite x → IsFloat x
IsFinite-IsFloat (finite s k) h = h
IsFinite-IsFloat not_a_number h = tt
IsFinite-IsFloat (infinite s) h = tt

-- Clipped to a range of numbers, what is a number lies in the range.
pub clip-IsWithin :
    (low high x : Float)
    → IsFinite low
    → IsFinite high
    → IsFloat x
    → le low high ≡ true
    → is_nan x ≡ false
    → IsWithin low high (fmax low (fmin high x))
clip-IsWithin low high x f g h p q =
    let least = fmin-le high x g h q in
    let number = is_nan-le (fmin high x) high least in
    (
      le-fmax low (fmin high x) f (fmin-IsFloat high x (IsFinite-IsFloat high g) h) number,
      fmax-le low high (fmin high x) f number p least,
    )
