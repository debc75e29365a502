-- ===== src/Float.antt =====
-- What the code uses of float64 and of Go's `math` and `math/big.Float`: IEEE 754 numbers as exact
-- multiples of 2 ^ -1074, the least positive one; every result is the exact one, rounded to the
-- nearest, a tie to even.
pub mod Rounding
pub mod Laws
pub mod Results
use qday_pool.Prelude.{
  ℕ, zero, suc, ◌+◌, ◌-◌, ◌*◌, ◌/◌, ◌%◌, ◌^◌, Bool, true, false, not, ◌&&◌, ◌||◌, ◌==◌, leb, ltb,
  if◌then◌else◌,
}

-- `finite negative k` is k * 2 ^ -1074, or its negation.
pub data Float : Type 0 where
  not_a_number : Float
  infinite : Bool → Float
  finite : Bool → ℕ → Float

-- One, in units of 2 ^ -1074.
unfoldable pub unit : ℕ
unit = 2 ^ 1074

-- 2 ^ 1024, the first number that is too large.
unfoldable pub top : ℕ
top = 2 ^ 2098

-- n / d to the nearest integer, a tie to even.
unfoldable pub nearest : ℕ → ℕ → ℕ
nearest n d =
    if ltb (2 * (n % d)) d
    then n / d
    else if ltb d (2 * (n % d))
    then suc (n / d)
    else if (n / d) % 2 == 0
    then n / d
    else suc (n / d)

-- n / d to a mantissa below `limit`: the quotient is halved until it is below `limit`.
unfoldable pub round_to : ℕ → ℕ → ℕ → ℕ → ℕ
round_to zero limit n d = nearest n d
round_to (suc fuel) limit n d = elim (ltb n (limit * d)) [
  | true ↦ nearest n d
  | false ↦ 2 * round_to fuel limit n (2 * d)
]

-- The limits of the mantissas of float64, and of `big.Float` with `SetPrec(256)`.
unfoldable pub double : ℕ
double = 2 ^ 53

unfoldable pub wide : ℕ
wide = 2 ^ 256

abbrev pub rounds : ℕ
rounds = 4_200

-- n / d units as a float64.
unfoldable pub of_ratio : Bool → ℕ → ℕ → Float
of_ratio negative n d =
    let k = round_to rounds double n d in if leb top k then infinite negative else finite negative k

-- The constant n / d; `float64(n)` at d = 1.
unfoldable pub constant : ℕ → ℕ → Float
constant n d = of_ratio false (n * unit) d

abbrev pub is_nan : Float → Bool
is_nan not_a_number = true
is_nan (infinite s) = false
is_nan (finite s k) = false

abbrev pub is_inf : Float → Bool
is_inf not_a_number = false
is_inf (infinite s) = true
is_inf (finite s k) = false

-- A number is `above` - `below`.
abbrev pub above : Float → ℕ
above not_a_number = 0
above (infinite s) = if s then 0 else top
above (finite s k) = if s then 0 else k

abbrev pub below : Float → ℕ
below not_a_number = 0
below (infinite s) = if s then top else 0
below (finite s k) = if s then k else 0

-- `x < y`, `x <= y`, `x == y`: false of NaN.
unfoldable pub lt : Float → Float → Bool
lt x y = not (is_nan x) && not (is_nan y) && ltb (above x + below y) (above y + below x)

unfoldable pub le : Float → Float → Bool
le x y = not (is_nan x) && not (is_nan y) && leb (above x + below y) (above y + below x)

unfoldable pub eq : Float → Float → Bool
eq x y = not (is_nan x) && not (is_nan y) && (above x + below y == above y + below x)

abbrev pub xor : Bool → Bool → Bool
xor true b = not b
xor false b = b

unfoldable pub abs : Float → Float
abs not_a_number = not_a_number
abs (infinite s) = infinite false
abs (finite s k) = finite false k

unfoldable pub negate : Float → Float
negate not_a_number = not_a_number
negate (infinite s) = infinite (not s)
negate (finite s k) = finite (not s) k

unfoldable pub add : Float → Float → Float
add not_a_number y = not_a_number
add (infinite s) not_a_number = not_a_number
add (infinite s) (infinite t) = if xor s t then not_a_number else infinite s
add (infinite s) (finite t k) = infinite s
add (finite s j) not_a_number = not_a_number
add (finite s j) (infinite t) = infinite t
add (finite s j) (finite t k) =
    if not (xor s t)
    then of_ratio s (j + k) 1
    else if j == k
    then finite false 0
    else if ltb k j
    then of_ratio s (j - k) 1
    else of_ratio t (k - j) 1

unfoldable pub sub : Float → Float → Float
unfolding negate
sub x y = add x (negate y)

unfoldable pub mul : Float → Float → Float
mul not_a_number y = not_a_number
mul (infinite s) not_a_number = not_a_number
mul (infinite s) (infinite t) = infinite (xor s t)
mul (infinite s) (finite t k) = if k == 0 then not_a_number else infinite (xor s t)
mul (finite s j) not_a_number = not_a_number
mul (finite s j) (infinite t) = if j == 0 then not_a_number else infinite (xor s t)
mul (finite s j) (finite t k) = of_ratio (xor s t) (j * k) unit

unfoldable pub div : Float → Float → Float
div not_a_number y = not_a_number
div (infinite s) not_a_number = not_a_number
div (infinite s) (infinite t) = not_a_number
div (infinite s) (finite t k) = infinite (xor s t)
div (finite s j) not_a_number = not_a_number
div (finite s j) (infinite t) = finite (xor s t) 0
div (finite s j) (finite t k) =
    if k == 0
    then if j == 0 then not_a_number else infinite (xor s t)
    else of_ratio (xor s t) (j * unit) k

abbrev pub is_positive_inf : Float → Bool
is_positive_inf (infinite s) = not s
is_positive_inf not_a_number = false
is_positive_inf (finite s k) = false

abbrev pub sign_bit : Float → Bool
sign_bit not_a_number = false
sign_bit (infinite s) = s
sign_bit (finite s k) = s

abbrev pub is_zero : Float → Bool
is_zero not_a_number = false
is_zero (infinite s) = false
is_zero (finite s k) = k == 0

-- `math.Max` and `math.Min`
unfoldable pub fmax : Float → Float → Float
fmax x y =
    if is_positive_inf x || is_positive_inf y
    then infinite false
    else if is_nan x || is_nan y
    then not_a_number
    else if is_zero x && is_zero y
    then if sign_bit x then y else x
    else if lt y x
    then x
    else y

abbrev pub is_negative_inf : Float → Bool
is_negative_inf (infinite s) = s
is_negative_inf not_a_number = false
is_negative_inf (finite s k) = false

unfoldable pub fmin : Float → Float → Float
fmin x y =
    if is_negative_inf x || is_negative_inf y
    then infinite true
    else if is_nan x || is_nan y
    then not_a_number
    else if is_zero x && is_zero y
    then if sign_bit x then x else y
    else if lt x y
    then x
    else y
