-- ===== src/Stratum/Work/Difficulty.antt =====
-- `targetDifficulty` and `targetForDifficulty`: from targets to difficulties and back.
pub mod Targets
use qday_pool.Prelude.{
  ℕ, zero, suc, ◌+◌, ◌-◌, ◌*◌, ◌/◌, ◌%◌, ◌^◌, Bool, true, false, ◌==◌, Option, none, some, leb, ltb,
  min, if◌then◌else◌,
}
use qday_pool.Float.{
  Float, not_a_number, infinite, finite, unit, top, double, wide, rounds, round_to,
}
use qday_pool.Stratum.Bytes.{Bytes, big_endian, put_big_endian}

-- 0x00000000ffff0000…, the target of difficulty one.
unfoldable pub difficulty_one_target : ℕ
difficulty_one_target = 65_535 * 2 ^ 208

-- `math.Nextafter(x, +Inf)` of a positive number: the next one that a mantissa below `limit` holds.
unfoldable pub next_up : ℕ → ℕ → ℕ → ℕ
next_up zero limit k = suc k
next_up (suc fuel) limit k = elim (ltb k limit) [
  | true ↦ suc k
  | false ↦ 2 * next_up fuel limit (k / 2)
]

-- `ratio.Float64()`, and the next number where that is below `ratio`.
unfoldable pub round_up : ℕ → ℕ
round_up ratio =
    let k = round_to rounds double ratio 1 in if ltb k ratio then next_up rounds double k else k

-- The quotient of `big.Float`, of 256 bits.
unfoldable pub ratio_of : ℕ → ℕ
ratio_of t = round_to rounds wide (difficulty_one_target * unit) t

-- `targetDifficulty`; `none` is its errors.
unfoldable pub target_difficulty : Bytes → Option Float
target_difficulty target =
    let t = big_endian target 0 in
    let k = round_up (ratio_of t) in
    if t == 0
    then none
    else if k == 0
    then none
    else if leb top k
    then none
    else some (finite false k)

-- The quotient of `big.Float`, and its integer part.
unfoldable pub quotient_of : ℕ → ℕ
quotient_of d = round_to rounds wide (difficulty_one_target * unit * unit) d / unit

-- `targetForDifficulty`; `none` is its error.
unfoldable pub target_for_difficulty : Float → Option Bytes
target_for_difficulty not_a_number = none
target_for_difficulty (infinite s) = none
target_for_difficulty (finite true d) = none
target_for_difficulty (finite false d) =
    let value = quotient_of d in
    let target = put_big_endian 32 (min (if value == 0 then 1 else value) (2 ^ 256 - 1)) in
    if d == 0 then none else some target
