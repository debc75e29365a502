-- ===== src/Stratum/Work/Difficulty/Targets.antt =====
-- The target of a difficulty below that of another target.
use native.Mathlib.Nat.{mul-le-mul_right, mul_comm, mul_right_comm}
use native.Mathlib.Decide.{dec_lt}
use qday_pool.Prelude.{
  ℕ, zero, suc, ◌-◌, ◌*◌, ◌/◌, ◌^◌, ◌≤◌, ◌<◌, ◌≡◌, refl, true, false, ◌==◌, some, ltb, min,
  if◌then◌else◌, arith, Bool-cases, inl, inr, length, ltb→lt,
}
use qday_pool.Float.{Float, finite, unit, top, double, wide, rounds, round_to, lt}
use qday_pool.Float.Results.{doubled, Fits-doubled}
use qday_pool.Float.Rounding.{
  Fits, below, twice, below_cases, le-round_to, round_to-le, div-le, round_to-Fits,
}
use qday_pool.Float.Laws.{IsFinite}
use qday_pool.Stratum.Bytes.{Bytes, big_endian, put_big_endian}
use qday_pool.Stratum.Bytes.Laws.{IsBytes, big_endian-bounded, big_endian-put}
use qday_pool.Stratum.Work.Difficulty.{
  difficulty_one_target, next_up, round_up, ratio_of, target_difficulty, quotient_of,
  target_for_difficulty,
}

Fits-wide : (k : ℕ) → Fits double k → Fits wide k
Fits-wide k (below _ p) = below k (unfold double wide in omega arith)
Fits-wide k (twice h _ f e) = twice h k (Fits-wide h f) e

-- A number that the mantissa holds is not above `k`, or it is not below the next one.
next_up-le :
    (half : ℕ)
    → 0 < half
    → (fuel k d : ℕ) → Fits (2 * half) d
    → k < d
    → next_up fuel (2 * half) k ≤ d
unfolding next_up
next_up-le half p zero k d f h = h
next_up-le half p (suc fuel) k d f h = elim (Bool-cases (ltb k (2 * half))) [
  | inl small ↦ ground arith
  | inr large ↦ elim (below_cases half p d f) [
    | inl less ↦ absurd (ground arith)
    | inr (c, g, e) ↦ ground (arith, next_up-le half p fuel (k / 2) c g (omega arith))
  ]
]

-- A float64 below the rounded ratio is below the ratio.
below_round_up : (d r : ℕ) → Fits double d → d < round_up r → d < r
unfolding round_up double
below_round_up d r f h =
    let k = round_to rounds double r 1 in
    elim (Bool-cases (ltb k r)) [
      | inl less ↦
          let h' : d < next_up rounds double k = ground (arith, h, less) in
          elim (dec_lt k d) [
            | yes above ↦
                absurd (omega (arith, next_up-le (2 ^ 52) (omega arith) rounds k d f above))
            | no upto ↦ omega (arith, upto, ltb→lt k r less)
          ]
      | inr reached ↦ elim (dec_lt d r) [
        | yes done ↦ done
        | no more ↦
            let most =
              round_to-le (2 ^ 52) (omega arith) rounds d r 1 (omega arith) f (omega arith) in
            absurd (ground (arith, h, reached, most))
      ]
    ]

below_ratio_of :
    (d t : ℕ) → 0 < t → Fits double d → d < ratio_of t → d * t < difficulty_one_target * unit
unfolding ratio_of wide
below_ratio_of d t p f h = elim (dec_lt (d * t) (difficulty_one_target * unit)) [
  | yes done ↦ done
  | no more ↦
      let most =
        round_to-le (2 ^ 255) (omega arith) rounds d (difficulty_one_target * unit) t p
          (Fits-wide d f) (omega arith) in
      absurd (omega (arith, most))
]

le-quotient_of :
    (d t : ℕ) → 0 < d → t < wide → d * t ≤ difficulty_one_target * unit → t ≤ quotient_of d
unfolding quotient_of wide
le-quotient_of d t p small h =
    let fits : Fits wide (t * unit) = unfold unit in Fits-doubled wide 1_074 t (below t small) in
    let scaled : t * unit * d ≤ difficulty_one_target * unit * unit =
      rw (mul_right_comm t unit d, mul_comm t d) (mul-le-mul_right unit h) in
    div-le t _ unit (unfold unit in omega arith) (
      le-round_to (2 ^ 255) (omega arith) rounds (t * unit) (difficulty_one_target * unit * unit) d
        p fits scaled)

-- What a difficulty of a target is.
pub target_difficulty-inv :
    (target : Bytes) (nd : Float)
    → target_difficulty target ≡ some nd
    → (nd ≡ finite false (round_up (ratio_of (big_endian target 0))))
      × (0 < big_endian target 0)
      × (0 < round_up (ratio_of (big_endian target 0)))
      × (round_up (ratio_of (big_endian target 0)) < top)
unfolding target_difficulty
target_difficulty-inv target nd h = ground arith

abbrev pub chosen_value : ℕ → ℕ
chosen_value d = min (if quotient_of d == 0 then 1 else quotient_of d) (2 ^ 256 - 1)

pub target_for_difficulty-inv :
    (d : ℕ) (share : Bytes)
    → target_for_difficulty (finite false d) ≡ some share
    → (share ≡ put_big_endian 32 (chosen_value d)) × (0 < d)
unfolding target_for_difficulty
target_for_difficulty-inv d share h = ground arith

big_endian-chosen : (d : ℕ) → big_endian (put_big_endian 32 (chosen_value d)) 0 ≡ chosen_value d
big_endian-chosen d = big_endian-put 32 (chosen_value d) (omega arith)

-- A float64 below the difficulty of a target is the difficulty of a target that is not lower.
pub target-le-share :
    (target share : Bytes) (d : ℕ) (nd : Float)
    → IsBytes target
    → length target ≡ 32
    → target_difficulty target ≡ some nd
    → target_for_difficulty (finite false d) ≡ some share
    → Fits double d
    → lt (finite false d) nd ≡ true
    → big_endian target 0 ≤ big_endian share 0
target-le-share target share d nd bytes size read chosen fits easier =
    let t : ℕ = big_endian target 0 in
    let (is_nd, positive, _, _) = target_difficulty-inv target nd read in
    let (is_share, some_d) = target_for_difficulty-inv d share chosen in
    let lower : d < round_up (ratio_of t) = unfold lt in ground (arith, easier, is_nd) in
    let small : t < 2 ^ 256 =
      omega (arith, rw size at (big_endian-bounded target 0 1 bytes (omega arith))) in
    let ratio = below_ratio_of d t positive fits (below_round_up d (ratio_of t) fits lower) in
    let reach = le-quotient_of d t some_d (unfold wide in small) (omega (arith, ratio)) in
    let value : t ≤ chosen_value d = ground (arith, reach, positive, small) in
    rw is_share (omega (arith, big_endian-chosen d, value))

suc-Fits : (half : ℕ) → 0 < half → (k : ℕ) → k < 2 * half → Fits (2 * half) (suc k)
suc-Fits half p k h = elim (dec_lt (suc k) (2 * half)) [
  | yes less ↦ below (suc k) less
  | no more ↦ twice half (suc k) (below half (omega arith)) (omega arith)
]

le-mul_right : (n t : ℕ) → 0 < t → n ≤ n * t
le-mul_right n t p = grind arith

next_up-Fits :
    (half : ℕ)
    → 0 < half
    → (fuel k : ℕ) → k < 2 * half * 2 ^ fuel
    → Fits (2 * half) (next_up fuel (2 * half) k)
unfolding next_up
next_up-Fits half p zero k h = suc-Fits half p k (omega arith)
next_up-Fits half p (suc fuel) k h = elim (Bool-cases (ltb k (2 * half))) [
  | inl small ↦ rw (small, next_up) (suc-Fits half p k (ltb→lt k (2 * half) small))
  | inr large ↦
      let less : k / 2 < 2 * half * 2 ^ fuel = omega (arith, doubled fuel (2 * half), h) in
      rw (large, next_up)
        (twice (next_up fuel (2 * half) (k / 2)) _ (next_up-Fits half p fuel (k / 2) less) refl)
]

ratio_of-le : (t : ℕ) → 0 < t → ratio_of t ≤ difficulty_one_target * unit
unfolding ratio_of wide
ratio_of-le t p =
    let fits : Fits wide (difficulty_one_target * unit) =
      unfold unit in
      Fits-doubled wide 1_074 difficulty_one_target
        (below difficulty_one_target (unfold wide difficulty_one_target in omega arith)) in
    round_to-le (2 ^ 255) (omega arith) rounds (difficulty_one_target * unit)
      (difficulty_one_target * unit) t p fits (le-mul_right (difficulty_one_target * unit) t p)

round_up-Fits : (t : ℕ) → 0 < t → Fits double (round_up (ratio_of t))
unfolding round_up double
round_up-Fits t p =
    let k = round_to rounds double (ratio_of t) 1 in
    let small : ratio_of t < 2 ^ 1_400 =
      unfold unit difficulty_one_target in omega (arith, ratio_of-le t p) in
    let fits : Fits (2 * 2 ^ 52) k =
      round_to-Fits (2 ^ 52) (omega arith) rounds (ratio_of t) 1 (omega arith)
        (omega (arith, small)) in
    elim (Bool-cases (ltb k (ratio_of t))) [
      | inl less ↦ rw less (
          next_up-Fits (2 ^ 52) (omega arith) rounds k
            (omega (arith, small, ltb→lt k (ratio_of t) less)))
      | inr reached ↦ rw reached fits
    ]

-- The difficulty of a target is a positive float64.
pub target_difficulty-IsFinite :
    (target : Bytes) (nd : Float) → target_difficulty target ≡ some nd → IsFinite nd
target_difficulty-IsFinite target nd h =
    let (is_nd, positive, _, small) = target_difficulty-inv target nd h in
    rw is_nd (round_up-Fits (big_endian target 0) positive, small)
