-- ===== src/Float/Rounding.antt =====
-- Rounding against the numbers that a mantissa holds.
use native.Mathlib.Nat.{
  le-div_iff_mul-le, div-mul-le_self, mul-le-mul_right, mul-div_cancel, mul-mod_left, pow-succ',
  mul_assoc, mul_left_comm,
}
use native.Mathlib.Decide.{dec_lt}
use qday_pool.Prelude.{
  ℕ, zero, suc, ◌*◌, ◌/◌, ◌^◌, ◌≤◌, ◌<◌, ◌≡◌, refl, true, false, ltb, arith, Bool-cases, inl, inr,
  ltb→lt, ◌⊎◌, ap,
}
use qday_pool.Float.{nearest, round_to}

-- A mantissa below `limit`, doubled some times.
pub data Fits (limit : ℕ) : ℕ → Type 0 where
  below : (k : ℕ) → k < limit → Fits limit k
  twice : (h k : ℕ) → Fits limit h → k ≡ 2 * h → Fits limit k

nearest-floor : (n d : ℕ) → n / d ≤ nearest n d
unfolding nearest
nearest-floor n d = ground arith

nearest-ceil : (n d : ℕ) → nearest n d ≤ suc (n / d)
unfolding nearest
nearest-ceil n d = ground arith

nearest-exact : (k d : ℕ) → 0 < d → nearest (k * d) d ≡ k
unfolding nearest
nearest-exact k d p = rw (mul-mod_left k d, mul-div_cancel k p) (ground arith)

pub div-le : (k n d : ℕ) → 0 < d → k * d ≤ n → k ≤ n / d
div-le k n d p h = (le-div_iff_mul-le {k = d} {x = k} {y = n} p).1 h

nearest-le : (k n d : ℕ) → 0 < d → n ≤ k * d → nearest n d ≤ k
nearest-le k n d p h = elim (dec_lt (n / d) k) [
  | yes less ↦ omega (arith, nearest-ceil n d)
  | no more ↦
      let high : k * d ≤ n / d * d = mul-le-mul_right d (omega arith) in
      let same : n ≡ k * d = omega (arith, div-mul-le_self n d) in
      rw same (omega (arith, nearest-exact k d p))
]

round_to-last :
    (fuel limit n d : ℕ) → ltb n (limit * d) ≡ true → round_to (suc fuel) limit n d ≡ nearest n d
unfolding round_to
round_to-last fuel limit n d h = ground arith

round_to-halve :
    (fuel limit n d : ℕ)
    → ltb n (limit * d) ≡ false
    → round_to (suc fuel) limit n d ≡ 2 * round_to fuel limit n (2 * d)
unfolding round_to
round_to-halve fuel limit n d h = ground arith

shift : (c d : ℕ) → 2 * c * d ≡ c * (2 * d)
shift c d = grind arith

halve_bound : (fuel n limit d : ℕ) → n < limit * d * 2 ^ suc fuel → n < limit * (2 * d) * 2 ^ fuel
halve_bound fuel n limit d h =
    let regroup : limit * d * (2 * 2 ^ fuel) ≡ limit * (2 * d) * 2 ^ fuel =
      rw (mul_assoc limit d, mul_assoc limit (2 * d), mul_left_comm d 2, mul_assoc 2 d) refl in
    let h' = rw (pow-succ' 2 fuel) at h in omega (arith, regroup)

module _ (half : ℕ) (some_bit : 0 < half) where
  pub below_cases :
      (k : ℕ) → Fits (2 * half) k → (k < 2 * half) ⊎ ((h : ℕ) × Fits (2 * half) h × (k ≡ 2 * h))
  below_cases k (below _ p) = inl p
  below_cases k (twice h _ f e) = inr (h, f, e)

  -- A number that the mantissa holds is not rounded past from above.
  pub le-round_to :
      (fuel k n d : ℕ) → 0 < d → Fits (2 * half) k → k * d ≤ n → k ≤ round_to fuel (2 * half) n d
  le-round_to zero k n d p f h =
      unfold round_to in omega (arith, div-le k n d p h, nearest-floor n d)
  le-round_to (suc fuel) k n d p f h = elim (Bool-cases (ltb n (2 * half * d))) [
    | inl small ↦
        omega (arith, round_to-last fuel (2 * half) n d small, div-le k n d p h, nearest-floor n d)
    | inr large ↦
        let step = round_to-halve fuel (2 * half) n d large in
        elim (below_cases k f) [
          | inl less ↦
              let c : ℕ = suc k / 2 in
              let wide : (2 * c) * d ≤ (2 * half) * d = mul-le-mul_right d (omega arith) in
              let reach : c * (2 * d) ≤ n = ground (arith, shift c d) in
              omega (
                arith,
                step,
                le-round_to fuel c n (2 * d) (omega arith) (below c (omega arith)) reach,
              )
          | inr (c, g, e) ↦
              let reach : c * (2 * d) ≤ n = omega (arith, shift c d, ap (λ (t : ℕ). t * d) e) in
              omega (arith, step, le-round_to fuel c n (2 * d) (omega arith) g reach)
        ]
  ]

  -- Nor from below.
  pub round_to-le :
      (fuel k n d : ℕ) → 0 < d → Fits (2 * half) k → n ≤ k * d → round_to fuel (2 * half) n d ≤ k
  round_to-le zero k n d p f h = unfold round_to in nearest-le k n d p h
  round_to-le (suc fuel) k n d p f h = elim (Bool-cases (ltb n (2 * half * d))) [
    | inl small ↦ omega (arith, round_to-last fuel (2 * half) n d small, nearest-le k n d p h)
    | inr large ↦
        let step = round_to-halve fuel (2 * half) n d large in
        elim (below_cases k f) [
          | inl less ↦
              let narrow : suc k * d ≤ (2 * half) * d = mul-le-mul_right d (omega arith) in
              let reach : (2 * half) * d ≤ n = ground arith in absurd (grind arith)
          | inr (c, g, e) ↦
              let reach : n ≤ c * (2 * d) = omega (arith, shift c d, ap (λ (t : ℕ). t * d) e) in
              omega (arith, step, round_to-le fuel c n (2 * d) (omega arith) g reach)
        ]
  ]

  nearest-Fits : (n d : ℕ) → 0 < d → n < 2 * half * d → Fits (2 * half) (nearest n d)
  nearest-Fits n d p h =
      let most = nearest-le (2 * half) n d p (omega arith) in
      elim (dec_lt (nearest n d) (2 * half)) [
        | yes less ↦ below (nearest n d) less
        | no more ↦ twice half (nearest n d) (below half (omega arith)) (omega arith)
      ]

  -- With enough rounds, the result is a number that the mantissa holds.
  pub round_to-Fits :
      (fuel n d : ℕ)
      → 0 < d
      → n < 2 * half * d * 2 ^ fuel
      → Fits (2 * half) (round_to fuel (2 * half) n d)
  round_to-Fits zero n d p h = unfold round_to in nearest-Fits n d p (omega arith)
  round_to-Fits (suc fuel) n d p h = elim (Bool-cases (ltb n (2 * half * d))) [
    | inl small ↦
        rw (round_to-last fuel (2 * half) n d small)
          (nearest-Fits n d p (ltb→lt n (2 * half * d) small))
    | inr large ↦
        let rest = round_to-Fits fuel n (2 * d) (omega arith) (halve_bound fuel n (2 * half) d h) in
        twice (round_to fuel (2 * half) n (2 * d)) (round_to (suc fuel) (2 * half) n d) rest
          (round_to-halve fuel (2 * half) n d large)
  ]
