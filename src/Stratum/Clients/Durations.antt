-- ===== src/Stratum/Clients/Durations.antt =====
-- `Duration.Seconds` of a positive duration.
use native.Mathlib.Nat.{mul-le-mul_right}
use native.Mathlib.Decide.{dec_lt}
use qday_pool.Prelude.{ℕ, ◌+◌, ◌*◌, ◌/◌, ◌%◌, ◌^◌, ◌≤◌, ◌<◌, ◌≡◌, refl, false, arith, ◌==◌}
use qday_pool.Float.{finite, unit, top, double, of_ratio, constant, add, div, round_to, nearest}
use qday_pool.Float.Rounding.{Fits}
use qday_pool.Float.Results.{of_ratio-finite, constant-finite, Fits-doubled, one-Fits}
use qday_pool.Stratum.Config.{second}
use qday_pool.Stratum.Clients.{seconds, longest}

billion : constant second 1 ≡ finite false (second * unit)
unfolding constant of_ratio round_to nearest unit double top
billion = refl

unit-Fits : Fits double unit
unit-Fits = unfold unit in Fits-doubled double 1_074 1 one-Fits

nonzero_div :
    (j k : ℕ)
    → of_ratio false (j * unit) (second * unit) ≡ finite false k
    → div (finite false j) (finite false (second * unit)) ≡ finite false k
unfolding div
nonzero_div j k h = let nonzero : (second * unit == 0) ≡ false = unfold unit in refl in rw nonzero h

-- The fraction of a second.
fraction :
    (n : ℕ)
    → n < second
    → (k : ℕ) × (div (constant n 1) (constant second 1) ≡ finite false k)
      × (k ≤ 2 ^ 1_138)
      × (0 < n → 0 < k)
fraction n h =
    let (j, is_j, _, small, least) = constant-finite n 1 (omega arith) (omega arith) in
    let some_unit : 0 < unit = unfold unit in omega arith in
    let wide : j * unit ≤ 2 ^ 1_138 * (second * unit) = unfold unit in omega (arith, small) in
    let (k, is_k, _, low, reach) =
      of_ratio-finite false (j * unit) (second * unit) (2 ^ 1_138) (omega (arith, some_unit))
        (Fits-doubled double 1_138 1 one-Fits) (unfold top in omega arith) wide in
    (
      k,
      rw (is_j, billion) (nonzero_div j k is_k),
      low,
      λ (some_n : 0 < n).
          let least_j : unit ≤ j =
            least unit unit-Fits (omega (arith, mul-le-mul_right unit some_n)) in
          let full : second * unit ≤ j * unit =
            mul-le-mul_right unit (unfold unit in omega (arith, least_j)) in
          reach 1 one-Fits (omega (arith, full)),
    )

pub seconds_lem :
    (d : ℕ)
    → 0 < d
    → d ≤ longest
    → (r : ℕ) × (seconds d ≡ finite false r) × Fits double r × (r < top) × (0 < r)
unfolding seconds
seconds_lem d p h =
    let (j, is_j, _, small, least) = constant-finite (d / second) 1 (omega arith) (omega arith) in
    let (k, is_k, low, some_k) = fraction (d % second) (omega arith) in
    let (r, is_r, fits, small_r, reach) =
      of_ratio-finite false (j + k) 1 (2 ^ 1_139) (omega arith)
        (Fits-doubled double 1_139 1 one-Fits) (unfold top in omega arith)
        (omega (arith, small, low)) in
    let some_r : 0 < j + k = elim (dec_lt 0 (d % second)) [
      | yes part ↦ omega (arith, some_k part)
      | no whole ↦
          let some_j : 1 ≤ j = least 1 one-Fits (unfold unit in omega arith) in
          omega (arith, some_j)
    ] in
    (
      r,
      rw (is_j, is_k) (unfold add in is_r),
      fits,
      unfold top in omega (arith, small_r),
      reach 1 one-Fits (omega (arith, some_r)),
    )
