-- ===== src/Store/Split/Exact.antt =====
-- The allocations of the division and the exact shares.
use qday_pool.Prelude.{ℕ, ◌+◌, ◌-◌, ◌*◌, ◌≤◌, ◌<◌, ◌≡◌, ap, List, [], ◌∷◌, arith, length, sum_of}
use mathlib.Core.Path.{subst}
use qday_pool.Prelude.Sort.{sort_slice, sort_slice-sum, sort_slice-length}
use qday_pool.Store.Totals.{Totals, grand_total}
use qday_pool.Store.Split.{Weighted, weigh_all, by_remainder, by_address, amounts, split_reward}
use qday_pool.Store.Split.Raise.{raise, hand_out-raise, amounts-raise}

quotient_le : (d s q r : ℕ) → 0 < s → d * s ≡ s * q + r → q ≤ d
quotient_le d s q r h e = grind arith

rest_le : (x s n r : ℕ) → 0 < s → s * x ≡ r → r + n ≤ n * s → x ≤ n
rest_le x s n r h e k = grind arith

difference : (d s q r : ℕ) → d * s ≡ s * q + r → q ≤ d → s * (d - q) ≡ r
difference d s q r e h = grind arith

abbrev pub remainders : List Weighted → ℕ
remainders = sum_of (λ e. e.remainder)

module _ (distributable selected : ℕ) where
  -- Quotients and remainders make up the numerators.
  quotients_remainders :
      (m : Totals)
      → let es = weigh_all distributable selected m in
        distributable * grand_total m ≡ selected * amounts es + remainders es
  quotients_remainders [] = omega arith
  quotients_remainders ((a, w) ∷ m) = grind (arith, quotients_remainders m)

  remainders-le :
      (m : Totals)
      → 0 < selected
      → let es = weigh_all distributable selected m in
        remainders es + length es ≤ length es * selected
  remainders-le [] h = omega arith
  remainders-le ((a, w) ∷ m) h = omega (arith, remainders-le m h)

  -- The atoms left after the quotients, and that they are fewer than the entries.
  pub left_lem :
      (m : Totals)
      → 0 < selected
      → grand_total m ≡ selected
      → let es = weigh_all distributable selected m in
        (amounts es ≤ distributable)
        × (distributable - amounts es ≤ length es)
        × (selected * (distributable - amounts es) ≡ remainders es)
  left_lem m h g =
      let es = weigh_all distributable selected m in
      let e : distributable * selected ≡ selected * amounts es + remainders es =
        subst (λ t. distributable * t ≡ selected * amounts es + remainders es) g
          (quotients_remainders m) in
      let le : amounts es ≤ distributable =
        quotient_le distributable selected (amounts es) (remainders es) h e in
      let rest : selected * (distributable - amounts es) ≡ remainders es =
        difference distributable selected (amounts es) (remainders es) e le in
      (
        le,
        rest_le (distributable - amounts es) selected (length es) (remainders es) h rest
            (remainders-le m h),
        rest,
      )

  -- With positive work the round-robin loop serves the largest remainders.
  pub split_reward-raise :
      (m : Totals)
      → 0 < selected
      → grand_total m ≡ selected
      → let es = weigh_all distributable selected m in
        split_reward distributable selected m
        ≡ sort_slice by_address (raise (distributable - amounts es) (sort_slice by_remainder es))
  unfolding split_reward
  split_reward-raise m h g =
      let es = weigh_all distributable selected m in
      let (le, few, rest) = left_lem m h g in
      ap (sort_slice by_address) (
        hand_out-raise (distributable - amounts es) (sort_slice by_remainder es)
          (omega (arith, sort_slice-length by_remainder es)))

  -- The amounts sum to the distributable value, to the atom.
  pub amounts-split_reward :
      (m : Totals)
      → 0 < selected
      → grand_total m ≡ selected
      → amounts (split_reward distributable selected m) ≡ distributable
  amounts-split_reward m h g =
      let es = weigh_all distributable selected m in
      let left = distributable - amounts es in
      let sorted = sort_slice by_remainder es in
      let (le, few, rest) = left_lem m h g in
      rw (split_reward-raise m h g) (
        omega (
          arith,
          sort_slice-sum by_address (λ e. e.amount) (raise left sorted),
          amounts-raise left sorted (omega (arith, sort_slice-length by_remainder es)),
          sort_slice-sum by_remainder (λ e. e.amount) es,
        ))
