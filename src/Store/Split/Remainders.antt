-- ===== src/Store/Split/Remainders.antt =====
-- `splitReward`: atoms handed out by the remainders, and the exact share of an entry.
use mathlib.Core.Path.{subst}
use native.Mathlib.Decide.{dec_lt}
use qday_pool.Prelude.{
  ℕ, zero, suc, ◌+◌, ◌*◌, ◌/◌, ◌%◌, ◌≤◌, ◌<◌, ◌≡◌, refl, true, false, List, [], ◌∷◌, arith, All,
  All-map, All-both, All-of, text_lt_asymm, text_lt_cotrans,
}
use qday_pool.Prelude.Sort.{IsSorted}
use qday_pool.Store.Totals.{Totals}
use qday_pool.Store.Split.{Weighted, weigh_all, by_remainder}
use qday_pool.Store.Split.Raise.{raise}
use qday_pool.Store.Split.Exact.{remainders}

pub by_remainder_asymm : (i j : Weighted) → by_remainder i j ≡ true → by_remainder j i ≡ false
by_remainder_asymm i j h = ground (arith, text_lt_asymm i.address j.address)

pub by_remainder_cotrans :
    (i j k : Weighted)
    → by_remainder j i ≡ false
    → by_remainder k j ≡ false
    → by_remainder k i ≡ false
by_remainder_cotrans i j k h l = ground (arith, text_lt_cotrans i.address j.address k.address)

-- `raise` adds to an amount or leaves an entry alone.
pub raise-All {κ} :
    {P Q : Weighted → Type κ}
    → ((e : Weighted) → P e → Q e)
    → ((e : Weighted) → P e → Q (record e { amount = e.amount + 1 }))
    → (k : ℕ) (es : List Weighted) → All P es
    → All Q (raise k es)
unfolding raise
raise-All f g zero es h = All-map f es h
raise-All f g (suc k) [] h = tt
raise-All f g (suc k) (e ∷ es) (p, h) = (g e p, raise-All f g k es h)

division : (n s : ℕ) → 0 < s → (n ≡ s * (n / s) + n % s) × (n % s < s)
division n s h = ground arith

rounded_down : (n s a : ℕ) → 0 < s → a ≡ n / s → (s * a < n + s) × (n < s * a + s)
rounded_down n s a h e = rw e (omega (arith, division n s h))

rounded_up :
    (n s a : ℕ) → 0 < s → a ≡ n / s → 0 < n % s → (s * (a + 1) < n + s) × (n < s * (a + 1) + s)
rounded_up n s a h e p = rw e (omega (arith, division n s h))

-- A sum of remainders that covers one atom more than `k` has a positive largest one.
covers : (s k r rest : ℕ) → s * suc k ≤ r + rest → r < s → s * k ≤ rest
covers s k r rest le lt = grind arith

not_covers : (s k : ℕ) → 0 < s → ¬ (s * suc k ≤ 0)
not_covers s k h le = grind arith

module _ (distributable selected : ℕ) where
  -- The exact share, rounded down.
  abbrev pub quota : Weighted → ℕ
  quota e = (distributable * e.work) / selected

  abbrev pub IsFresh : Weighted → Type 0
  IsFresh e =
      (e.amount ≡ quota e) × (e.remainder ≡ (distributable * e.work) % selected) × (0 < selected)

  pub weigh_all-IsFresh :
      (m : Totals) → 0 < selected → All IsFresh (weigh_all distributable selected m)
  weigh_all-IsFresh [] h = tt
  weigh_all-IsFresh ((a, w) ∷ m) h = ((refl, refl, h), weigh_all-IsFresh m h)

  -- Less than one atom from the exact share, on either side.
  abbrev pub IsRounded : Weighted → Type 0
  IsRounded e =
      (selected * e.amount < distributable * e.work + selected)
      × (distributable * e.work < selected * e.amount + selected)

  -- An atom on top of the quota goes to `x` before it goes to `y`.
  abbrev pub IsServedBefore : Weighted → Weighted → Type 0
  IsServedBefore x y = quota x < x.amount → y.amount ≤ quota y → by_remainder y x ≡ false

  fresh_down : (e : Weighted) → IsFresh e → IsRounded e
  fresh_down e (a, r, s) = rounded_down (distributable * e.work) selected e.amount s a

  fresh_up :
      (e : Weighted)
      → IsFresh e × (0 < e.remainder)
      → IsRounded (record e { amount = e.amount + 1 })
  fresh_up e ((a, r, s), p) =
      rounded_up (distributable * e.work) selected e.amount s a (subst (λ t. 0 < t) r p)

  -- Behind an entry with no remainder there is none.
  no_remainders :
      (e : Weighted) (es : List Weighted)
      → e.remainder ≡ 0
      → All (λ y. by_remainder y e ≡ false) es
      → remainders es ≡ 0
  no_remainders e [] z h = refl
  no_remainders e (y ∷ ys) z (p, h) = ground (arith, no_remainders e ys z h)

  pub raise-IsRounded :
      (k : ℕ) (es : List Weighted)
      → IsSorted by_remainder es
      → All IsFresh es
      → selected * k ≤ remainders es
      → All IsRounded (raise k es)
  unfolding raise
  raise-IsRounded zero es s h le = All-map fresh_down es h
  raise-IsRounded (suc k) [] s h le = tt
  raise-IsRounded (suc k) (e ∷ es) (front, s) (f, h) le =
      let small : e.remainder < selected =
        omega (arith, division (distributable * e.work) selected f.2) in
      let some_left : 0 < e.remainder = elim (dec_lt 0 e.remainder) [
        | yes p ↦ p
        | no z ↦
            let none_left = no_remainders e es (omega arith) front in
            absurd (not_covers selected k f.2 (omega arith))
      ] in
      (
        fresh_up e (f, some_left),
        raise-IsRounded k es s h (covers selected k e.remainder (remainders es) le small),
      )

  pub raise-IsServedBefore :
      (k : ℕ) (es : List Weighted)
      → IsSorted by_remainder es
      → All IsFresh es
      → All (λ x. All (IsServedBefore x) (raise k es)) (raise k es)
  unfolding raise
  raise-IsServedBefore zero es s h =
      All-map (λ x (f : IsFresh x). All-of (λ y more less. absurd (omega arith)) es) es h
  raise-IsServedBefore (suc k) [] s h = tt
  raise-IsServedBefore (suc k) (e ∷ es) (front, s) (f, h) =
      let e' : Weighted = record e { amount = e.amount + 1 } in
      (
        (
          λ more less. absurd (omega arith),
          raise-All (λ y b more less. b) (λ y b more less. b) k es front,
        ),
        All-both (λ x. IsServedBefore x e') (λ x. All (IsServedBefore x) (raise k es)) (raise k es)
            (All-of (λ x more less. absurd (omega arith)) (raise k es))
            (raise-IsServedBefore k es s h),
      )
