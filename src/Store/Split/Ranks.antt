-- ===== src/Store/Split/Ranks.antt =====
-- `splitReward`: who gets the atoms left over, and the entries that it credits.
use mathlib.Core.List.{Perm}
use mathlib.Core.List.Perm
use qday_pool.Prelude.{
  ℕ, zero, suc, ◌-◌, ◌*◌, ◌≤◌, ◌<◌, ◌≡◌, refl, ap, true, false, List, [], ◌∷◌, map, arith, All,
  All-map, Text, text_lt_asymm, text_lt_cotrans, sum_of,
}
use qday_pool.Prelude.Sort.{
  sort_slice, IsSorted, sort_slice-sum, sort_slice-All, sort_slice-IsSorted, sort_slice-perm,
}
use qday_pool.Store.Totals.{Totals, grand_total}
use qday_pool.Store.Split.{Weighted, weigh_all, by_remainder, by_address, amounts, split_reward}
use qday_pool.Store.Split.Raise.{raise}
use qday_pool.Store.Split.Exact.{remainders, left_lem, split_reward-raise}
use qday_pool.Store.Split.Remainders.{
  by_remainder_asymm, by_remainder_cotrans, raise-All, IsFresh, weigh_all-IsFresh, raise-IsRounded,
  raise-IsServedBefore, IsRounded, IsServedBefore,
}

abbrev pub entry : Weighted → Text × ℕ
entry e = (e.address, e.work)

entries-raise : (k : ℕ) (es : List Weighted) → map entry (raise k es) ≡ map entry es
unfolding raise
entries-raise zero es = refl
entries-raise (suc k) [] = refl
entries-raise (suc k) (e ∷ es) = ap (◌∷◌ (entry e)) (entries-raise k es)

entries-weigh_all : (d s : ℕ) (m : Totals) → map entry (weigh_all d s m) ≡ m
entries-weigh_all d s [] = refl
entries-weigh_all d s ((a, w) ∷ m) = ap (◌∷◌ (a, w)) (entries-weigh_all d s m)

works-raise :
    (k : ℕ) (es : List Weighted) → sum_of (λ e. e.work) (raise k es) ≡ sum_of (λ e. e.work) es
unfolding raise
works-raise zero es = refl
works-raise (suc k) [] = refl
works-raise (suc k) (e ∷ es) = omega (arith, works-raise k es)

works-weigh_all : (d s : ℕ) (m : Totals) → sum_of (λ e. e.work) (weigh_all d s m) ≡ grand_total m
works-weigh_all d s [] = refl
works-weigh_all d s ((a, w) ∷ m) = omega (arith, works-weigh_all d s m)

weigh_all-All :
    (d s : ℕ) (P : Text × ℕ → Type 0) (m : Totals)
    → All P m
    → All (λ e. P (entry e)) (weigh_all d s m)
weigh_all-All d s P [] h = tt
weigh_all-All d s P ((a, w) ∷ m) (p, h) = (p, weigh_all-All d s P m h)

by_address-asymm : (i j : Weighted) → by_address i j ≡ true → by_address j i ≡ false
by_address-asymm i j = text_lt_asymm i.address j.address

by_address-cotrans :
    (i j k : Weighted) → by_address j i ≡ false → by_address k j ≡ false → by_address k i ≡ false
by_address-cotrans i j k = text_lt_cotrans i.address j.address k.address

module _ (distributable selected : ℕ) (m : Totals) (some_work : 0 < selected)
    (all_work : grand_total m ≡ selected) where
  sorted : List Weighted
  sorted = sort_slice by_remainder (weigh_all distributable selected m)

  left : ℕ
  left = distributable - amounts (weigh_all distributable selected m)

  split_reward-sorted :
      split_reward distributable selected m ≡ sort_slice by_address (raise left sorted)
  unfolding sorted left
  split_reward-sorted = split_reward-raise distributable selected m some_work all_work

  sorted-IsFresh : All (IsFresh distributable selected) sorted
  unfolding sorted
  sorted-IsFresh =
      sort_slice-All by_remainder (IsFresh distributable selected) _
        (weigh_all-IsFresh distributable selected m some_work)

  sorted-IsSorted : IsSorted by_remainder sorted
  unfolding sorted
  sorted-IsSorted = sort_slice-IsSorted by_remainder by_remainder_asymm by_remainder_cotrans _

  pub split_reward-works :
      sum_of (λ e. e.work) (split_reward distributable selected m) ≡ grand_total m
  unfolding sorted left
  split_reward-works =
      let es = weigh_all distributable selected m in
      rw split_reward-sorted (
        omega (
          arith,
          sort_slice-sum by_address (λ e. e.work) (raise left sorted),
          works-raise left sorted,
          sort_slice-sum by_remainder (λ e. e.work) es,
          works-weigh_all distributable selected m,
        ))

  -- What does not look at the amounts passes through the split.
  pub split_reward-All :
      (P : Text × ℕ → Type 0)
      → All P m
      → All (λ e. P (entry e)) (split_reward distributable selected m)
  unfolding sorted left
  split_reward-All P h =
      let es = weigh_all distributable selected m in
      rw split_reward-sorted (
        sort_slice-All by_address (λ e. P (entry e)) (raise left sorted)
          (raise-All (λ e p. p) (λ e p. p) left sorted
            (sort_slice-All by_remainder (λ e. P (entry e)) es
              (weigh_all-All distributable selected P m h))))

  -- No amount is a whole atom away from the exact share.
  pub split_reward-IsRounded :
      All (IsRounded distributable selected) (split_reward distributable selected m)
  unfolding sorted left
  split_reward-IsRounded =
      let es = weigh_all distributable selected m in
      let few : selected * left ≤ remainders sorted = omega (
        arith,
        (left_lem distributable selected m some_work all_work).2,
        sort_slice-sum by_remainder (λ e. e.remainder) es,
      ) in
      rw split_reward-sorted (
        sort_slice-All by_address (IsRounded distributable selected) (raise left sorted)
          (raise-IsRounded distributable selected left sorted sorted-IsSorted sorted-IsFresh few))

  -- Atoms on top of the quota go to the largest remainders, and in a tie to the lowest address.
  pub split_reward-IsServedBefore :
      let es = split_reward distributable selected m in
      All (λ x. All (IsServedBefore distributable selected x) es) es
  split_reward-IsServedBefore =
      let es = raise left sorted in
      let served =
        raise-IsServedBefore distributable selected left sorted sorted-IsSorted sorted-IsFresh in
      rw split_reward-sorted (
        sort_slice-All by_address _ es (
          All-map
            (λ x (h : All (IsServedBefore distributable selected x) es).
              sort_slice-All by_address (IsServedBefore distributable selected x) es h)
            es served))

  -- Where the work of the window's map is positive and is the selected work, the division credits
  -- the entries of the map, each with its work there, each once and no others, in order of address.
  pub split_reward-perm :
      Perm (map entry (split_reward distributable selected m)) m
      × IsSorted by_address (split_reward distributable selected m)
  unfolding sorted left
  split_reward-perm = rw split_reward-sorted (
    let es = weigh_all distributable selected m in
        let same : map entry (raise left sorted) ≡ map entry sorted = entries-raise left sorted in
        Perm.trans (Perm.map entry (sort_slice-perm by_address (raise left sorted))) (
          rw same (
            Perm.trans (Perm.map entry (sort_slice-perm by_remainder es))
              (rw (entries-weigh_all distributable selected m) (Perm.refl m)))),
    sort_slice-IsSorted by_address by_address-asymm by_address-cotrans _,
  )
