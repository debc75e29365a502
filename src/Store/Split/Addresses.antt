-- ===== src/Store/Split/Addresses.antt =====
-- The addresses that the division credits.
use qday_pool.Prelude.{
  ℕ, zero, suc, ◌-◌, ◌%◌, ◌≡◌, false, List, [], ◌∷◌, text_eq, text_eq_iff, arith, All, length,
}
use qday_pool.Prelude.Sort.{sort_slice, sort_slice-Apart, Apart}
use qday_pool.Store.Totals.{Totals, Distinct, has_key}
use qday_pool.Store.Split.{
  Weighted, weigh, weigh_all, by_remainder, by_address, amounts, add_one_at, hand_out, split_reward,
}

abbrev pub OtherEntry : Weighted → Weighted → Type 0
OtherEntry x y = text_eq x.address y.address ≡ false

OtherEntry-symm : (x y : Weighted) → OtherEntry x y → OtherEntry y x
OtherEntry-symm x y h =
    ground (arith, text_eq_iff x.address y.address, text_eq_iff y.address x.address)

module _ (distributable selected : ℕ) where
  fresh_entries :
      (x : Weighted) (m : Totals)
      → has_key x.address m ≡ false
      → All (OtherEntry x) (weigh_all distributable selected m)
  unfolding has_key
  fresh_entries x [] h = tt
  fresh_entries x ((k, v) ∷ m) h =
      ground (arith, fresh_entries x m, text_eq_iff x.address k, text_eq_iff k x.address)

  weigh_all-Apart :
      (m : Totals) → Distinct m → Apart OtherEntry (weigh_all distributable selected m)
  weigh_all-Apart [] d = tt
  weigh_all-Apart ((k, v) ∷ m) (new, d) =
      (fresh_entries (weigh distributable selected (k, v)) m new, weigh_all-Apart m d)

add_one_at-fresh :
    (x : Weighted) (i : ℕ) (es : List Weighted)
    → All (OtherEntry x) es
    → All (OtherEntry x) (add_one_at i es)
unfolding add_one_at
add_one_at-fresh x i [] h = tt
add_one_at-fresh x zero (e ∷ es) h = h
add_one_at-fresh x (suc i) (e ∷ es) (p, h) = (p, add_one_at-fresh x i es h)

add_one_at-Apart :
    (i : ℕ) (es : List Weighted) → Apart OtherEntry es → Apart OtherEntry (add_one_at i es)
unfolding add_one_at
add_one_at-Apart i [] h = tt
add_one_at-Apart zero (e ∷ es) h = h
add_one_at-Apart (suc i) (e ∷ es) (p, h) = (add_one_at-fresh e i es p, add_one_at-Apart i es h)

hand_out-Apart :
    (rounds i : ℕ) (es : List Weighted)
    → Apart OtherEntry es
    → Apart OtherEntry (hand_out rounds i es)
unfolding hand_out
hand_out-Apart zero i es h = h
hand_out-Apart (suc rounds) i es h =
    hand_out-Apart rounds (suc i) (add_one_at (i % length es) es)
      (add_one_at-Apart (i % length es) es h)

pub split_reward-Apart :
    (distributable selected : ℕ) (m : Totals)
    → Distinct m
    → Apart OtherEntry (split_reward distributable selected m)
unfolding split_reward
split_reward-Apart distributable selected m d =
    let es = weigh_all distributable selected m in
    let sorted = sort_slice by_remainder es in
    sort_slice-Apart by_address OtherEntry OtherEntry-symm _ (
      hand_out-Apart (distributable - amounts es) 0 sorted (
        sort_slice-Apart by_remainder OtherEntry OtherEntry-symm es
          (weigh_all-Apart distributable selected m d)))
