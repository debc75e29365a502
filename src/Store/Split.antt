-- ===== src/Store/Split.antt =====
-- The division of a block's distributable value in `AllocateBlock`: integer quotients first, the
-- atoms left to the largest remainders, a tie to the lower address.
pub mod Raise
pub mod Exact
pub mod Remainders
pub mod Ranks
pub mod Addresses
use qday_pool.Prelude.{
  ℕ, zero, suc, ◌+◌, ◌-◌, ◌*◌, ◌/◌, ◌%◌, Bool, List, [], ◌∷◌, map, Text, ltb, ◌==◌, text_lt, length,
  sum_of, if◌then◌else◌,
}
use qday_pool.Prelude.Sort.{sort_slice}
use qday_pool.Store.Totals.{Totals}

-- `weightedAddress`
pub record Weighted : Type 0 where
  pub address : Text
  pub work : ℕ
  pub amount : ℕ
  pub remainder : ℕ

-- `amount.QuoRem(numerator, selected, remainder)`
abbrev pub weigh : ℕ → ℕ → Text × ℕ → Weighted
weigh distributable selected (address, work) = record {
  address = address;
  work = work;
  amount = (distributable * work) / selected;
  remainder = (distributable * work) % selected;
}

-- The first `less` function: larger remainders first, then lower addresses.
abbrev pub by_remainder : Weighted → Weighted → Bool
by_remainder i j =
    if i.remainder == j.remainder then text_lt i.address j.address else ltb j.remainder i.remainder

abbrev pub by_address : Weighted → Weighted → Bool
by_address i j = text_lt i.address j.address

abbrev pub amounts : List Weighted → ℕ
amounts = sum_of (λ e. e.amount)

-- `weighted[i].amount.Add(weighted[i].amount, big.NewInt(1))`
unfoldable pub add_one_at : ℕ → List Weighted → List Weighted
add_one_at i [] = []
add_one_at zero (e ∷ es) = record e { amount = e.amount + 1 } ∷ es
add_one_at (suc i) (e ∷ es) = e ∷ add_one_at i es

-- `for i := 0; i < left; i++`, with `rounds` rounds to go.
unfoldable pub hand_out : ℕ → ℕ → List Weighted → List Weighted
hand_out zero i es = es
hand_out (suc rounds) i es = hand_out rounds (suc i) (add_one_at (i % length es) es)

-- The loop over `grouped`.
abbrev pub weigh_all : ℕ → ℕ → Totals → List Weighted
weigh_all distributable selected = map (weigh distributable selected)

unfoldable pub split_reward : ℕ → ℕ → Totals → List Weighted
unfolding hand_out add_one_at
split_reward distributable selected grouped =
    let weighted = weigh_all distributable selected grouped in
    let left = distributable - amounts weighted in
    sort_slice by_address (hand_out left 0 (sort_slice by_remainder weighted))
