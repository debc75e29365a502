-- ===== src/Store/Payouts/Batch.antt =====
-- The items of a payout batch: their addresses and amounts.
use qday_pool.Prelude.{
  ℕ, ◌+◌, ◌-◌, ◌≤◌, ◌≡◌, refl, true, false, List, [], ◌∷◌, Text, text_eq, text_eq_iff, arith,
  sum_of, All, if◌then◌else◌,
}
use qday_pool.Prelude.Sort.{sort_slice-All, sort_slice-Apart, Apart, take-All, take-Apart}
use qday_pool.Store.Totals.{Totals, value, Distinct, has_key, All-values}
use qday_pool.Store.Payouts.{AvailableItem, available, by_amount, chosen}

-- What `items` hold for the address `a`.
abbrev pub item_amount : Text → AvailableItem → ℕ
item_amount a x = if text_eq x.address a then x.amount else 0

abbrev pub amount_for : Text → List AvailableItem → ℕ
amount_for a = sum_of (item_amount a)

abbrev pub Differs : AvailableItem → AvailableItem → Type 0
Differs x y = text_eq x.address y.address ≡ false

Differs-symm : (x y : AvailableItem) → Differs x y → Differs y x
Differs-symm x y h =
    ground (arith, text_eq_iff x.address y.address, text_eq_iff y.address x.address)

module _ (threshold : ℕ) (mature reserved : Totals) where
  -- The item is what is left of the credit, and reaches the threshold.
  abbrev pub Fits : AvailableItem → Type 0
  Fits x = (x.amount + value x.address reserved ≡ value x.address mature) × (threshold ≤ x.amount)

  available-Fits :
      (m : Totals) → All (λ e. value e.0 mature ≡ e.1) m → All Fits (available threshold reserved m)
  unfolding available
  available-Fits [] h = tt
  available-Fits ((k, v) ∷ m) (p, h) = ground (arith, available-Fits m h)

  available-fresh :
      (k : Text) (n : ℕ) (m : Totals)
      → has_key k m ≡ false
      → All (Differs (record { address = k; amount = n })) (available threshold reserved m)
  unfolding available has_key
  available-fresh k n [] h = tt
  available-fresh k n ((j, v) ∷ m) h =
      ground (arith, available-fresh k n m, text_eq_iff j k, text_eq_iff k j)

  available-Apart : (m : Totals) → Distinct m → Apart Differs (available threshold reserved m)
  unfolding available
  available-Apart [] d = tt
  available-Apart ((k, v) ∷ m) (new, d) =
      ground (arith, available-Apart m d, available-fresh k (v - value k reserved) m new)

  module _ (max_outputs : ℕ) (distinct : Distinct mature) where
    abbrev pub batch : List AvailableItem
    batch = chosen max_outputs (available threshold reserved mature)

    pub batch-Fits : All Fits batch
    batch-Fits =
        take-All Fits max_outputs _
          (sort_slice-All by_amount Fits _ (available-Fits mature (All-values mature distinct)))

    pub batch-Apart : Apart Differs batch
    batch-Apart =
        take-Apart Differs max_outputs _
          (sort_slice-Apart by_amount Differs Differs-symm _ (available-Apart mature distinct))

  nothing_for :
      (a : Text) (x : AvailableItem) (xs : List AvailableItem)
      → text_eq x.address a ≡ true
      → All (Differs x) xs
      → amount_for a xs ≡ 0
  nothing_for a x [] e h = refl
  nothing_for a x (y ∷ ys) e (p, h) = ground (
    arith,
    nothing_for a x ys e h,
    text_eq_iff x.address a,
    text_eq_iff y.address a,
    text_eq_iff x.address y.address,
  )

  -- For every address the batch and what was reserved stay within the credit.
  pub amount_for-le :
      (a : Text) (xs : List AvailableItem)
      → All Fits xs
      → Apart Differs xs
      → value a reserved ≤ value a mature
      → amount_for a xs + value a reserved ≤ value a mature
  amount_for-le a [] f d h = omega arith
  amount_for-le a (x ∷ xs) (f, fs) (d, ds) h =
      ground (arith, text_eq_iff x.address a, nothing_for a x xs, amount_for-le a xs fs ds h)
