-- ===== src/Store/Payouts/Items.antt =====
-- What a batch pays.
use mathlib.Core.Path.{subst}
use qday_pool.Prelude.{
  ℕ, ◌+◌, ◌≤◌, ◌≡◌, refl, ap, sym, ◌∙◌, inl, inr, false, Option, none, some, List, [], ◌∷◌, text_eq,
  map, arith, sum_of, All, length, length-take-le,
}
use qday_pool.Prelude.Int.{ℤ, pos_part}
use qday_pool.Prelude.Sort.{sort_slice, Apart}
use qday_pool.Store.Tables.{Time, Tables}
use qday_pool.Store.Totals.{atoms, atoms-decimal}
use qday_pool.Store.Sql.{ok, Db}
use qday_pool.Store.Shares.{magnitude_of}
use qday_pool.Store.Balances.{Balances}
use qday_pool.Store.Balances.Sums.{mature_for, reserved_for, Read}
use qday_pool.Store.Payouts.{
  PayoutItem, Payout, AvailableItem, available, by_amount, chosen, payout_item, total_of,
  prepare_payouts,
}
use qday_pool.Store.Payouts.Batch.{Fits, Differs, batch-Fits, batch-Apart}
use qday_pool.Store.Payouts.Commits.{Written, prepare_payouts-Prepared}

-- The item pays its address all the mature credit that no batch has reserved, and that is at
-- least the threshold.
abbrev pub PaysRest : ℕ → Tables → PayoutItem → Type 0
PaysRest threshold t i =
    (atoms i.amount_atomic + reserved_for i.address t ≡ mature_for i.address t)
    × (threshold ≤ atoms i.amount_atomic)

abbrev pub OtherAddress : PayoutItem → PayoutItem → Type 0
OtherAddress i j = text_eq i.address j.address ≡ false

items-All :
    (threshold : ℕ) (t : Tables) (b : Balances) (xs : List AvailableItem)
    → Read t b
    → All (Fits threshold b.mature b.reserved) xs
    → All (PaysRest threshold t) (map payout_item xs)
items-All threshold t b [] r h = tt
items-All threshold t b (x ∷ xs) r ((p, q), h) = (
  (
    omega (arith, atoms-decimal x.amount, p, r.mature_read x.address, r.reserved_read x.address),
    omega (arith, atoms-decimal x.amount),
  ),
  items-All threshold t b xs r h,
)

others :
    (x : AvailableItem) (xs : List AvailableItem)
    → All (Differs x) xs
    → All (OtherAddress (payout_item x)) (map payout_item xs)
others x [] h = tt
others x (y ∷ ys) (p, h) = (p, others x ys h)

items-Apart : (xs : List AvailableItem) → Apart Differs xs → Apart OtherAddress (map payout_item xs)
items-Apart [] h = tt
items-Apart (x ∷ xs) (p, h) = (others x xs p, items-Apart xs h)

total-items :
    (xs : List AvailableItem)
    → sum_of (λ i. atoms i.amount_atomic) (map payout_item xs) ≡ total_of xs
total-items [] = refl
total-items (x ∷ xs) = omega (arith, total-items xs, atoms-decimal x.amount)

length-items : (xs : List AvailableItem) → length (map payout_item xs) ≡ length xs
length-items [] = refl
length-items (x ∷ xs) = omega (arith, length-items xs)

-- What a batch of a call is: each item pays the rest, no address twice, at most `max` items, and
-- the payout's amount is their sum.
pub record Batch (threshold max : ℕ) (t : Tables) (p : Payout) : Type 0 where
  pub pays : All (PaysRest threshold t) p.items
  pub apart : Apart OtherAddress p.items
  pub bounded : length p.items ≤ max
  pub counted : p.outputs ≡ length p.items
  pub total : atoms p.row.amount_atomic ≡ sum_of (λ i. atoms i.amount_atomic) p.items

chosen-le : (n : ℕ) (xs : List AvailableItem) → length (chosen n xs) ≤ n
chosen-le n xs = length-take-le n (sort_slice by_amount xs)

abbrev from_some : Payout → Option Payout → Payout
from_some d none = d
from_some d (some p) = p

Written-Batch :
    (threshold fee max : ℕ) (now : Time) (t t' : Tables) (b : Balances) (p : Payout)
    → Read t b
    → Written fee now (chosen max (available threshold b.reserved b.mature)) t t' (some p)
    → Batch threshold max t p
Written-Batch threshold fee max now t t' b p r w =
    let xs = chosen max (available threshold b.reserved b.mature) in
    let same = ap (from_some p) w.returned in
    subst (Batch threshold max t) (sym same) (record {
      pays =
          items-All threshold t b xs r
            (batch-Fits threshold b.mature b.reserved max r.mature_distinct);
      apart = items-Apart xs (batch-Apart threshold b.mature b.reserved max r.mature_distinct);
      bounded =
          omega (arith, length-items xs, chosen-le max (available threshold b.reserved b.mature));
      counted = sym (length-items xs);
      total = atoms-decimal (total_of xs) ∙ sym (total-items xs);
    })

-- A payout that `PreparePayouts` returns pays each of its addresses, none of them twice, exactly
-- the mature credit that no earlier payout has reserved, each at least the threshold, in at most
-- as many items as are allowed; and its amount is the sum of its items.
pub prepare_payouts-Batch :
    (threshold fee : Option ℤ) (max : ℤ) (entropy : Option (List ℕ)) (now : Time) (db db' : Db)
    (p : Payout)
    → prepare_payouts threshold fee max entropy now db ≡ (ok (some p), db')
    → Batch (magnitude_of threshold) (pos_part max) db.tables p
prepare_payouts-Batch threshold fee max entropy now db db' p h =
    let d = prepare_payouts-Prepared threshold fee max entropy now db db' (some p) h in
    elim d.outcome [
      | inl (_, bad, _) ↦ absurd (ground (arith, bad))
      | inr w ↦ Written-Batch _ _ _ now db.tables db'.tables d.read p d.is_read w
    ]
