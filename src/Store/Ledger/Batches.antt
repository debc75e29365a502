-- ===== src/Store/Ledger/Batches.antt =====
-- What batches reserve under the operations that write payouts and items.
use qday_pool.Prelude.{
  ℕ, ◌+◌, ◌≤◌, ◌<◌, ◌≡◌, refl, Bool, true, List, [], ◌∷◌, Text, arith, sum_of, All,
}
use qday_pool.Store.Tables.{PayoutRow, ItemRow}
use qday_pool.Store.Totals.{atoms-decimal}
use qday_pool.Store.Balances.{payout_status}
use qday_pool.Store.Balances.Sums.{is_listed, reserved_part}
use qday_pool.Store.Payouts.{AvailableItem, item_row}
use qday_pool.Store.Payouts.Batch.{amount_for}
use qday_pool.Store.Payouts.Commits.{push_items}
use qday_pool.Store.PayoutStates.{update_payouts}

-- A payout that is listed has an id that was handed out.
listed-le :
    (n id : ℕ) (ps : List PayoutRow)
    → All (λ p. p.id ≤ n) ps
    → is_listed (payout_status ps id) ≡ true
    → id ≤ n
unfolding payout_status
listed-le n id [] h l = cc
listed-le n id (p ∷ ps) (q, h) l = ground (arith, listed-le n id ps h)

module _ (n : ℕ) (p : PayoutRow) (ps : List PayoutRow) (above : n < p.id)
    (numbered : All (λ (p : PayoutRow). p.id ≤ n) ps) where
  pub payout_status-cons :
      (id : ℕ)
      → is_listed (payout_status ps id) ≡ true
      → payout_status (p ∷ ps) id ≡ payout_status ps id
  unfolding payout_status
  payout_status-cons id l = ground (arith, listed-le n id ps numbered l)

  -- A new payout takes over no item that is there.
  pub reserved_parts-cons :
      (a : Text) (rows : List ItemRow)
      → All (λ i. is_listed (payout_status ps i.payout_id) ≡ true) rows
      → sum_of (reserved_part a (p ∷ ps)) rows ≡ sum_of (reserved_part a ps) rows
  reserved_parts-cons a [] h = refl
  reserved_parts-cons a (row ∷ rows) (l, h) =
      ground (arith, payout_status-cons row.payout_id l, reserved_parts-cons a rows h)

  pub listed-cons :
      (rows : List ItemRow)
      → All (λ i. is_listed (payout_status ps i.payout_id) ≡ true) rows
      → All (λ i. is_listed (payout_status (p ∷ ps) i.payout_id) ≡ true) rows
  listed-cons [] h = tt
  listed-cons (row ∷ rows) (l, h) =
      (ground (arith, payout_status-cons row.payout_id l), listed-cons rows h)

-- The new items count in full.
pub reserved_parts-push_items :
    (a : Text) (id : ℕ) (ps : List PayoutRow) (xs : List AvailableItem) (rows : List ItemRow)
    → is_listed (payout_status ps id) ≡ true
    → sum_of (reserved_part a ps) (push_items id xs rows)
      ≡ amount_for a xs + sum_of (reserved_part a ps) rows
unfolding push_items
reserved_parts-push_items a id ps [] rows l = omega arith
reserved_parts-push_items a id ps (x ∷ xs) rows l =
    ground
      (arith, reserved_parts-push_items a id ps xs (item_row id x ∷ rows) l, atoms-decimal x.amount)

pub push_items-listed :
    (id : ℕ) (ps : List PayoutRow) (xs : List AvailableItem) (rows : List ItemRow)
    → is_listed (payout_status ps id) ≡ true
    → All (λ i. is_listed (payout_status ps i.payout_id) ≡ true) rows
    → All (λ i. is_listed (payout_status ps i.payout_id) ≡ true) (push_items id xs rows)
unfolding push_items
push_items-listed id ps [] rows l h = h
push_items-listed id ps (x ∷ xs) rows l h =
    push_items-listed id ps xs (item_row id x ∷ rows) l (l, h)

-- An update that keeps the ids lists the same payouts.
module _ (p : PayoutRow → Bool) (f : PayoutRow → PayoutRow)
    (same_id : (r : PayoutRow) → (f r).id ≡ r.id) where
  is_listed-update :
      (id : ℕ) (ps : List PayoutRow)
      → is_listed (payout_status (update_payouts p f ps) id) ≡ is_listed (payout_status ps id)
  unfolding payout_status update_payouts
  is_listed-update id [] = refl
  is_listed-update id (r ∷ ps) = ground (arith, is_listed-update id ps, same_id r)

  pub reserved_parts-update :
      (a : Text) (ps : List PayoutRow) (rows : List ItemRow)
      → sum_of (reserved_part a (update_payouts p f ps)) rows ≡ sum_of (reserved_part a ps) rows
  reserved_parts-update a ps [] = refl
  reserved_parts-update a ps (row ∷ rows) =
      ground (arith, is_listed-update row.payout_id ps, reserved_parts-update a ps rows)

  pub listed-update :
      (ps : List PayoutRow) (rows : List ItemRow)
      → All (λ i. is_listed (payout_status ps i.payout_id) ≡ true) rows
      → All (λ i. is_listed (payout_status (update_payouts p f ps) i.payout_id) ≡ true) rows
  listed-update ps [] h = tt
  listed-update ps (row ∷ rows) (l, h) =
      (ground (arith, is_listed-update row.payout_id ps), listed-update ps rows h)

  pub numbered-update :
      (n : ℕ) (ps : List PayoutRow)
      → All (λ (r : PayoutRow). r.id ≤ n) ps
      → All (λ (r : PayoutRow). r.id ≤ n) (update_payouts p f ps)
  unfolding update_payouts
  numbered-update n [] h = tt
  numbered-update n (r ∷ ps) (q, h) = ground (arith, numbered-update n ps h, same_id r)
