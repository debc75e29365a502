-- ===== src/Store/Payouts.antt =====
-- `PreparePayouts`, the payout queries and the payout states.
pub mod Batch
pub mod Commits
pub mod Items
use qday_pool.Prelude.{
  ℕ, suc, ◌+◌, ◌-◌, Bool, true, false, not, ◌&&◌, ◌||◌, ◌==◌, Option, none, some, List, [], ◌∷◌,
  ◌++◌, reverse, Text, text_eq, text_lt, codes, leb, ltb, take, drop, keep, map, any, length,
  sum_of, if◌then◌else◌,
}
use qday_pool.Prelude.Int.{ℤ, pos, pos_part, ltb_ℤ}
use qday_pool.Prelude.Sort.{sort_slice}
use qday_pool.Prelude.Hex.{hex_encode}
use qday_pool.Decimal.{decimal}
use qday_pool.Store.Tables.{Time, PayoutRow, ItemRow, Tables, PayoutStatus}
use qday_pool.Store.Totals.{Totals, value}
use qday_pool.Store.Balances.{Balances, balances}
use qday_pool.Store.Shares.{is_empty, not_positive, magnitude_of}
use qday_pool.Store.Blocks.{truncate}
use qday_pool.Store.Sql.{
  Result, ok, err, M, ◌>>=◌, ◌>>◌, pure, lift, fail_if, or_fail, sql, tx, constraint,
  invalid_policy, no_entropy, invalid_page, invalid_payout_state, payout_not_found,
}

pub record PayoutItem : Type 0 where
  pub address : Text
  pub amount_atomic : Text

-- A `Payout` is a row with its items.
pub record Payout : Type 0 where
  pub row : PayoutRow
  pub open row use *
  pub items : List PayoutItem
  pub outputs : ℕ

-- `availableItem`
pub record AvailableItem : Type 0 where
  pub address : Text
  pub amount : ℕ

-- The loop over `mature`. `amount.Cmp(threshold) >= 0` for the integer `credited - used`: the
-- sum is on the other side, and the amount is then no negative number.
unfoldable pub available : ℕ → Totals → Totals → List AvailableItem
available threshold reserved [] = []
available threshold reserved ((address, credited) ∷ m) =
    let rest = available threshold reserved m in
    let used = value address reserved in
    if leb (threshold + used) credited
    then (record { address = address; amount = credited - used }) ∷ rest
    else rest

-- Larger amounts first, then lower addresses.
abbrev pub by_amount : AvailableItem → AvailableItem → Bool
by_amount i j = if i.amount == j.amount then text_lt i.address j.address else ltb j.amount i.amount

abbrev pub max_pool_payout_outputs : ℕ
max_pool_payout_outputs = 100

-- The items of the batch: `available[:maxOutputs]` where there are more.
abbrev pub chosen : ℕ → List AvailableItem → List AvailableItem
chosen max_outputs items = take max_outputs (sort_slice by_amount items)

-- `randomRequestID`, from 16 random bytes; `none` where the system has none.
abbrev pub request_id_of : Option (List ℕ) → Result Text
request_id_of none = err no_entropy
request_id_of (some entropy) = ok (codes "payout-" ++ hex_encode entropy)

abbrev pub payout_row : ℕ → Text → Time → ℕ → ℕ → PayoutRow
payout_row id request_id created total fee = record {
  id = id;
  request_id = request_id;
  created_at = created;
  submitted_at = none;
  transaction_id = [];
  amount_atomic = decimal total;
  fee_atomic = decimal fee;
  status = PayoutStatus.prepared;
  last_error = [];
}

-- `INSERT INTO payouts`: the new id, unless the request id is taken.
unfoldable pub insert_payout : Text → Time → ℕ → ℕ → Tables → Result ℕ × Tables
insert_payout request_id created total fee t =
    if any (λ p. text_eq p.request_id request_id) t.payouts then (err constraint, t) else (
      ok (suc t.payout_seq),
      record t {
        payouts = payout_row (suc t.payout_seq) request_id created total fee ∷ t.payouts;
        payout_seq = suc t.payout_seq;
      },
    )

abbrev pub item_row : ℕ → AvailableItem → ItemRow
item_row id item = record {
  payout_id = id;
  address = item.address;
  amount_atomic = decimal item.amount;
}

-- `INSERT INTO payout_items`, whose key is the payout and the address.
unfoldable pub insert_item : ℕ → AvailableItem → Tables → Result (Unit {0}) × Tables
insert_item id item t =
    if any (λ i. i.payout_id == id && text_eq i.address item.address) t.items
    then (err constraint, t)
    else (ok tt, record t { items = item_row id item ∷ t.items })

unfoldable pub insert_items : ℕ → List AvailableItem → M (Unit {0})
insert_items id [] = pure tt
insert_items id (item ∷ items) = do
  inserted ← sql (insert_item id item)
  lift inserted
  insert_items id items

abbrev pub payout_item : AvailableItem → PayoutItem
payout_item item = record { address = item.address; amount_atomic = decimal item.amount }

abbrev pub total_of : List AvailableItem → ℕ
total_of = sum_of (λ item. item.amount)

-- Behind the choice of the items.
unfoldable pub write_payout : ℕ → Option (List ℕ) → Time → List AvailableItem → M (Option Payout)
write_payout fee entropy now items = do
  request_id ← lift (request_id_of entropy)
  inserted ← sql (insert_payout request_id now (total_of items) fee)
  id ← lift inserted
  insert_items id items
  pure (
      some (record {
        row = payout_row id request_id now (total_of items) fee;
        items = map payout_item items;
        outputs = length items;
      }))

unfoldable pub prepare_in_tx : ℕ → ℕ → ℕ → Option (List ℕ) → Time → M (Option Payout)
prepare_in_tx threshold fee max_outputs entropy now = do
  b ← balances
  elim (available threshold b.reserved b.mature) [
    | [] ↦ pure none
    | item ∷ items ↦ write_payout fee entropy now (chosen max_outputs (item ∷ items))
  ]

-- `fee == nil || fee.Sign() < 0`
abbrev pub is_negative : Option ℤ → Bool
is_negative none = true
is_negative (some f) = ltb_ℤ f (pos 0)

unfoldable pub prepare_payouts :
    Option ℤ → Option ℤ → ℤ → Option (List ℕ) → Time → M (Option Payout)
prepare_payouts threshold fee max_outputs entropy now = do
  fail_if
      (not_positive threshold
        || is_negative fee
        || ltb_ℤ max_outputs (pos 1)
        || ltb_ℤ (pos max_pool_payout_outputs) max_outputs)
      invalid_policy
  tx (prepare_in_tx (magnitude_of threshold) (magnitude_of fee) (pos_part max_outputs) entropy now)
