-- ===== src/Store/PayoutStates.antt =====
-- `ActivePayouts`, `SetPayoutState`, `PayoutError`, the payout pages and `Account`.
pub mod Accounts
use qday_pool.Prelude.{
  ℕ, suc, ◌+◌, ◌-◌, Bool, true, false, not, ◌&&◌, ◌||◌, ◌==◌, Option, none, some, List, [], ◌∷◌,
  reverse, Text, text_eq, text_lt, take, drop, keep, map, any, length, if◌then◌else◌,
}
use qday_pool.Prelude.Int.{ℤ, pos, pos_part, ltb_ℤ, sub_ℕ}
use qday_pool.Prelude.Sort.{sort_slice}
use qday_pool.Decimal.{decimal, to_string}
use qday_pool.Store.Tables.{Time, ShareRow, PayoutRow, ItemRow, Tables, PayoutStatus}
use qday_pool.Store.Totals.{Totals, value}
use qday_pool.Store.Balances.{Balances, balances}
use qday_pool.Store.Shares.{is_empty}
use qday_pool.Store.Blocks.{truncate}
use qday_pool.Store.Payouts.{PayoutItem, Payout}
use qday_pool.Store.Sql.{
  M, ◌>>=◌, ◌>>◌, pure, fail_if, sql, tx, invalid_page, invalid_payout_state, payout_not_found,
}

-- `status IN ('prepared','submitted')`
abbrev pub is_active : PayoutStatus → Bool
is_active PayoutStatus.prepared = true
is_active PayoutStatus.submitted = true
is_active PayoutStatus.confirmed = false

abbrev pub is_prepared : PayoutStatus → Bool
is_prepared PayoutStatus.prepared = true
is_prepared PayoutStatus.submitted = false
is_prepared PayoutStatus.confirmed = false

-- `payoutItems`: `WHERE payout_id=? ORDER BY address`
unfoldable pub payout_items : ℕ → M (List PayoutItem)
payout_items id = sql λ t. (
  map
      (λ (i : ItemRow).
        let item : PayoutItem = record { address = i.address; amount_atomic = i.amount_atomic } in
        item)
      (sort_slice (λ i j. text_lt i.address j.address) (keep (λ i. i.payout_id == id) t.items)),
  t,
)

-- The columns that the query of `ActivePayouts` reads.
abbrev pub active_columns : PayoutRow → PayoutRow
active_columns p = record p { submitted_at = none; transaction_id = [] }

-- The loop that fills in the items.
unfoldable pub with_items : List PayoutRow → M (List Payout)
with_items [] = pure []
with_items (p ∷ ps) = do
  items ← payout_items p.id
  rest ← with_items ps
  pure ((record { row = active_columns p; items = items; outputs = length items }) ∷ rest)

-- `ORDER BY id LIMIT ?`
unfoldable pub active_payouts : ℤ → M (List Payout)
active_payouts limit = do
  fail_if (ltb_ℤ limit (pos 1) || ltb_ℤ (pos 100) limit) invalid_page
  rows ← sql (λ t. (take (pos_part limit) (reverse (keep (λ p. is_active p.status) t.payouts)), t))
  with_items rows

unfoldable pub update_payouts :
    (PayoutRow → Bool) → (PayoutRow → PayoutRow) → List PayoutRow → List PayoutRow
update_payouts p f [] = []
update_payouts p f (row ∷ rows) = (if p row then f row else row) ∷ update_payouts p f rows

-- An active payout of that id.
abbrev pub is_target : ℕ → PayoutRow → Bool
is_target id p = p.id == id && is_active p.status

-- `COALESCE(submitted_at, now)`
abbrev pub coalesce : Option Time → Time → Option Time
coalesce none now = some now
coalesce (some t) now = some t

abbrev pub in_state : PayoutStatus → Text → Time → PayoutRow → PayoutRow
in_state status transaction now p = record p {
  status = status;
  submitted_at = coalesce p.submitted_at now;
  transaction_id = transaction;
  last_error = [];
}

-- The UPDATE of `SetPayoutState`, and how many rows it changed.
abbrev pub advance_payout : ℕ → Text → PayoutStatus → Time → Tables → ℕ × Tables
advance_payout id transaction status now t = (
  length (keep (is_target id) t.payouts),
  record t { payouts = update_payouts (is_target id) (in_state status transaction now) t.payouts },
)

unfoldable pub set_payout_state : ℕ → Text → PayoutStatus → Time → M (Unit {0})
set_payout_state id transaction status now = do
  fail_if (is_empty transaction || is_prepared status) invalid_payout_state
  changed ← sql (advance_payout id transaction status now)
  fail_if (not (changed == 1)) payout_not_found

unfoldable pub payout_error : ℕ → Text → M (Unit {0})
payout_error id message = sql λ t. (
  tt,
  record t {
    payouts =
        update_payouts (is_target id) (λ p. record p { last_error = truncate message }) t.payouts;
  },
)

-- One line of `Payouts`: a row and the number of its items.
abbrev pub page_line : Tables → PayoutRow → Payout
page_line t p = record {
  row = p;
  items = [];
  outputs = length (keep (λ i. i.payout_id == p.id) t.items);
}

unfoldable pub payout_page : ℤ → ℤ → M (List Payout)
payout_page limit offset = do
  fail_if (ltb_ℤ limit (pos 1) || ltb_ℤ (pos 200) limit || ltb_ℤ offset (pos 0)) invalid_page
  sql (λ t. (map (page_line t) (take (pos_part limit) (drop (pos_part offset) t.payouts)), t))

unfoldable pub payout_count : M ℕ
payout_count = sql (λ t. (length t.payouts, t))

pub record AddressAccount : Type 0 where
  pub address : Text
  pub mature_atomic : Text
  pub pending_atomic : Text
  pub paid_atomic : Text
  pub balance_atomic : Text
  pub shares : ℕ
  pub workers : ℕ

-- `COUNT(DISTINCT worker)`
unfoldable pub distinct_workers : List ShareRow → List Text → ℕ
distinct_workers [] seen = 0
distinct_workers (row ∷ rows) seen = elim (any (text_eq row.worker) seen) [
  | true ↦ distinct_workers rows seen
  | false ↦ suc (distinct_workers rows (row.worker ∷ seen))
]

-- `balance` is a signed integer.
abbrev pub account_of : Text → Balances → List ShareRow → AddressAccount
account_of address b rows = record {
  address = address;
  mature_atomic = decimal (value address b.mature);
  pending_atomic = decimal (value address b.pending);
  paid_atomic = decimal (value address b.paid);
  balance_atomic = to_string (sub_ℕ (value address b.mature) (value address b.reserved));
  shares = length rows;
  workers = distinct_workers rows [];
}

unfoldable pub account : Text → M AddressAccount
account address = tx do
  b ← balances
  rows ← sql (λ t. (keep (λ row. text_eq row.address address) t.shares, t))
  pure (account_of address b rows)
