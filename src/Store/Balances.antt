-- ===== src/Store/Balances.antt =====
-- `balances`: what each address is credited and what is reserved or paid.
pub mod Sums
use qday_pool.Prelude.{
  ℕ, ◌+◌, ◌==◌, Bool, true, false, Option, none, some, List, [], ◌∷◌, Text, text_eq, any,
  if◌then◌else◌,
}
use mathlib.Core.Option
use qday_pool.Store.Tables.{
  BlockRow, AllocationRow, PayoutRow, ItemRow, Tables, BlockStatus, PayoutStatus,
}
use qday_pool.Store.Totals.{Totals, add_amount, parse_big}
use qday_pool.Store.Blocks.{find_block}
use qday_pool.Store.Sql.{Result, ok, err, M, ◌>>=◌, pure, lift, sql, and_then}

pub record Balances : Type 0 where
  pub mature : Totals
  pub pending : Totals
  pub reserved : Totals
  pub paid : Totals

-- The status of the block that a row is joined with.
unfoldable pub block_status : List BlockRow → Text → Option BlockStatus
unfolding find_block
block_status blocks id = Option.map (λ b. b.status) (find_block id blocks)

unfoldable pub payout_status : List PayoutRow → ℕ → Option PayoutStatus
payout_status [] id = none
payout_status (p ∷ ps) id = if p.id == id then some p.status else payout_status ps id

-- The loop over `allocations JOIN blocks … WHERE b.status IN ('pending','mature')`.
unfoldable pub credit_rows :
    List BlockRow → List AllocationRow → Totals → Totals → Result (Totals × Totals)
credit_rows blocks [] mature pending = ok (mature, pending)
credit_rows blocks (row ∷ rows) mature pending = elim (block_status blocks row.block_id) [
  | none ↦ credit_rows blocks rows mature pending
  | some s ↦ elim s [
    | BlockStatus.orphan ↦ credit_rows blocks rows mature pending
    | BlockStatus.mature ↦ elim (parse_big row.amount_atomic) [
      | err e ↦ err e
      | ok amount ↦ credit_rows blocks rows (add_amount row.address amount mature) pending
    ]
    | BlockStatus.pending ↦ elim (parse_big row.amount_atomic) [
      | err e ↦ err e
      | ok amount ↦ credit_rows blocks rows mature (add_amount row.address amount pending)
    ]
  ]
]

-- The loop over `payout_items JOIN payouts`: all three statuses count as reserved.
unfoldable pub reserve_rows :
    List PayoutRow → List ItemRow → Totals → Totals → Result (Totals × Totals)
reserve_rows payouts [] reserved paid = ok (reserved, paid)
reserve_rows payouts (row ∷ rows) reserved paid = elim (payout_status payouts row.payout_id) [
  | none ↦ reserve_rows payouts rows reserved paid
  | some s ↦ elim (parse_big row.amount_atomic) [
    | err e ↦ err e
    | ok amount ↦ elim s [
      | PayoutStatus.prepared ↦
          reserve_rows payouts rows (add_amount row.address amount reserved) paid
      | _ ↦
          reserve_rows payouts rows (add_amount row.address amount reserved)
            (add_amount row.address amount paid)
    ]
  ]
]

unfoldable pub balances : M Balances
balances = do
  allocated ← sql (λ t. (credit_rows t.blocks t.allocations [] [], t))
  credits ← lift allocated
  listed ← sql (λ t. (reserve_rows t.payouts t.items [] [], t))
  reserves ← lift listed
  pure
      (record { mature = credits.0; pending = credits.1; reserved = reserves.0; paid = reserves.1 })
