-- ===== src/Store/Allocate.antt =====
-- `AllocateBlock`: one transaction that freezes the PPLNS window of a found block and assigns its
-- reward.
pub mod Commits
pub mod Accounts
pub mod Once
pub mod Succeeds
use qday_pool.Prelude.{
  ℕ, ◌+◌, ◌-◌, ◌*◌, ◌/◌, ◌%◌, ◌^◌, Bool, true, false, ◌&&◌, ◌||◌, Option, List, [], ◌∷◌, Text, map,
  text_eq, leb, ltb, ◌==◌, any, keep, if◌then◌else◌,
}
use qday_pool.Prelude.Int.{ℤ}
use qday_pool.Decimal.{decimal}
use qday_pool.Store.Tables.{Time, BlockRow, AllocationRow, Tables, BlockStatus}
use qday_pool.Store.Totals.{Totals, parse_big}
use qday_pool.Store.Window.{select_window}
use qday_pool.Store.Split.{Weighted, split_reward}
use qday_pool.Store.Shares.{is_empty, not_positive, magnitude_of}
use qday_pool.Store.Shares.Prune.{upto}
use qday_pool.Store.Sql.{
  Result, ok, err, M, ◌>>=◌, ◌>>◌, pure, lift, fail_if, sql, tx, invalid_block, invalid_reward,
  already_allocated, no_accepted_shares, constraint,
}

-- What `AllocateBlock` reads of a `FoundBlock`; it fills in the other fields itself.
pub record FoundBlock : Type 0 where
  pub id : Text
  pub height : ℕ
  pub found_at : Time
  pub found_by_address : Text
  pub found_by_worker : Text
  pub reward_atomic : Text
  pub fees_atomic : Text
  pub maturity_height : ℕ
  pub cutoff_share_id : ℕ

pub record Allocation : Type 0 where
  pub address : Text
  pub work : Text
  pub amount_atomic : Text

-- `10_000 - poolFeeBPS` parts of ten thousand, rounded down.
abbrev pub distributable : ℕ → ℕ → ℕ
distributable reward bps = (reward * (10_000 - bps)) / 10_000

abbrev pub u64 : ℕ
u64 = 2 ^ 64

-- The parsed reward, if it is positive.
unfoldable pub positive_reward : Text → Result ℕ
positive_reward s = elim (parse_big s) [
  | ok n ↦ if n == 0 then err invalid_reward else ok n
  | err _ ↦ err invalid_reward
]

-- The row of the found block.
abbrev pub block_row : FoundBlock → ℕ → ℕ → ℕ → ℕ → ℕ → BlockRow
block_row block reward fees pool_fee window selected = record {
  id = block.id;
  height = block.height;
  found_at = block.found_at;
  found_by_address = block.found_by_address;
  found_by_worker = block.found_by_worker;
  reward_atomic = decimal reward;
  fees_atomic = decimal fees;
  pool_fee_atomic = decimal pool_fee;
  window_work = decimal window;
  selected_work = decimal selected;
  maturity_height =
      if block.maturity_height == 0 then (block.height + 60) % u64 else block.maturity_height;
  confirmations = 1;
  canonical = true;
  status = BlockStatus.pending;
  last_error = [];
}

abbrev pub has_block : Text → List BlockRow → Bool
has_block id = any (λ row. text_eq row.id id)

-- `INSERT INTO blocks`, whose key is the id.
unfoldable pub insert_block : BlockRow → Tables → Result (Unit {0}) × Tables
insert_block row t =
    if has_block row.id t.blocks
    then (err constraint, t)
    else (ok tt, record t { blocks = row ∷ t.blocks })

abbrev pub allocation_row : Text → Weighted → AllocationRow
allocation_row id e = record {
  block_id = id;
  address = e.address;
  work = decimal e.work;
  amount_atomic = decimal e.amount;
}

abbrev pub has_allocation : Text → Text → List AllocationRow → Bool
has_allocation id address = any (λ row. text_eq row.block_id id && text_eq row.address address)

-- `INSERT INTO allocations`, whose key is the block and the address.
unfoldable pub insert_allocation : Text → Weighted → Tables → Result (Unit {0}) × Tables
insert_allocation id e t =
    if has_allocation id e.address t.allocations
    then (err constraint, t)
    else (ok tt, record t { allocations = allocation_row id e ∷ t.allocations })

-- The loop over `weighted`.
unfoldable pub insert_allocations : Text → List Weighted → M (Unit {0})
insert_allocations id [] = pure tt
insert_allocations id (e ∷ es) = do
  inserted ← sql (insert_allocation id e)
  lift inserted
  insert_allocations id es

abbrev pub allocation : Weighted → Allocation
allocation e = record {
  address = e.address;
  work = decimal e.work;
  amount_atomic = decimal e.amount;
}

-- The body of the transaction behind the window's loop.
unfoldable pub write_block : FoundBlock → ℕ → ℕ → ℕ → ℕ → Totals → ℕ → M (List Allocation)
write_block block window bps reward fees grouped selected = do
  fail_if (selected == 0) no_accepted_shares
  let pay = distributable reward bps
  let weighted = split_reward pay selected grouped
  inserted ← sql (insert_block (block_row block reward fees (reward - pay) window selected))
  lift inserted
  insert_allocations block.id weighted
  pure (map allocation weighted)

unfoldable pub allocate_in_tx : FoundBlock → ℕ → ℕ → ℕ → ℕ → M (List Allocation)
allocate_in_tx block window bps reward fees = do
  exists ← sql (λ t. (has_block block.id t.blocks, t))
  fail_if exists already_allocated
  rows ← sql (λ t. (upto block.cutoff_share_id t.shares, t))
  picked ← lift (select_window window rows [] 0)
  write_block block window bps reward fees picked.0 picked.1

abbrev pub is_invalid : FoundBlock → Option ℤ → ℕ → Bool
is_invalid block window bps =
    is_empty block.id
    || block.height == 0
    || block.cutoff_share_id == 0
    || not_positive window
    || ltb 10_000 bps

unfoldable pub allocate_block : FoundBlock → Option ℤ → ℕ → M (List Allocation)
allocate_block block window bps = do
  fail_if (is_invalid block window bps) invalid_block
  reward ← lift (positive_reward block.reward_atomic)
  fees ← lift (parse_big block.fees_atomic)
  tx (allocate_in_tx block (magnitude_of window) bps reward fees)
