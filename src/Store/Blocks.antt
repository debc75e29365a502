-- ===== src/Store/Blocks.antt =====
-- `SetBlockState`, `SetBlockError`, and the queries over the blocks table.
pub mod States
use qday_pool.Prelude.{
  ℕ, ◌+◌, ◌%◌, Bool, true, false, not, ◌&&◌, ◌||◌, Option, none, some, List, [], ◌∷◌, Text, text_eq,
  leb, ltb, take, drop, keep, map, length, if◌then◌else◌,
}
use qday_pool.Prelude.Int.{ℤ, pos, pos_part, ltb_ℤ}
use qday_pool.Prelude.Sort.{sort_slice}
use qday_pool.Store.Tables.{BlockRow, Tables, BlockStatus}
use qday_pool.Store.Allocate.{u64}
use qday_pool.Store.Sql.{
  Result, ok, err, M, ◌>>=◌, ◌>>◌, pure, lift, fail_if, or_fail, sql, no_rows, invalid_page,
}

unfoldable pub find_block : Text → List BlockRow → Option BlockRow
find_block id [] = none
find_block id (row ∷ rows) = if text_eq row.id id then some row else find_block id rows

-- `UPDATE blocks SET … WHERE …`
unfoldable pub update_where :
    (BlockRow → Bool) → (BlockRow → BlockRow) → List BlockRow → List BlockRow
update_where p f [] = []
update_where p f (row ∷ rows) = (if p row then f row else row) ∷ update_where p f rows

-- The `switch` of `SetBlockState`: the new status of a block at `height` that matures at
-- `maturity` and had status `old`. `height + 6` is a uint64.
unfoldable pub next_status : Bool → Bool → ℕ → ℕ → ℕ → BlockStatus → BlockStatus
next_status known canonical tip height maturity old =
    if canonical && leb maturity tip
    then BlockStatus.mature
    else if canonical
    then BlockStatus.pending
    else if leb ((height + 6) % u64) tip
    then BlockStatus.orphan
    else if not known
    then BlockStatus.pending
    else old

-- What the UPDATE of `SetBlockState` writes in a row.
abbrev pub observed : Bool → ℕ → BlockStatus → Text → BlockRow → BlockRow
observed canonical confirmations status failure row = record row {
  confirmations = confirmations;
  canonical = canonical;
  status = status;
  last_error = failure;
}

-- The arguments are those of `SetBlockState`; the result is the new status.
unfoldable pub set_block_state : Text → Bool → Bool → ℕ → ℕ → Text → M BlockStatus
set_block_state id known canonical confirmations tip failure = do
  found ← sql (λ t. (find_block id t.blocks, t))
  row ← lift (or_fail found no_rows)
  let status = next_status known canonical tip row.height row.maturity_height row.status
  sql λ t. (
    tt,
    record t {
      blocks =
          update_where (λ b. text_eq b.id id) (observed canonical confirmations status failure)
            t.blocks;
    },
  )
  pure status

abbrev pub is_pending : BlockStatus → Bool
is_pending BlockStatus.pending = true
is_pending BlockStatus.mature = false
is_pending BlockStatus.orphan = false

-- `if len(failure) > 1000 { failure = failure[:1000] }`
abbrev pub truncate : Text → Text
truncate failure = if ltb 1_000 (length failure) then take 1_000 failure else failure

unfoldable pub set_block_error : Text → Text → M (Unit {0})
set_block_error id failure = sql λ t. (
  tt,
  record t {
    blocks =
        update_where (λ b. text_eq b.id id && is_pending b.status)
          (λ b. record b { last_error = truncate failure }) t.blocks;
  },
)

abbrev pub lower : BlockRow → BlockRow → Bool
lower a b = ltb a.height b.height

-- `WHERE status='pending' ORDER BY height ASC LIMIT ?`
unfoldable pub pending_blocks : ℤ → M (List BlockRow)
pending_blocks limit = do
  fail_if (ltb_ℤ limit (pos 1) || ltb_ℤ (pos 1_000) limit) invalid_page
  sql λ t. (take (pos_part limit) (sort_slice lower (keep (λ b. is_pending b.status) t.blocks)), t)

abbrev pub same_status : BlockStatus → BlockStatus → Bool
same_status BlockStatus.pending BlockStatus.pending = true
same_status BlockStatus.mature BlockStatus.mature = true
same_status BlockStatus.orphan BlockStatus.orphan = true
same_status _ _ = false

-- `none` is the empty status, which filters nothing.
abbrev pub has_status : Option BlockStatus → BlockRow → Bool
has_status none b = true
has_status (some s) b = same_status b.status s

-- `Blocks`: `ORDER BY height DESC LIMIT ? OFFSET ?`
unfoldable pub block_page : Option BlockStatus → ℤ → ℤ → M (List BlockRow)
block_page status limit offset = do
  fail_if (ltb_ℤ limit (pos 1) || ltb_ℤ (pos 200) limit || ltb_ℤ offset (pos 0)) invalid_page
  sql λ t.
      let rows = sort_slice (λ a b. lower b a) (keep (has_status status) t.blocks) in
      (take (pos_part limit) (drop (pos_part offset) rows), t)

-- `BlockCount`
unfoldable pub block_count : M ℕ
block_count = sql (λ t. (length t.blocks, t))
