-- ===== src/Store/Ledger/Credits.antt =====
-- The mature credit under the operations that write blocks and allocations.
use qday_pool.Prelude.{
  ℕ, ◌≤◌, ◌≡◌, refl, Bool, true, false, List, [], ◌∷◌, Text, text_eq, text_eq_iff, arith,
  Bool-cases, inl, inr, sum_of, All,
}
use qday_pool.Store.Tables.{BlockRow, AllocationRow, BlockStatus}
use qday_pool.Store.Split.{Weighted}
use qday_pool.Store.Allocate.{has_block, allocation_row}
use qday_pool.Store.Allocate.Commits.{push_rows}
use qday_pool.Store.Blocks.{update_where, observed}
use qday_pool.Store.Balances.{block_status}
use qday_pool.Store.Ledger.{UniqueIds}
use qday_pool.Store.Balances.Sums.{is_mature, mature_part}

-- A new block changes the status of no block that is there.
block_status-cons :
    (b : BlockRow) (blocks : List BlockRow) (id : Text)
    → has_block b.id blocks ≡ false
    → has_block id blocks ≡ true
    → block_status (b ∷ blocks) id ≡ block_status blocks id
unfolding block_status
block_status-cons b blocks id fresh old = ground (arith, text_eq_iff b.id id)

pub mature_parts-cons :
    (a : Text) (b : BlockRow) (blocks : List BlockRow) (rows : List AllocationRow)
    → has_block b.id blocks ≡ false
    → All (λ row. has_block row.block_id blocks ≡ true) rows
    → sum_of (mature_part a (b ∷ blocks)) rows ≡ sum_of (mature_part a blocks) rows
mature_parts-cons a b blocks [] fresh h = refl
mature_parts-cons a b blocks (row ∷ rows) fresh (p, h) = ground (
  arith,
  block_status-cons b blocks row.block_id fresh p,
  mature_parts-cons a b blocks rows fresh h,
)

-- Allocations of a block that is not mature add nothing yet.
pub mature_parts-push_rows :
    (a id : Text) (blocks : List BlockRow) (es : List Weighted) (rows : List AllocationRow)
    → is_mature (block_status blocks id) ≡ false
    → sum_of (mature_part a blocks) (push_rows id es rows) ≡ sum_of (mature_part a blocks) rows
unfolding push_rows
mature_parts-push_rows a id blocks [] rows h = refl
mature_parts-push_rows a id blocks (e ∷ es) rows h =
    ground (arith, mature_parts-push_rows a id blocks es (allocation_row id e ∷ rows) h)

pub push_rows-owned :
    (id : Text) (blocks : List BlockRow) (es : List Weighted) (rows : List AllocationRow)
    → has_block id blocks ≡ true
    → All (λ row. has_block row.block_id blocks ≡ true) rows
    → All (λ row. has_block row.block_id blocks ≡ true) (push_rows id es rows)
unfolding push_rows
push_rows-owned id blocks [] rows p h = h
push_rows-owned id blocks (e ∷ es) rows p h =
    push_rows-owned id blocks es (allocation_row id e ∷ rows) p (p, h)

-- An update that keeps the ids.
module _ (p : BlockRow → Bool) (f : BlockRow → BlockRow)
    (same_id : (b : BlockRow) → (f b).id ≡ b.id) where
  has_block-update :
      (id : Text) (blocks : List BlockRow)
      → has_block id (update_where p f blocks) ≡ has_block id blocks
  unfolding update_where
  has_block-update id [] = refl
  has_block-update id (b ∷ blocks) = ground (arith, has_block-update id blocks, same_id b)

  pub unique-update :
      (blocks : List BlockRow) → UniqueIds blocks → UniqueIds (update_where p f blocks)
  unfolding update_where
  unique-update [] u = tt
  unique-update (b ∷ blocks) (new, u) =
      (ground (arith, has_block-update b.id blocks, same_id b), unique-update blocks u)

  pub owned-update :
      (blocks : List BlockRow) (rows : List AllocationRow)
      → All (λ row. has_block row.block_id blocks ≡ true) rows
      → All (λ row. has_block row.block_id (update_where p f blocks) ≡ true) rows
  owned-update blocks [] h = tt
  owned-update blocks (row ∷ rows) (q, h) =
      (ground (arith, has_block-update row.block_id blocks), owned-update blocks rows h)

-- No block is mature that was, and is not any more.
abbrev pub Keeps : List BlockRow → List BlockRow → Type 0
Keeps blocks blocks' =
    (id : Text)
    → is_mature (block_status blocks id) ≡ true
    → is_mature (block_status blocks' id) ≡ true

pub mature_parts-Keeps :
    (a : Text) (blocks blocks' : List BlockRow) (rows : List AllocationRow)
    → Keeps blocks blocks'
    → sum_of (mature_part a blocks) rows ≤ sum_of (mature_part a blocks') rows
mature_parts-Keeps a blocks blocks' [] k = omega arith
mature_parts-Keeps a blocks blocks' (row ∷ rows) k =
    ground (arith, k row.block_id, mature_parts-Keeps a blocks blocks' rows k)

-- An update of one id leaves the status under every other id alone.
pub block_status-update_ne :
    (id j : Text) (f : BlockRow → BlockRow) (blocks : List BlockRow)
    → ((b : BlockRow) → (f b).id ≡ b.id)
    → text_eq id j ≡ false
    → block_status (update_where (λ b. text_eq b.id id) f blocks) j ≡ block_status blocks j
unfolding update_where block_status
block_status-update_ne id j f [] same ne = refl
block_status-update_ne id j f (b ∷ blocks) same ne = ground (
  arith,
  block_status-update_ne id j f blocks same ne,
  same b,
  text_eq_iff b.id id,
  text_eq_iff b.id j,
  text_eq_iff id j,
)

-- The update of `SetBlockState`, on a block whose row is still pending.
pub observed-Keeps :
    (id : Text) (canonical : Bool) (confirmations : ℕ) (status : BlockStatus) (failure : Text)
    (blocks : List BlockRow)
    → is_mature (block_status blocks id) ≡ false
    → Keeps blocks (
        update_where
          (λ b. text_eq b.id id)
          (observed canonical confirmations status failure)
          blocks)
observed-Keeps id canonical confirmations status failure blocks new j old =
    let f = observed canonical confirmations status failure in
    elim (Bool-cases (text_eq id j)) [
      | inl same ↦ absurd (ground (arith, text_eq_iff id j))
      | inr other ↦ rw (block_status-update_ne id j f blocks (λ b. refl) other) old
    ]

-- An update that keeps the ids and the statuses.
pub statuses-Keeps :
    (p : BlockRow → Bool) (f : BlockRow → BlockRow) (blocks : List BlockRow)
    → ((b : BlockRow) → (f b).id ≡ b.id)
    → ((b : BlockRow) → (f b).status ≡ b.status)
    → Keeps blocks (update_where p f blocks)
unfolding update_where block_status
statuses-Keeps p f [] same_id same j old = old
statuses-Keeps p f (b ∷ blocks) same_id same j old =
    ground (arith, statuses-Keeps p f blocks same_id same j, same_id b, same b)
