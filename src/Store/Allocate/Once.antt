-- ===== src/Store/Allocate/Once.antt =====
-- Repeated calls of `AllocateBlock` for a block.
use mathlib.Core.Path.{subst}
use qday_pool.Prelude.{ℕ, ◌≡◌, true, false, Option, List, text_eq_refl, arith}
use qday_pool.Prelude.Int.{ℤ}
use qday_pool.Store.Tables.{Tables}
use qday_pool.Store.Sql.{ok, Db}
use qday_pool.Store.Allocate.{FoundBlock, Allocation, has_block, allocate_block}
use qday_pool.Store.Allocate.Commits.{Allocated, allocate_block-Allocated}

has_block-Allocated :
    (block : FoundBlock) (window bps : ℕ) (t t' : Tables) (allocations : List Allocation)
    → Allocated block window bps t t' allocations
    → has_block block.id t'.blocks ≡ true
has_block-Allocated block window bps t t' allocations d =
    rw d.written (ground (arith, text_eq_refl block.id))

-- Where a call has returned allocations, no later call for the same id on those tables returns
-- allocations again, whatever its window, its fee, the rest of its block and the driver do.
pub allocate_block_once :
    (block block' : FoundBlock) (window window' : Option ℤ) (bps bps' : ℕ) (db db' db₂ db₃ : Db)
    (allocations allocations' : List Allocation)
    → allocate_block block window bps db ≡ (ok allocations, db')
    → block'.id ≡ block.id
    → db₂.tables ≡ db'.tables
    → ¬ (allocate_block block' window' bps' db₂ ≡ (ok allocations', db₃))
allocate_block_once block block' window window' bps bps' db db' db₂ db₃ allocations allocations' h
      same there again =
    let first = allocate_block-Allocated block window bps db db' allocations h in
    let second = allocate_block-Allocated block' window' bps' db₂ db₃ allocations' again in
    let taken = has_block-Allocated block _ bps db.tables db'.tables allocations first in
    let free : has_block block.id db'.tables.blocks ≡ false =
      subst (λ id. has_block id db'.tables.blocks ≡ false) same
        (subst (λ (t : Tables). has_block block'.id t.blocks ≡ false) there second.fresh) in
    ground (arith, taken, free)
