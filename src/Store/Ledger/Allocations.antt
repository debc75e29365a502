-- ===== src/Store/Ledger/Allocations.antt =====
-- The invariant of the database under `AllocateBlock`.
use mathlib.Core.Path.{subst}
use qday_pool.Prelude.{
  ℕ, ◌≡◌, refl, sym, inl, inr, true, false, Option, List, ◌∷◌, Text, arith, All, All-map, ap, ◌∙◌,
  text_eq_refl,
}
use qday_pool.Prelude.Int.{ℤ}
use qday_pool.Store.Tables.{AllocationRow, BlockRow, Tables, BlockStatus}
use qday_pool.Store.Sql.{Result, Db, Result-cases}
use qday_pool.Store.Allocate.{FoundBlock, Allocation, allocate_block, has_block}
use qday_pool.Store.Allocate.Commits.{allocate_block-Allocated, allocate_block_atomic, push_rows}
use qday_pool.Store.Split.{Weighted}
use qday_pool.Store.Balances.{block_status}
use qday_pool.Store.Balances.Sums.{is_mature, mature_for}
use qday_pool.Store.Blocks.{find_block}
use qday_pool.Store.Ledger.{Ledger}
use qday_pool.Store.Ledger.Credits.{mature_parts-cons, mature_parts-push_rows, push_rows-owned}

-- A found block and its allocations.
module _ (row : BlockRow) (es : List Weighted) (t : Tables) (g : Ledger t)
    (fresh : has_block row.id t.blocks ≡ false) (pending : row.status ≡ BlockStatus.pending) where
  allocated : Tables
  allocated = record t { blocks = row ∷ t.blocks; allocations = push_rows row.id es t.allocations }

  not_yet : is_mature (block_status (row ∷ t.blocks) row.id) ≡ false
  unfolding block_status find_block
  not_yet = ground (arith, text_eq_refl row.id)

  has_new : has_block row.id (row ∷ t.blocks) ≡ true
  has_new = ground (arith, text_eq_refl row.id)

  still_owned :
      (rows : List AllocationRow)
      → All (λ r. has_block r.block_id t.blocks ≡ true) rows
      → All (λ r. has_block r.block_id (row ∷ t.blocks) ≡ true) rows
  still_owned rows h = All-map (λ r (p : has_block r.block_id t.blocks ≡ true). ground arith) rows h

  mature_for-allocated : (a : Text) → mature_for a allocated ≡ mature_for a t
  unfolding allocated
  mature_for-allocated a =
      mature_parts-push_rows a row.id (row ∷ t.blocks) es t.allocations not_yet
      ∙ mature_parts-cons a row t.blocks t.allocations fresh g.owned

  allocated-Ledger : Ledger allocated
  unfolding allocated
  allocated-Ledger = record {
    shares_valid = record {
      numbered = g.shares_valid.numbered;
      worked = g.shares_valid.worked;
      unique = g.shares_valid.unique;
    };
    unique_blocks = (fresh, g.unique_blocks);
    owned =
        push_rows-owned row.id (row ∷ t.blocks) es t.allocations has_new
          (still_owned t.allocations g.owned);
    numbered = g.numbered;
    listed = g.listed;
    solvent = λ a. omega (arith, mature_for-allocated a, g.solvent a);
  }

pub allocate_block-Ledger :
    (block : FoundBlock) (window : Option ℤ) (bps : ℕ) (db : Db)
    → Ledger db.tables
    → Ledger (allocate_block block window bps db).1.tables
unfolding allocated
allocate_block-Ledger block window bps db g =
    let call = allocate_block block window bps db in
    elim (Result-cases call.0) [
      | inl (allocations, p) ↦
          let d =
            allocate_block-Allocated block window bps db call.1 allocations
              (ap (λ x. let y : Result (List Allocation) × Db = (x, call.1) in y) p) in
          subst Ledger (sym d.written) (allocated-Ledger _ _ db.tables g d.fresh refl)
      | inr (e, p) ↦
          subst Ledger
            (sym (
              allocate_block_atomic block window bps db call.1 e
                (ap (λ x. let y : Result (List Allocation) × Db = (x, call.1) in y) p)))
            g
    ]
