-- ===== src/Store/Ledger.antt =====
-- The invariant of the whole database: the shares are well-formed, every allocation belongs to a
-- block and every item to a payout, and no batch reserves more than an address has in mature
-- credit.
pub mod Credits
pub mod Batches
pub mod Keeps
pub mod Allocations
pub mod Payouts
pub mod Reach
pub mod Final
use qday_pool.Prelude.{ℕ, ◌≤◌, ◌≡◌, Bool, true, false, List, [], ◌∷◌, Text, All}
use qday_pool.Store.Tables.{BlockRow, Tables}
use qday_pool.Store.Allocate.{has_block}
use qday_pool.Store.Balances.{payout_status}
use qday_pool.Store.Balances.Sums.{is_listed, mature_for, reserved_for}
use qday_pool.Store.Shares.Valid.{SharesValid}

abbrev pub IsSolvent : Tables → Type 0
IsSolvent t = (a : Text) → reserved_for a t ≤ mature_for a t

-- No id stands twice.
abbrev pub UniqueIds : List BlockRow → Type 0
UniqueIds [] = Unit
UniqueIds (b ∷ bs) = (has_block b.id bs ≡ false) × UniqueIds bs

pub record Ledger (t : Tables) : Type 0 where
  pub shares_valid : SharesValid t
  pub unique_blocks : UniqueIds t.blocks
  pub owned : All (λ row. has_block row.block_id t.blocks ≡ true) t.allocations
  pub numbered : All (λ p. p.id ≤ t.payout_seq) t.payouts
  pub listed : All (λ i. is_listed (payout_status t.payouts i.payout_id) ≡ true) t.items
  pub solvent : IsSolvent t
