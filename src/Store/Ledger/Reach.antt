-- ===== src/Store/Ledger/Reach.antt =====
-- The runs of the store: any sequence of the operations that change its tables, of which any
-- statement may fail. The store has one connection, so a run is a sequence of them.
use qday_pool.Prelude.{ℕ, ◌≤◌, ◌≡◌, Bool, false, Option, List, [], Text, arith}
use qday_pool.Prelude.Int.{ℤ}
use qday_pool.Store.Tables.{Time, Tables, PayoutStatus}
use qday_pool.Store.Sql.{Db}
use qday_pool.Store.Shares.{Share, record_share, delete_share, prune_shares}
use qday_pool.Store.Allocate.{FoundBlock, allocate_block}
use qday_pool.Store.Blocks.{set_block_state, set_block_error}
use qday_pool.Store.Balances.{block_status}
use qday_pool.Store.Balances.Sums.{is_mature, mature_for, reserved_for}
use qday_pool.Store.Payouts.{prepare_payouts}
use qday_pool.Store.PayoutStates.{set_payout_state, payout_error}
use qday_pool.Store.Ledger.{Ledger}
use qday_pool.Store.Ledger.Keeps.{
  record_share-Ledger, delete_share-Ledger, prune_shares-Ledger, set_block_error-Ledger,
  set_block_state-Ledger, set_payout_state-Ledger, payout_error-Ledger,
}
use qday_pool.Store.Ledger.Allocations.{allocate_block-Ledger}
use qday_pool.Store.Ledger.Payouts.{prepare_payouts-Ledger}

-- The calls that write. `SetBlockState` is called for blocks of `PendingBlocks` alone.
pub data Call : Type 0 where
  recorded : Share → Call
  deleted : Text → Call
  pruned : Option ℤ → Call
  allocated : FoundBlock → Option ℤ → ℕ → Call
  block_observed : Text → Bool → Bool → ℕ → ℕ → Text → Call
  block_failed : Text → Text → Call
  payouts_prepared : Option ℤ → Option ℤ → ℤ → Option (List ℕ) → Time → Call
  payout_advanced : ℕ → Text → PayoutStatus → Time → Call
  payout_failed : ℕ → Text → Call

unfoldable pub run : Call → Db → Db
run (recorded s) db = (record_share s db).1
run (deleted h) db = (delete_share h db).1
run (pruned r) db = (prune_shares r db).1
run (allocated b w bps) db = (allocate_block b w bps db).1
run (block_observed id k c n tip f) db = (set_block_state id k c n tip f db).1
run (block_failed id f) db = (set_block_error id f db).1
run (payouts_prepared threshold fee max entropy now) db =
    (prepare_payouts threshold fee max entropy now db).1
run (payout_advanced id tx s now) db = (set_payout_state id tx s now db).1
run (payout_failed id f) db = (payout_error id f db).1

-- What the caller checks before the call.
unfoldable pub Allowed : Call → Tables → Type 0
Allowed (block_observed id k c n tip f) t = is_mature (block_status t.blocks id) ≡ false
Allowed _ t = Unit

abbrev pub empty : Tables
empty = record {
  shares = [];
  blocks = [];
  allocations = [];
  payouts = [];
  items = [];
  share_seq = 0;
  payout_seq = 0;
}

-- The databases that calls reach from the empty one; the driver fails as it likes at each call.
pub data Reach : Tables → Type 0 where
  opened : Reach empty
  called :
      (t : Tables) (c : Call) (fails : ℕ → Bool)
      → Reach t
      → Allowed c t
      → Reach (run c (record { tables = t; fails = fails })).tables

run-Ledger :
    (c : Call) (db : Db) → Allowed c db.tables → Ledger db.tables → Ledger (run c db).tables
unfolding run Allowed
run-Ledger (recorded s) db h g = record_share-Ledger s db g
run-Ledger (deleted h) db _ g = delete_share-Ledger h db g
run-Ledger (pruned r) db h g = prune_shares-Ledger r db g
run-Ledger (allocated b w bps) db h g = allocate_block-Ledger b w bps db g
run-Ledger (block_observed id k c n tip f) db h g = set_block_state-Ledger id k c n tip f db h g
run-Ledger (block_failed id f) db h g = set_block_error-Ledger id f db g
run-Ledger (payouts_prepared threshold fee max entropy now) db h g =
    prepare_payouts-Ledger threshold fee max entropy now db g
run-Ledger (payout_advanced id tx s now) db h g = set_payout_state-Ledger id tx s now db g
run-Ledger (payout_failed id f) db h g = payout_error-Ledger id f db g

empty-Ledger : Ledger empty
empty-Ledger = record {
  shares_valid = record { numbered = tt; worked = tt; unique = tt };
  unique_blocks = tt;
  owned = tt;
  numbered = tt;
  listed = tt;
  solvent = λ a. omega arith;
}

pub Reach-Ledger : (t : Tables) → Reach t → Ledger t
Reach-Ledger _ opened = empty-Ledger
Reach-Ledger _ (called t c fails r allowed) =
    run-Ledger c (record { tables = t; fails = fails }) allowed (Reach-Ledger t r)

pub reserved_le_mature : (t : Tables) (a : Text) → Reach t → reserved_for a t ≤ mature_for a t
reserved_le_mature t a r = Ledger.solvent (Reach-Ledger t r) a
