-- ===== src/Store/Examples/Witnesses.antt =====
-- The store's theorems at the run of the parent module.
use mathlib.Core.Path.{subst}
use qday_pool.Prelude.{
  ◌+◌, ◌-◌, ◌*◌, ◌≤◌, ◌<◌, min, ◌≡◌, refl, ◌↔◌, true, false, some, List, [], ◌∷◌, codes, text_eq,
  length, keep, sum_of, All, arith,
}
use qday_pool.Prelude.Int.{pos}
use qday_pool.Decimal.{decimal, set_string, magnitude, scan}
use qday_pool.Store.Tables.{Tables, BlockRow, BlockStatus}
use qday_pool.Store.Totals.{parse_big, parse_big_iff, atoms}
use qday_pool.Store.Sql.{ok, Db, healthy, sql, sql_error}
use mathlib.Core.List.{Perm, map}
use qday_pool.Prelude.Sort.{IsSorted}
use qday_pool.Store.Totals.{Totals}
use qday_pool.Store.Split.{by_address, split_reward}
use qday_pool.Store.Split.Ranks.{entry, split_reward-perm}
use qday_pool.Store.Window.{select_window}
use qday_pool.Store.Window.Credit.{total_work, window_credit}
use qday_pool.Store.Shares.{
  Share, has_hash, record_share, delete_share, prune_shares, prune_cutoff, delete_before,
}
use qday_pool.Store.Shares.Prune.{
  newest, upto, newer_work, prune_shares-newest, prune_keeps_windows,
}
use qday_pool.Store.Shares.Once.{delete_share-record_share}
use qday_pool.Store.Allocate.{Allocation, distributable, allocate_block, positive_reward}
use qday_pool.Store.Allocate.Commits.{allocate_block_atomic}
use qday_pool.Store.Allocate.Accounts.{
  newest_reserve, allocate_block-sums, allocate_block-credits, allocate_block-rounds,
}
use qday_pool.Store.Allocate.Once.{allocate_block_once}
use qday_pool.Store.Allocate.Succeeds.{allocate_block_succeeds}
use qday_pool.Store.Blocks.{find_block}
use qday_pool.Store.Balances.{block_status}
use qday_pool.Store.Balances.Sums.{mature_for, reserved_for}
use qday_pool.Store.Payouts.Commits.{prepare_payouts_atomic}
use qday_pool.Store.Payouts.Items.{Batch, prepare_payouts-Batch}
use qday_pool.Store.PayoutStates.Accounts.{account-balance}
use qday_pool.Store.Ledger.{Ledger}
use qday_pool.Store.Ledger.Reach.{
  recorded, allocated, payouts_prepared, run, Allowed, Reach, opened, called, Reach-Ledger,
  reserved_le_mature,
}
use qday_pool.Store.Examples.{
  no_failure, share, alice, bob, shared, shared_run, block, allocations, window, frozen,
  allocate_run, status_of, prepare, batch, mature_tables, matured_run, prepare_run, alice_account,
  account_run, frozen_pending, failing, failed_commit, failed_batch,
}

shared-Reach : Reach shared
unfolding Allowed
shared-Reach = subst Reach shared_run (
    called _ (recorded (share alice 10 (codes "h3"))) no_failure
      (called _ (recorded (share bob 20 (codes "h2"))) no_failure
        (called _ (recorded (share alice 30 (codes "h1"))) no_failure opened tt) tt)
      tt)

shared-Ledger : Ledger shared
shared-Ledger = Reach-Ledger shared shared-Reach

frozen_Reach : Reach frozen.tables
unfolding Allowed run
frozen_Reach = called shared (allocated block window 100) no_failure shared-Reach tt

pub mature_Reach : Reach mature_tables
unfolding Allowed run block_status find_block
mature_Reach =
    subst Reach matured_run
      (called frozen.tables (status_of true 68) no_failure frozen_Reach frozen_pending)

abbrev pub paid_db : Db
paid_db = (prepare (healthy mature_tables)).1

pub paid_Reach : Reach paid_db.tables
unfolding Allowed run
paid_Reach =
    called mature_tables
      (payouts_prepared (some (pos 100)) (some (pos 3)) (pos 100) (some (7 ∷ 255 ∷ []))
        (pos 1_700_000_100_000))
      no_failure mature_Reach tt

allocate_block-sums_example :
    sum_of (λ a. atoms a.amount_atomic) allocations + newest_reserve frozen.tables.blocks
    ≡ atoms (codes "1000")
allocate_block-sums_example =
    allocate_block-sums block window 100 (healthy shared) frozen allocations allocate_run

allocate_block-credits_example :
    let rows = upto 3 shared.shares in
    All (λ a. atoms a.work ≡ window_credit 45 0 a.address rows) allocations
    × (sum_of (λ a. atoms a.work) allocations ≡ min 45 (total_work rows))
allocate_block-credits_example =
    allocate_block-credits block window 100 (healthy shared) frozen allocations allocate_run

allocate_block-rounds_example :
    let pay = distributable (atoms (codes "1000")) 100 in
    let all = min 45 (total_work (upto 3 shared.shares)) in
    All
      (λ a.
        (all * atoms a.amount_atomic < pay * atoms a.work + all)
        × (pay * atoms a.work < all * atoms a.amount_atomic + all))
      allocations
allocate_block-rounds_example =
    allocate_block-rounds block window 100 (healthy shared) frozen allocations allocate_run

allocate_block_once_example : ¬ (
    allocate_block block (some (pos 1)) 0 (healthy frozen.tables) ≡ (ok [], healthy frozen.tables))
allocate_block_once_example =
    allocate_block_once block block window (some (pos 1)) 100 0 (healthy shared) frozen
      (healthy frozen.tables) (healthy frozen.tables) allocations [] allocate_run refl refl

allocate_block_atomic_example : (allocate_block block window 100 (failing shared)).1.tables ≡ shared
allocate_block_atomic_example =
    allocate_block_atomic block window 100 (failing shared) _ sql_error failed_commit

prepare_payouts_atomic_example : (prepare (failing mature_tables)).1.tables ≡ mature_tables
prepare_payouts_atomic_example =
    prepare_payouts_atomic (some (pos 100)) (some (pos 3)) (pos 100) (some (7 ∷ 255 ∷ []))
      (pos 1_700_000_100_000) (failing mature_tables) _ sql_error failed_batch

prepare_payouts-Batch_example : Batch 100 100 mature_tables batch
prepare_payouts-Batch_example =
    prepare_payouts-Batch (some (pos 100)) (some (pos 3)) (pos 100) (some (7 ∷ 255 ∷ []))
      (pos 1_700_000_100_000) (healthy mature_tables) _ batch prepare_run

parse_big_iff_example : (parse_big (codes "007") ≡ ok 7) ↔ (codes "007" ≡ decimal 7)
parse_big_iff_example = parse_big_iff (codes "007") 7

reward_read : positive_reward (codes "1000") ≡ ok 1000
unfolding positive_reward parse_big set_string magnitude scan decimal text_eq
reward_read = refl

fees_read : parse_big (codes "5") ≡ ok 5
unfolding parse_big set_string magnitude scan decimal text_eq
fees_read = refl

some_work : 0 < total_work (upto 3 shared.shares)
unfolding atoms parse_big set_string magnitude scan decimal text_eq
some_work = omega arith

allocate_block_succeeds_example :
    (allocations : List Allocation) × ((allocate_block block window 100 (healthy shared)).0
      ≡ ok allocations)
allocate_block_succeeds_example =
    allocate_block_succeeds block window 100 1000 5 (healthy shared) (λ _. refl) shared-Ledger refl
      reward_read fees_read refl some_work

late_share : Share
late_share = share bob 40 (codes "h4")

late_fresh : has_hash (codes "h4") shared.shares ≡ false
unfolding text_eq
late_fresh = refl

delete_share-record_share_example :
    (delete_share late_share.hash (record_share late_share (healthy shared)).1).1.tables.shares
    ≡ shared.shares
unfolding late_share
delete_share-record_share_example =
    delete_share-record_share late_share (healthy shared) (λ _. refl) refl late_fresh

pruned : Db
pruned = (prune_shares (some (pos 30)) (healthy shared)).1

prune_run : prune_shares (some (pos 30)) (healthy shared) ≡ (ok tt, pruned)
unfolding pruned prune_shares prune_cutoff delete_before parse_big set_string magnitude scan decimal
    text_eq sql
prune_run = refl

prune_shares-newest_example : pruned.tables.shares ≡ newest 30 0 shared.shares
prune_shares-newest_example =
    prune_shares-newest (some (pos 30)) (healthy shared) pruned shared-Ledger.shares_valid prune_run

window_fits : newer_work 2 shared.shares + 20 ≤ 30
unfolding atoms parse_big set_string magnitude scan decimal text_eq
window_fits = omega arith

prune_keeps_windows_example :
    select_window 20 (upto 2 pruned.tables.shares) [] 0
    ≡ select_window 20 (upto 2 shared.shares) [] 0
prune_keeps_windows_example =
    prune_keeps_windows (some (pos 30)) (healthy shared) pruned 2 20 shared-Ledger.shares_valid
      prune_run window_fits

mature_le : reserved_for alice mature_tables ≤ mature_for alice mature_tables
mature_le = reserved_le_mature mature_tables alice mature_Reach

account-balance_example :
    (codes "550" ≡ decimal (mature_for alice mature_tables))
    × (codes "550" ≡ decimal (mature_for alice mature_tables - reserved_for alice mature_tables))
    × (2 ≡ length (keep (λ row. text_eq row.address alice) mature_tables.shares))
account-balance_example =
    account-balance alice (healthy mature_tables) _ alice_account mature_le account_run

-- The block before it matures.
abbrev pending_row : BlockRow
pending_row = record {
  id = codes "b1";
  height = 8;
  found_at = pos 1_700_000_001_000;
  found_by_address = alice;
  found_by_worker = codes "rig";
  reward_atomic = codes "1000";
  fees_atomic = codes "5";
  pool_fee_atomic = codes "10";
  window_work = codes "45";
  selected_work = codes "45";
  maturity_height = 68;
  confirmations = 1;
  canonical = true;
  status = BlockStatus.pending;
  last_error = [];
}

abbrev pending_tables : Tables
pending_tables = record mature_tables { blocks = pending_row ∷ [] }

abbrev two_miners : Totals
two_miners = (bob, 20) ∷ (alice, 25) ∷ []

split_reward-perm_example :
    Perm (map entry (split_reward 990 45 two_miners)) two_miners
    × IsSorted by_address (split_reward 990 45 two_miners)
split_reward-perm_example = split_reward-perm 990 45 two_miners (omega arith) refl
