-- ===== src/Store/Examples.antt =====
-- A run of the store on concrete tables: three shares, a found block, its maturity and a batch.
pub mod Witnesses
mod Confirmed
mod Statistics
use qday_pool.Float.{finite}
use qday_pool.Prelude.{
  ℕ, zero, suc, ◌+◌, ◌-◌, ◌≤◌, ◌<◌, ◌≡◌, refl, Bool, true, false, Option, none, some, List, [], ◌∷◌,
  Text, codes, text_eq, text_lt, ◌==◌, arith,
}
use qday_pool.Prelude.Int.{ℤ, pos, negsuc}
use qday_pool.Prelude.Sort.{insert_sorted, sort_slice}
use qday_pool.Prelude.Hex.{hex_encode}
use qday_pool.Decimal.{decimal, to_string, digits, set_string, magnitude, scan}
use qday_pool.Store.Tables.{
  Time, Tables, ShareRow, BlockRow, AllocationRow, PayoutRow, ItemRow, BlockStatus, PayoutStatus,
}
use qday_pool.Store.Totals.{parse_big, add_amount, value, atoms}
use qday_pool.Store.Sql.{Result, ok, err, Error, Db, sql_error, healthy, sql, tx, finish}
use qday_pool.Store.Window.{select_window}
use qday_pool.Store.Split.{split_reward, hand_out, add_one_at}
use qday_pool.Store.Shares.{Share, insert_share, record_share}
use qday_pool.Store.Allocate.{
  FoundBlock, Allocation, positive_reward, insert_block, insert_allocation, insert_allocations,
  write_block, allocate_in_tx, allocate_block,
}
use qday_pool.Store.Blocks.{find_block, update_where, next_status, set_block_state}
use qday_pool.Store.Balances.{balances, credit_rows, reserve_rows, block_status, payout_status}
use qday_pool.Store.Balances.Sums.{is_mature}
use qday_pool.Store.Payouts.{
  PayoutItem, Payout, available, insert_payout, insert_item, insert_items, write_payout,
  prepare_in_tx, prepare_payouts,
}
use qday_pool.Store.PayoutStates.{AddressAccount, distinct_workers, account}
use qday_pool.Store.Ledger.Reach.{
  Call, recorded, allocated, block_observed, run, empty, Reach, opened, called,
}

abbrev pub no_failure : ℕ → Bool
no_failure _ = false

abbrev pub share : Text → ℕ → Text → Share
share address work hash = record {
  created_at = pos 1_700_000_000_000;
  height = 7;
  parent_id = codes "parent";
  job_id = codes "1";
  address = address;
  worker = codes "rig";
  difficulty = finite false 0;
  work = some (pos work);
  hash = hash;
}

abbrev pub alice : Text
alice = codes "alice"

abbrev pub bob : Text
bob = codes "bob"

abbrev pub share_row : ℕ → Text → Text → Text → ShareRow
share_row id address work hash = record {
  id = id;
  created_at = pos 1_700_000_000_000;
  height = 7;
  parent_id = codes "parent";
  job_id = codes "1";
  address = address;
  worker = codes "rig";
  difficulty = finite false 0;
  work = work;
  hash = hash;
}

abbrev pub shared : Tables
shared = record empty {
  shares =
      share_row 3 alice (codes "10") (codes "h3")
      ∷ share_row 2 bob (codes "20") (codes "h2")
      ∷ share_row 1 alice (codes "30") (codes "h1")
      ∷ [];
  share_seq = 3;
}

abbrev pub calls_of : List Call → Tables → Tables
calls_of [] t = t
calls_of (c ∷ cs) t = calls_of cs (run c (record { tables = t; fails = no_failure })).tables

shared_run :
    calls_of
      (recorded (share alice 30 (codes "h1"))
        ∷ recorded (share bob 20 (codes "h2"))
        ∷ recorded (share alice 10 (codes "h3"))
        ∷ [])
      empty
    ≡ shared
unfolding run record_share insert_share sql decimal to_string text_eq
shared_run = refl

abbrev pub block : FoundBlock
block = record {
  id = codes "b1";
  height = 8;
  found_at = pos 1_700_000_001_000;
  found_by_address = alice;
  found_by_worker = codes "rig";
  reward_atomic = codes "1000";
  fees_atomic = codes "5";
  maturity_height = 0;
  cutoff_share_id = 3;
}

abbrev pub allocation_of : Text → Text → Text → Allocation
allocation_of address work amount = record {
  address = address;
  work = work;
  amount_atomic = amount;
}

abbrev pub allocations : List Allocation
allocations =
    allocation_of alice (codes "25") (codes "550")
    ∷ allocation_of bob (codes "20") (codes "440")
    ∷ []

abbrev pub window : Option ℤ
window = some (pos 45)

abbrev pub frozen : Db
frozen = (allocate_block block window 100 (healthy shared)).1

pub allocate_run : allocate_block block window 100 (healthy shared) ≡ (ok allocations, frozen)
unfolding allocate_block positive_reward parse_big set_string magnitude scan decimal allocate_in_tx
    select_window add_amount write_block split_reward text_eq text_lt hand_out add_one_at sort_slice
    insert_sorted insert_block insert_allocation insert_allocations sql tx finish
allocate_run = refl

abbrev pub status_of : Bool → ℕ → Call
status_of canonical tip = block_observed (codes "b1") true canonical 60 tip []

abbrev pub matured : Db
matured = run (status_of true 68) (record { tables = frozen.tables; fails = no_failure })

abbrev pub prepare : Db → Result (Option Payout) × Db
prepare =
    prepare_payouts (some (pos 100)) (some (pos 3)) (pos 100) (some (7 ∷ 255 ∷ []))
      (pos 1_700_000_100_000)

abbrev pub paid : Db
paid = (prepare (healthy matured.tables)).1

abbrev pub item_of : Text → Text → PayoutItem
item_of address amount = record { address = address; amount_atomic = amount }

abbrev pub batch : Payout
batch = record {
  row = record {
    id = 1;
    request_id = codes "payout-07ff";
    created_at = pos 1_700_000_100_000;
    submitted_at = none;
    transaction_id = [];
    amount_atomic = codes "990";
    fee_atomic = codes "3";
    status = PayoutStatus.prepared;
    last_error = [];
  };
  items = item_of alice (codes "550") ∷ item_of bob (codes "440") ∷ [];
  outputs = 2;
}

-- The tables with the mature block.
abbrev pub mature_tables : Tables
mature_tables = record shared {
  blocks =
      (record {
        id = codes "b1";
        height = 8;
        found_at = pos 1_700_000_001_000;
        found_by_address = alice;
        found_by_worker = codes "rig";
        reward_atomic = codes "1000";
        fees_atomic = codes "5";
        pool_fee_atomic = codes "10";
        window_work = codes "45";
        selected_work = codes "45";
        maturity_height = 68;
        confirmations = 60;
        canonical = true;
        status = BlockStatus.mature;
        last_error = [];
      })
      ∷ [];
  allocations =
      (record {
        block_id = codes "b1";
        address = bob;
        work = codes "20";
        amount_atomic = codes "440";
      })
      ∷ (record {
        block_id = codes "b1";
        address = alice;
        work = codes "25";
        amount_atomic = codes "550";
      })
      ∷ [];
}

pub matured_run : matured.tables ≡ mature_tables
unfolding run set_block_state find_block update_where next_status allocate_block positive_reward
    parse_big set_string magnitude scan decimal allocate_in_tx select_window add_amount write_block
    split_reward hand_out add_one_at sort_slice insert_sorted insert_block insert_allocation
    insert_allocations sql tx finish text_eq text_lt
matured_run = refl

pub prepare_run :
    prepare (healthy mature_tables) ≡ (ok (some batch), (prepare (healthy mature_tables)).1)
unfolding prepare_payouts prepare_in_tx balances credit_rows reserve_rows block_status payout_status
    find_block available write_payout insert_payout insert_items insert_item value parse_big
    set_string magnitude scan decimal add_amount sort_slice insert_sorted sql tx finish text_eq
    text_lt hex_encode
prepare_run = refl

pub frozen_pending : is_mature (block_status frozen.tables.blocks (codes "b1")) ≡ false
unfolding block_status find_block allocate_block positive_reward parse_big set_string magnitude scan
    decimal allocate_in_tx select_window add_amount write_block split_reward hand_out add_one_at
    sort_slice insert_sorted insert_block insert_allocation insert_allocations sql tx finish text_eq
    text_lt
frozen_pending = refl

-- Statement 6, the commit, fails behind the inserts.
abbrev pub failing : Tables → Db
failing t = record { tables = t; fails = λ n. n == 6 }

pub failed_commit :
    allocate_block block window 100 (failing shared)
    ≡ (err sql_error, (allocate_block block window 100 (failing shared)).1)
unfolding allocate_block positive_reward parse_big set_string magnitude scan decimal allocate_in_tx
    select_window add_amount write_block split_reward hand_out add_one_at sort_slice insert_sorted
    insert_block insert_allocation insert_allocations sql tx finish text_eq text_lt
failed_commit = refl

pub failed_batch :
    prepare (failing mature_tables) ≡ (err sql_error, (prepare (failing mature_tables)).1)
unfolding prepare_payouts prepare_in_tx balances credit_rows reserve_rows block_status payout_status
    find_block available write_payout insert_payout insert_items insert_item value parse_big
    set_string magnitude scan decimal add_amount sort_slice insert_sorted sql tx finish text_eq
    text_lt hex_encode
failed_batch = refl

abbrev pub alice_account : AddressAccount
alice_account = record {
  address = alice;
  mature_atomic = codes "550";
  pending_atomic = codes "0";
  paid_atomic = codes "0";
  balance_atomic = codes "550";
  shares = 2;
  workers = 1;
}

pub account_run :
    account alice (healthy mature_tables)
    ≡ (ok alice_account, (account alice (healthy mature_tables)).1)
unfolding account distinct_workers to_string balances credit_rows reserve_rows block_status
    payout_status find_block value parse_big set_string magnitude scan decimal add_amount sql tx
    finish text_eq
account_run = refl
