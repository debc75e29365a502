-- ===== src/Store/Examples/Confirmed.antt =====
-- A confirmed payout of the run of the parent module.
use qday_pool.Prelude.{codes, text_eq, text_lt, refl}
use qday_pool.Prelude.Int.{pos}
use qday_pool.Prelude.Sort.{insert_sorted, sort_slice}
use qday_pool.Prelude.Hex.{hex_encode}
use qday_pool.Decimal.{decimal, set_string, magnitude, scan}
use qday_pool.Store.Tables.{Tables, PayoutStatus}
use qday_pool.Store.Totals.{parse_big, add_amount, value}
use qday_pool.Store.Sql.{sql, tx, finish}
use qday_pool.Store.Blocks.{find_block}
use qday_pool.Store.Balances.{balances, credit_rows, reserve_rows, block_status, payout_status}
use qday_pool.Store.Payouts.{
  available, insert_payout, insert_item, insert_items, write_payout, prepare_in_tx, prepare_payouts,
}
use qday_pool.Store.PayoutStates.{update_payouts, set_payout_state}
use qday_pool.Store.Ledger.Reach.{payout_advanced, Call, run, Allowed, Reach, called}
use qday_pool.Store.Ledger.Final.{IsConfirmed, run-IsConfirmed}
use qday_pool.Store.Examples.{no_failure}
use qday_pool.Store.Examples.Witnesses.{paid_db, paid_Reach}

abbrev confirm : Call
confirm = payout_advanced 1 (codes "t1") PayoutStatus.confirmed (pos 1_700_000_200_000)

abbrev confirmed_tables : Tables
confirmed_tables = (run confirm (record { tables = paid_db.tables; fails = no_failure })).tables

confirmed_Reach : Reach confirmed_tables
unfolding Allowed
confirmed_Reach = called paid_db.tables confirm no_failure paid_Reach tt

confirmed_tables-IsConfirmed : IsConfirmed 1 confirmed_tables
unfolding run payout_status set_payout_state update_payouts prepare_payouts prepare_in_tx balances
    credit_rows reserve_rows block_status find_block available write_payout insert_payout
    insert_items insert_item value parse_big set_string magnitude scan decimal add_amount sort_slice
    insert_sorted sql tx finish text_eq text_lt hex_encode
confirmed_tables-IsConfirmed = refl

abbrev resubmit : Call
resubmit = payout_advanced 1 (codes "t2") PayoutStatus.submitted (pos 1_700_000_300_000)

run-IsConfirmed_example :
    IsConfirmed 1 (run resubmit (record { tables = confirmed_tables; fails = no_failure })).tables
run-IsConfirmed_example =
    run-IsConfirmed 1 resubmit confirmed_tables no_failure confirmed_Reach
      confirmed_tables-IsConfirmed
