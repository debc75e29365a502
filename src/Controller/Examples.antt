-- ===== src/Controller/Examples.antt =====
-- Rounds of the controller from the empty database.
use qday_pool.Prelude.{true, false, none, some, [], ◌∷◌, codes}
use qday_pool.Prelude.Int.{pos}
use qday_pool.Store.Tables.{zero_time}
use qday_pool.Store.Sql.{healthy}
use qday_pool.Store.Ledger.{Ledger}
use qday_pool.Store.Ledger.Reach.{Reach-Ledger}
use qday_pool.Store.Examples.{mature_tables}
use qday_pool.Store.Examples.Witnesses.{mature_Reach}
use qday_pool.Controller.{NodeStatus, answered, Node, Config, State, sync_blocks, process_payouts}
use qday_pool.Controller.Ledger.{sync_blocks-Ledger}
use qday_pool.Controller.Single.{active_count, process_payouts-active}
use qday_pool.Prelude.{◌≤◌, arith}

abbrev ready : NodeStatus
ready = record {
  synced = true;
  unlocked = true;
  balance_ready = true;
  qday = false;
  address = codes "pool";
  unit = codes "10";
}

abbrev node : Node
node = record {
  status = (ready, none);
  block_status = λ id.
      answered (record { known = true; canonical = true; confirmations = 60; tip_height = 70 });
  payout = λ r. answered (record { transaction = codes "t1"; status = codes "confirmed" });
  defend = none;
}

abbrev policy : Config
policy = record { minimum_payout = codes "10"; payout_fee = codes "0.3"; max_outputs = pos 100 }

abbrev state : State
state = record {
  snapshot = record {
    node = ready;
    minimum_payout = [];
    payout_fee = [];
    last_checked = zero_time;
    last_payout = none;
    last_error = none;
  };
  db = healthy mature_tables;
}

mature-Ledger : Ledger mature_tables
mature-Ledger = Reach-Ledger mature_tables mature_Reach

sync_blocks-Ledger_example : Ledger (sync_blocks node (pos 5) state).db.tables
sync_blocks-Ledger_example = sync_blocks-Ledger node (pos 5) state mature-Ledger

process_payouts-active_example :
    active_count (process_payouts node policy (some (1 ∷ 2 ∷ [])) (pos 5) state).db.tables ≤ 1
process_payouts-active_example =
    process_payouts-active node policy (some (1 ∷ 2 ∷ [])) (pos 5) state (omega arith)
