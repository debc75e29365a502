-- ===== src/Controller.antt =====
-- internal/pool/controller.go: the controller, which matures found blocks and submits payouts.
-- The node is not under this repository: its answers in one round are the record `Node`.
pub mod Ledger
pub mod Payouts
pub mod Single
mod Examples
use qday_pool.Prelude.{
  ℕ, Bool, true, false, not, ◌&&◌, ◌||◌, ◌==◌, Option, none, some, List, [], ◌∷◌, ◌++◌, Text,
  text_eq, codes, map, if◌then◌else◌,
}
use qday_pool.Prelude.Int.{ℤ, pos}
use qday_pool.Decimal.{decimal}
use qday_pool.Amount.{Parsed, parsed, failed, parse}
use qday_pool.Store.Tables.{Time, BlockRow, BlockStatus, PayoutStatus}
use qday_pool.Store.Shares.{is_empty}
use qday_pool.Store.Sql.{Result, ok, err, Error, Db}
use qday_pool.Store.Blocks.{pending_blocks, set_block_state, set_block_error}
use qday_pool.Store.Payouts.{PayoutItem, Payout, prepare_payouts}
use qday_pool.Store.PayoutStates.{active_payouts, set_payout_state, payout_error}

-- What the controller reads of `nodeapi.Status`.
pub record NodeStatus : Type 0 where
  pub synced : Bool
  pub unlocked : Bool
  pub balance_ready : Bool
  pub qday : Bool
  pub address : Text
  pub unit : Text

-- What it reads of `nodeapi.BlockStatus`.
pub record ObservedBlock : Type 0 where
  pub known : Bool
  pub canonical : Bool
  pub confirmations : ℕ
  pub tip_height : ℕ

-- `nodeapi.PayoutRequest`
pub record PayoutRequest : Type 0 where
  pub request_id : Text
  pub from_address : Text
  pub expected_unit_atomic : Text
  pub fee_atomic : Text
  pub outputs : List PayoutItem

-- What it reads of `nodeapi.PayoutResponse`.
pub record PayoutResponse : Type 0 where
  pub transaction : Text
  pub status : Text

-- A value, or the text of an error.
pub data Answer {ℓ} (A : Type ℓ) : Type ℓ where
  answered : A → Answer A
  refused : Text → Answer A

-- `nodeClient`. `Status` returns a value beside its error; of `Defend` only the error matters.
pub record Node : Type 0 where
  pub status : NodeStatus × Option Text
  pub block_status : Text → Answer ObservedBlock
  pub payout : PayoutRequest → Answer PayoutResponse
  pub defend : Option Text

pub record Config : Type 0 where
  pub minimum_payout : Text
  pub payout_fee : Text
  pub max_outputs : ℤ

-- What `LastError` says.
pub data Problem : Type 0 where
  node_error : Text → Problem
  store_error : Error → Problem
  invalid_minimum : Problem
  invalid_fee : Problem

pub record Snapshot : Type 0 where
  pub node : NodeStatus
  pub minimum_payout : Text
  pub payout_fee : Text
  pub last_checked : Time
  pub last_payout : Option Time
  pub last_error : Option Problem

-- The controller's state beside the store.
pub record State : Type 0 where
  pub snapshot : Snapshot
  pub db : Db

unfoldable pub set_status : NodeStatus → Option Problem → Time → State → State
set_status status problem now s = record s {
  snapshot = record s.snapshot { node = status; last_checked = now; last_error = problem };
}

abbrev pub node_problem : Option Text → Option Problem
node_problem none = none
node_problem (some text) = some (node_error text)

-- One round of the loop over the pending blocks, on the node's answer.
abbrev pub observe_with : Answer ObservedBlock → BlockRow → Db → Db
observe_with (refused text) block db = (set_block_error block.id text db).1
observe_with (answered s) block db =
    (set_block_state block.id s.known s.canonical s.confirmations s.tip_height [] db).1

unfoldable pub observe_block : Node → BlockRow → Db → Db
observe_block node block = observe_with (node.block_status block.id) block

unfoldable pub observe_blocks : Node → List BlockRow → Db → Db
observe_blocks node [] db = db
observe_blocks node (block ∷ blocks) db = observe_blocks node blocks (observe_block node block db)

abbrev pub sync_observed : Node → NodeStatus → Time → State → Result (List BlockRow) → Db → State
sync_observed node status now s (err e) db =
    set_status status (some (store_error e)) now (record s { db = db })
sync_observed node status now s (ok blocks) db = record s { db = observe_blocks node blocks db }

abbrev pub sync_known : Option Text → Node → NodeStatus → Time → State → State
sync_known (some _) node status now s = s
sync_known none node status now s =
    let (blocks, db) = pending_blocks (pos 1_000) s.db in sync_observed node status now s blocks db

unfoldable pub sync_blocks : Node → Time → State → State
sync_blocks node now s =
    let (status, failure) = node.status in
    sync_known failure node status now (set_status status (node_problem failure) now s)

-- `!Synced || !Unlocked || !BalanceReady || Address == "" || Unit == ""`
abbrev pub is_unready : NodeStatus → Bool
is_unready status =
    not status.synced
    || not status.unlocked
    || not status.balance_ready
    || is_empty status.address
    || is_empty status.unit

-- The request for a payout of the store.
abbrev pub request_of : NodeStatus → Payout → PayoutRequest
request_of status payout = record {
  request_id = payout.row.request_id;
  from_address = status.address;
  expected_unit_atomic = status.unit;
  fee_atomic = payout.row.fee_atomic;
  outputs = payout.items;
}

-- The state that an answer stands for.
abbrev pub answered_state : PayoutResponse → PayoutStatus
answered_state response =
    if text_eq response.status (codes "confirmed")
    then PayoutStatus.confirmed
    else PayoutStatus.submitted

abbrev pub paid_at : Time → Result (Unit {0}) → Snapshot → Snapshot
paid_at now (err e) snapshot = snapshot
paid_at now (ok _) snapshot = record snapshot { last_payout = some now }

-- One round of the loop over the payouts, on the node's answer.
abbrev pub submit_with : Answer PayoutResponse → Time → Payout → State → State
submit_with (refused text) now payout s = record s { db = (payout_error payout.row.id text s.db).1 }
submit_with (answered response) now payout s =
    let (r, db) =
      set_payout_state payout.row.id response.transaction (answered_state response) now s.db in
    record { snapshot = paid_at now r s.snapshot; db = db }

unfoldable pub submit : Node → NodeStatus → Time → Payout → State → State
submit node status now payout = submit_with (node.payout (request_of status payout)) now payout

unfoldable pub submit_all : Node → NodeStatus → Time → List Payout → State → State
submit_all node status now [] s = s
submit_all node status now (p ∷ ps) s = submit_all node status now ps (submit node status now p s)

abbrev pub fail_store : NodeStatus → Time → Error → State → State
fail_store status now e = set_status status (some (store_error e)) now

-- Behind `PreparePayouts`: the payouts to submit.
abbrev pub submit_prepared : Node → NodeStatus → Time → Result (Option Payout) → State → State
submit_prepared node status now (err e) s = fail_store status now e s
submit_prepared node status now (ok none) s = s
submit_prepared node status now (ok (some p)) s = submit_all node status now (p ∷ []) s

-- Behind `ActivePayouts`: a new batch only where no payout is active.
abbrev pub submit_active :
    Node
    → NodeStatus
    → Time
    → Config
    → ℕ
    → ℕ
    → Option (List ℕ)
    → Result (List Payout)
    → State
    → State
submit_active node status now cfg minimum fee entropy (err e) s = fail_store status now e s
submit_active node status now cfg minimum fee entropy (ok (p ∷ ps)) s =
    submit_all node status now (p ∷ ps) s
submit_active node status now cfg minimum fee entropy (ok []) s =
    let (r, db) =
      prepare_payouts (some (pos minimum)) (some (pos fee)) cfg.max_outputs entropy now s.db in
    submit_prepared node status now r (record s { db = db })

-- The minimum and the fee in atoms, or what is wrong with them.
pub data Policy : Type 0 where
  policy : ℕ → ℕ → Policy
  bad_policy : Problem → Policy

abbrev pub with_fee : ℕ → Parsed → Policy
with_fee minimum (failed _) = bad_policy invalid_fee
with_fee minimum (parsed fee) = policy minimum fee

abbrev pub policy_of : Parsed → Parsed → Policy
policy_of (failed _) fee = bad_policy invalid_minimum
policy_of (parsed minimum) fee =
    if minimum == 0 then bad_policy invalid_minimum else with_fee minimum fee

abbrev pub noted : ℕ → ℕ → State → State
noted minimum fee s = record s {
  snapshot = record s.snapshot { minimum_payout = decimal minimum; payout_fee = decimal fee };
}

abbrev pub pay_with : Policy → Node → NodeStatus → Time → Config → Option (List ℕ) → State → State
pay_with (bad_policy problem) node status now cfg entropy s = set_status status (some problem) now s
pay_with (policy minimum fee) node status now cfg entropy s =
    let (r, db) = active_payouts (pos 10) s.db in
    submit_active node status now cfg minimum fee entropy r
      (record (noted minimum fee s) { db = db })

-- Behind the checks on the node, in its unit.
unfoldable pub pay : Node → NodeStatus → Time → Config → Option (List ℕ) → State → State
pay node status now cfg entropy =
    pay_with (policy_of (parse cfg.minimum_payout status.unit) (parse cfg.payout_fee status.unit))
      node status now cfg entropy

-- The wallet's defence in front of the payouts, on a node that has it.
abbrev pub defended : Node → NodeStatus → Option Text
defended node status = if status.qday then node.defend else none

abbrev pub pay_defended :
    Option Text → Node → NodeStatus → Time → Config → Option (List ℕ) → State → State
pay_defended (some text) node status now cfg entropy s =
    set_status status (some (node_error text)) now s
pay_defended none node status now cfg entropy s = pay node status now cfg entropy s

abbrev pub pay_known :
    Option Text → Node → NodeStatus → Time → Config → Option (List ℕ) → State → State
pay_known (some _) node status now cfg entropy s = s
pay_known none node status now cfg entropy s =
    if is_unready status
    then s
    else pay_defended (defended node status) node status now cfg entropy s

unfoldable pub process_payouts : Node → Config → Option (List ℕ) → Time → State → State
process_payouts node cfg entropy now s =
    let (status, failure) = node.status in
    pay_known failure node status now cfg entropy (set_status status (node_problem failure) now s)
