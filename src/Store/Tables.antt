-- ===== src/Store/Tables.antt =====
-- The database schema (internal/store/store.go): one record for each table's row, and the
-- tables. A table is a list, newest row first. The two AUTOINCREMENT tables hand out rising ids,
-- so their lists are in order of falling id, and `ORDER BY id DESC` is the list itself.
use qday_pool.Float.{Float}
use qday_pool.Prelude.{ℕ, List, Option, Bool, Text}
use qday_pool.Prelude.Int.{ℤ, negsuc}

-- Milliseconds since 1970, and Go's zero `time.Time` (the year 1).
abbrev pub Time : Type 0
Time = ℤ

abbrev pub zero_time : Time
zero_time = negsuc 62_135_596_799_999

pub data BlockStatus : Type 0 where
  pending mature orphan : BlockStatus

pub data PayoutStatus : Type 0 where
  prepared submitted confirmed : PayoutStatus

pub record ShareRow : Type 0 where
  pub id : ℕ
  pub created_at : Time
  pub height : ℕ
  pub parent_id : Text
  pub job_id : Text
  pub address : Text
  pub worker : Text
  pub difficulty : Float
  pub work : Text
  pub hash : Text

pub record BlockRow : Type 0 where
  pub id : Text
  pub height : ℕ
  pub found_at : Time
  pub found_by_address : Text
  pub found_by_worker : Text
  pub reward_atomic : Text
  pub fees_atomic : Text
  pub pool_fee_atomic : Text
  pub window_work : Text
  pub selected_work : Text
  pub maturity_height : ℕ
  pub confirmations : ℕ
  pub canonical : Bool
  pub status : BlockStatus
  pub last_error : Text

pub record AllocationRow : Type 0 where
  pub block_id : Text
  pub address : Text
  pub work : Text
  pub amount_atomic : Text

pub record PayoutRow : Type 0 where
  pub id : ℕ
  pub request_id : Text
  pub created_at : Time
  pub submitted_at : Option Time
  pub transaction_id : Text
  pub amount_atomic : Text
  pub fee_atomic : Text
  pub status : PayoutStatus
  pub last_error : Text

pub record ItemRow : Type 0 where
  pub payout_id : ℕ
  pub address : Text
  pub amount_atomic : Text

-- `share_seq` and `payout_seq` are the largest ids handed out so far (sqlite_sequence).
pub record Tables : Type 0 where
  pub shares : List ShareRow
  pub blocks : List BlockRow
  pub allocations : List AllocationRow
  pub payouts : List PayoutRow
  pub items : List ItemRow
  pub share_seq : ℕ
  pub payout_seq : ℕ
