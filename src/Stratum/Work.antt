-- ===== src/Stratum/Work.antt =====
-- internal/stratum/work.go: templates, jobs and shares. BLAKE2b and the block codec of
-- go.sia.tech/core are not under this repository: `blake2b` and a `Codec` stand for them.
-- A `[32]byte` is a list of 32 bytes.
pub mod Shares
pub mod Templates
pub mod Difficulty
use qday_pool.Prelude.{
  ℕ, zero, suc, ◌+◌, ◌-◌, ◌*◌, ◌/◌, ◌%◌, ◌^◌, Bool, true, false, not, ◌&&◌, ◌||◌, ◌==◌, Option,
  none, some, List, [], ◌∷◌, ◌++◌, map, Text, text_eq, leb, ltb, take, drop, length, replicate,
  if◌then◌else◌,
}
use qday_pool.Prelude.Int.{ℤ, pos, leb_ℤ, pos_part}
use qday_pool.Float.{Float}
use qday_pool.Prelude.Hex.{hex_encode}
use qday_pool.Stratum.Bytes.{
  Bytes, hex_decode, little_endian, put_little_endian, big_endian, bytes_le,
}

-- What `newWorkTemplate` keeps.
pub record WorkTemplate : Type 0 where
  pub height : ℕ
  pub parent : Bytes
  pub target : Bytes
  pub timestamp : ℕ
  pub coinbase1 : Bytes
  pub coinbase2 : Bytes
  pub extra1_size : ℕ
  pub extra2_size : ℕ
  pub merkle_branch : List Bytes
  pub block : Bytes
  pub network_diff : Float
  pub bits : Text
  pub long_poll_id : Text
  pub transactions : ℕ
  pub reward_atomic : Text
  pub fees_atomic : Text
  pub work_nonce : ℕ

-- The owner is a number that stands for the pointer to the client.
pub record Job : Type 0 where
  pub template : WorkTemplate
  pub id : Text
  pub owner : ℕ
  pub address : Text
  pub worker : Text
  pub sequence : ℕ
  pub timestamp : ℕ
  pub extra_nonce1 : Bytes
  pub difficulty : Float
  pub share_target : Bytes

pub data SolveError : Type 0 where
  bad_server_extranonce : SolveError
  bad_extranonce2 : SolveError
  bad_time : SolveError
  other_time : SolveError
  bad_nonce : SolveError
  low_difficulty : SolveError
  bad_stored_block : SolveError
  no_mining_transaction : SolveError
  bad_coinbase : SolveError
  not_encoded : SolveError

pub data Checked {ℓ} (A : Type ℓ) : Type ℓ where
  good : A → Checked A
  bad : SolveError → Checked A

-- The block codec: decoding and encoding, the miner's transaction, and the fields that a solution
-- sets (transaction, commitment, nonce and time).
pub record Codec : Type 1 where
  pub Block : Type 0
  pub Transaction : Type 0
  pub decode_block : Bytes → Option Block
  pub has_transactions : Block → Bool
  pub decode_transaction : Bytes → Option Transaction
  pub solved : Block → Transaction → Bytes → ℕ → ℕ → Block
  pub encode_block : Block → Option Bytes

-- `decode32`; `none` is its error.
unfoldable pub decode32 : Text → Option Bytes
decode32 encoded = elim (hex_decode encoded) [
  | none ↦ none
  | some b ↦ if length b == 32 then some b else none
]

-- `mempoolTransactionCount` of a template with `n` transactions.
unfoldable pub mempool_transaction_count : ℕ → Option ℕ
mempool_transaction_count n = if ltb n 2 then none else some (n - 2)

-- `TargetWork`
unfoldable pub target_work : Bytes → ℕ
target_work target = (2 ^ 256) / suc (big_endian target 0)

unfoldable pub little_endian_hex : ℕ → Text
little_endian_hex value = hex_encode (put_little_endian 8 value)

-- The parameters of `mining.notify`.
pub record Notify : Type 0 where
  pub id : Text
  pub parent : Text
  pub coinbase1 : Text
  pub coinbase2 : Text
  pub branches : List Text
  pub version : Text
  pub bits : Text
  pub time : Text
  pub clean : Bool

unfoldable pub notify_params : Job → Bool → Notify
notify_params j clean = record {
  id = j.id;
  parent = hex_encode j.template.parent;
  coinbase1 = hex_encode j.template.coinbase1;
  coinbase2 = hex_encode j.template.coinbase2;
  branches = map hex_encode j.template.merkle_branch;
  version = [];
  bits = j.template.bits;
  time = little_endian_hex j.timestamp;
  clean = clean;
}

pub record Solution : Type 0 where
  pub block : Option Bytes
  pub hash : Bytes
  pub network : Bool

-- A field of a share: `size` bytes of hexadecimal data.
abbrev pub field_of : ℕ → Text → Option Bytes
field_of size encoded = elim (hex_decode encoded) [
  | none ↦ none
  | some b ↦ if length b == size then some b else none
]

module _ (blake2b : Bytes → Bytes) where
  unfoldable pub transaction_leaf : Bytes → Bytes
  transaction_leaf transaction = blake2b (0 ∷ transaction)

  unfoldable pub merkle_pair : Bytes → Bytes → Bytes
  merkle_pair left right = blake2b (1 ∷ left ++ right)

  -- The loop over the branches.
  unfoldable pub merkle_root : List Bytes → Bytes → Bytes
  merkle_root [] root = root
  merkle_root (left ∷ branches) root = merkle_root branches (merkle_pair left root)

  abbrev pub coinbase_of : Job → Bytes → Bytes
  coinbase_of j extra2 = j.template.coinbase1 ++ j.extra_nonce1 ++ extra2 ++ j.template.coinbase2

  abbrev pub root_of : Job → Bytes → Bytes
  root_of j extra2 = merkle_root j.template.merkle_branch (transaction_leaf (coinbase_of j extra2))

  -- The 80 bytes: parent, nonce, time and root.
  abbrev pub header_of : Job → Bytes → Bytes → Bytes → Bytes
  header_of j extra2 nonce time = j.template.parent ++ nonce ++ time ++ root_of j extra2

  module _ (codec : Codec) where
    -- The block of a solution that meets the network's target.
    unfoldable pub solved_block : Job → Bytes → Bytes → Bytes → Checked Bytes
    solved_block j extra2 nonce time = elim (codec.decode_block j.template.block) [
      | none ↦ bad bad_stored_block
      | some block ↦
          if not (codec.has_transactions block)
          then bad no_mining_transaction
          else elim (codec.decode_transaction (coinbase_of j extra2)) [
            | none ↦ bad bad_coinbase
            | some work ↦
                elim (codec.encode_block (
                  codec.solved block work (root_of j extra2) (little_endian nonce)
                    (little_endian time))) [ none ↦ bad not_encoded | some encoded ↦ good encoded ]
          ]
    ]

    abbrev pub with_block : Checked Bytes → Bytes → Checked Solution
    with_block (bad e) hash = bad e
    with_block (good block) hash = good (record { block = some block; hash = hash; network = true })

    -- Behind the checks on the fields.
    unfoldable pub judge : Job → Bytes → Bytes → Bytes → Checked Solution
    judge j extra2 nonce time =
        let hash = blake2b (header_of j extra2 nonce time) in
        if not (bytes_le hash j.share_target)
        then bad low_difficulty
        else if bytes_le hash j.template.target
        then with_block (solved_block j extra2 nonce time) hash
        else good (record { block = none; hash = hash; network = false })

    abbrev pub with_nonce : Job → Bytes → Bytes → Option Bytes → Checked Solution
    with_nonce j extra2 time none = bad bad_nonce
    with_nonce j extra2 time (some nonce) = judge j extra2 nonce time

    abbrev pub with_time : Job → Bytes → Option Bytes → Text → Checked Solution
    with_time j extra2 none encoded_nonce = bad bad_time
    with_time j extra2 (some time) encoded_nonce =
        if not (little_endian time == j.timestamp)
        then bad other_time
        else with_nonce j extra2 time (field_of 8 encoded_nonce)

    abbrev pub with_extra2 : Job → Option Bytes → Text → Text → Checked Solution
    with_extra2 j none encoded_time encoded_nonce = bad bad_extranonce2
    with_extra2 j (some extra2) encoded_time encoded_nonce =
        with_time j extra2 (field_of 8 encoded_time) encoded_nonce

    unfoldable pub solve : Job → Text → Text → Text → Checked Solution
    solve j extra_nonce2 encoded_time encoded_nonce =
        if not (length j.extra_nonce1 == j.template.extra1_size)
        then bad bad_server_extranonce
        else with_extra2 j (field_of j.template.extra2_size extra_nonce2) encoded_time encoded_nonce
