-- ===== src/Stratum/Work/Templates.antt =====
-- `newWorkTemplate`: the checks on a template of the node.
pub mod Checks
pub mod Target
use qday_pool.Prelude.{
  ℕ, zero, suc, ◌+◌, ◌-◌, Bool, true, false, not, ◌&&◌, ◌||◌, ◌==◌, Option, none, some, List, [],
  ◌∷◌, ◌++◌, map, Text, text_eq, leb, ltb, take, drop, length, if◌then◌else◌,
}
use qday_pool.Prelude.Int.{ℤ, pos, negsuc, pos_part, leb_ℤ, ltb_ℤ}
use qday_pool.Prelude.Hex.{hex_encode}
use qday_pool.Decimal.{set_string, to_string}
use qday_pool.Stratum.Bytes.{Bytes, hex_decode, little_endian, put_little_endian}
use qday_pool.Float.{Float}
use qday_pool.Stratum.Work.Difficulty.{target_difficulty}
use qday_pool.Stratum.Work.{
  WorkTemplate, decode32, mempool_transaction_count, transaction_leaf, merkle_root,
}

-- `nodeapi.Template` with its `StratumTemplate`; of the transactions only the data are read.
pub record Template : Type 0 where
  pub header : Text
  pub commitment : Text
  pub transactions : List Text
  pub mempool_transactions : ℤ
  pub previous_block_hash : Text
  pub long_poll_id : Text
  pub target : Text
  pub height : ℕ
  pub timestamp : ℤ
  pub bits : Text
  pub work_nonce : ℕ
  pub block_reward_atomic : Text
  pub fees_atomic : Text
  pub payout_atomic : Text
  pub block : Text
  pub coinbase1 : Text
  pub coinbase2 : Text
  pub extra1_size : ℕ
  pub extra2_size : ℕ
  pub merkle_branch : List Text

-- What the code reads of a decoded block's header.
pub record BlockHeader : Type 0 where
  pub parent : Bytes
  pub nonce : ℕ
  pub timestamp : ℤ
  pub commitment : Bytes

-- Decoding a block, and encoding it again.
pub record BlockCodec : Type 1 where
  pub Block : Type 0
  pub decode : Bytes → Option Block
  pub encode : Block → Option Bytes
  pub header_of : Block → BlockHeader

abbrev pub activation_height : ℕ
activation_height = 9_100

abbrev pub is_blank : Text → Bool
is_blank [] = true
is_blank (c ∷ s) = false

-- `template.LongPollID == "" || Height == 0 || Timestamp <= 0`
abbrev pub is_incomplete : Template → Bool
is_incomplete t = is_blank t.long_poll_id || t.height == 0 || leb_ℤ t.timestamp (pos 0)

abbrev pub has_no_pool_data : Template → Bool
has_no_pool_data t = is_blank t.block || is_blank t.payout_atomic || is_blank t.fees_atomic

-- The three rewards, where the payout is the block's reward and the fees.
abbrev pub is_consistent : Option ℤ → Option ℤ → Option ℤ → Bool
is_consistent (some (pos reward)) (some (pos fees)) (some (pos payout)) =
    not (payout == 0) && reward + fees == payout
is_consistent _ _ _ = false

-- `n.String() == encoded` of a number that `SetString` reads.
abbrev pub is_canonical : Option ℤ → Text → Bool
is_canonical none encoded = false
is_canonical (some n) encoded = text_eq (to_string n) encoded

abbrev pub rewards_agree : Template → Bool
rewards_agree t =
    let reward = set_string t.block_reward_atomic in
    let fees = set_string t.fees_atomic in
    let payout = set_string t.payout_atomic in
    is_consistent reward fees payout
    && is_canonical reward t.block_reward_atomic
    && is_canonical fees t.fees_atomic
    && is_canonical payout t.payout_atomic

-- `strings.EqualFold` against hexadecimal digits, which have no other case than ASCII's.
abbrev pub lower_case : ℕ → ℕ
lower_case c = if leb b'A' c && leb c b'Z' then c + 32 else c

abbrev pub equal_fold : Text → Text → Bool
equal_fold s t = text_eq (map lower_case s) (map lower_case t)

-- `template.Transactions[len-1].Data`
unfoldable pub last_of : List Text → Text
last_of [] = []
last_of (t ∷ []) = t
last_of (t ∷ u ∷ ts) = last_of (u ∷ ts)

-- The loop over the branches: each is 32 bytes.
unfoldable pub decode_branches : List Text → Option (List Bytes)
decode_branches [] = some []
decode_branches (b ∷ bs) = elim (decode32 b) [
  | none ↦ none
  | some branch ↦ elim (decode_branches bs) [
    | none ↦ none
    | some branches ↦ some (branch ∷ branches)
  ]
]

-- The fields that are read from the template's texts.
pub record Fields : Type 0 where
  pub parent : Bytes
  pub target : Bytes
  pub commitment : Bytes
  pub coinbase1 : Bytes
  pub coinbase2 : Bytes
  pub branches : List Bytes
  pub block : Bytes
  pub header : Bytes

abbrev pub bind {ℓ κ} : {A : Type ℓ} {B : Type κ} → Option A → (A → Option B) → Option B
bind none f = none
bind (some a) f = f a

unfoldable pub read_fields : Template → Option Fields
read_fields t = bind (decode32 t.previous_block_hash) λ parent. bind (decode32 t.target) λ target.
    bind (decode32 t.commitment) λ commitment. bind (hex_decode t.coinbase1) λ coinbase1.
      bind (hex_decode t.coinbase2) λ coinbase2. bind (decode_branches t.merkle_branch) λ branches.
        bind (hex_decode t.block) λ block. bind (hex_decode t.header) λ header. some (record {
          parent = parent;
          target = target;
          commitment = commitment;
          coinbase1 = coinbase1;
          coinbase2 = coinbase2;
          branches = branches;
          block = block;
          header = header;
        })

-- The coinbase with the template's own nonce.
abbrev pub initial_coinbase : Template → Fields → Bytes
initial_coinbase t f = f.coinbase1 ++ put_little_endian 8 t.work_nonce ++ f.coinbase2

abbrev pub bytes_eq : Bytes → Bytes → Bool
bytes_eq = text_eq

-- The header's parent, commitment and time are the template's.
abbrev pub header_agrees : Template → Fields → Bool
header_agrees t f =
    bytes_eq (take 32 f.header) f.parent
    && bytes_eq (drop 48 f.header) f.commitment
    && little_endian (take 8 (drop 40 f.header)) == pos_part t.timestamp

-- `if bad { return nil, errors.New(…) }`
abbrev pub unless {ℓ} : {A : Type ℓ} → Bool → Option A → Option A
unless bad rest = if bad then none else rest

abbrev pub work_template : Template → Fields → ℕ → Float → WorkTemplate
work_template t f transactions network_diff = record {
  height = t.height;
  parent = f.parent;
  target = f.target;
  timestamp = pos_part t.timestamp;
  coinbase1 = f.coinbase1;
  coinbase2 = f.coinbase2;
  extra1_size = t.extra1_size;
  extra2_size = t.extra2_size;
  merkle_branch = f.branches;
  block = f.block;
  network_diff = network_diff;
  bits = t.bits;
  long_poll_id = t.long_poll_id;
  transactions = transactions;
  reward_atomic = t.payout_atomic;
  fees_atomic = t.fees_atomic;
  work_nonce = t.work_nonce;
}

-- Pool mining starts at the activation height, with extranonces of four bytes each.
abbrev pub has_pool_sizes : Template → Bool
has_pool_sizes t = leb activation_height t.height && t.extra1_size == 4 && t.extra2_size == 4

module _ (blake2b : Bytes → Bytes) (codec : BlockCodec) where
  abbrev pub initial_root : Template → Fields → Bytes
  initial_root t f =
      merkle_root blake2b f.branches (transaction_leaf blake2b (initial_coinbase t f))

  -- The checks on the coinbase and its commitment.
  abbrev pub coinbase_agrees : Template → Fields → Bool
  coinbase_agrees t f =
      not (is_blank f.coinbase1)
      && equal_fold (hex_encode (initial_coinbase t f)) (last_of t.transactions)
      && leb (length f.branches) 64
      && bytes_eq (initial_root t f) f.commitment

  -- The block decodes, encodes to the same bytes again, and has the header's fields.
  abbrev pub block_agrees : Template → Fields → Option codec.Block → Bool
  block_agrees t f none = false
  block_agrees t f (some b) = elim (codec.encode b) [
    | none ↦ false
    | some encoded ↦
        let h = codec.header_of b in
        bytes_eq encoded f.block
        && bytes_eq h.parent f.parent
        && h.nonce == little_endian (take 8 (drop 32 f.header))
        && leb_ℤ h.timestamp t.timestamp
        && leb_ℤ t.timestamp h.timestamp
        && bytes_eq h.commitment f.commitment
  ]

  -- The checks on the complete block and its header.
  abbrev pub blocks_agree : Template → Fields → Bool
  blocks_agree t f =
      leb 80 (length f.block)
      && length f.header == 80
      && header_agrees t f
      && block_agrees t f (codec.decode f.block)

  -- `none` is any of its errors.
  unfoldable pub new_work_template : Template → Option WorkTemplate
  new_work_template t = unless (is_incomplete t || has_no_pool_data t || not (rewards_agree t)) (
      bind (read_fields t) λ f. unless (not (has_pool_sizes t)) (
        bind (mempool_transaction_count (length t.transactions)) λ transactions.
          unless (not (coinbase_agrees t f) || not (blocks_agree t f))
            (bind (target_difficulty f.target) λ nd. some (work_template t f transactions nd))))
