-- ===== src/Stratum/Examples.antt =====
-- The theorems on shares at a small job.
mod Logins
mod Sessions
use qday_pool.Prelude.{
  ℕ, zero, suc, ◌*◌, ◌^◌, ◌≤◌, ◌<◌, ◌≡◌, refl, ◌↔◌, true, false, Option, none, some, [], ◌∷◌, codes,
  replicate, arith,
}
use qday_pool.Prelude.Hex.{hex_encode}
use qday_pool.Stratum.Bytes.{
  Bytes, hex_decode, little_endian, put_little_endian, big_endian, bytes_le,
}
use qday_pool.Stratum.Bytes.Laws.{IsBytes}
use qday_pool.Float.{Float, finite, not_a_number, round_to, nearest, unit, top, double, wide}
use qday_pool.Stratum.Work.Difficulty.{
  target_difficulty, ratio_of, round_up, difficulty_one_target, next_up,
}
use qday_pool.Stratum.Work.{WorkTemplate, Job, good, Codec, target_work, Solution, judge, solve}
use qday_pool.Prelude.{drop, ◌++◌, text_eq}
use qday_pool.Prelude.Int.{pos}
use qday_pool.Decimal.{set_string, magnitude, scan, decimal, to_string}
use qday_pool.Stratum.Work.{
  decode32, mempool_transaction_count, root_of, merkle_root, merkle_pair, transaction_leaf,
}
use qday_pool.Stratum.Work.Templates.{
  Template, BlockCodec, Fields, read_fields, decode_branches, last_of, new_work_template,
}
use qday_pool.Stratum.Work.Templates.Checks.{new_work_template-root}
use qday_pool.Stratum.Work.Shares.{target_work-bounds, solve-targets}

-- A hash function with one value.
abbrev some_hash : Bytes
some_hash = replicate 32 1

abbrev hash_of : Bytes → Bytes
hash_of m = some_hash

-- A codec for blocks that are bytes.
abbrev plain : Codec
plain = record {
  Block = Bytes;
  Transaction = Bytes;
  decode_block = λ b. some b;
  has_transactions = λ _. true;
  decode_transaction = λ b. some b;
  solved = λ block work root nonce time. work;
  encode_block = λ b. some b;
}

abbrev template : WorkTemplate
template = record {
  height = 9200;
  parent = replicate 32 0;
  target = replicate 32 0;
  timestamp = 258;
  coinbase1 = 1 ∷ [];
  coinbase2 = 2 ∷ [];
  extra1_size = 4;
  extra2_size = 4;
  merkle_branch = replicate 32 9 ∷ [];
  block = 5 ∷ [];
  network_diff = finite false (2 ^ 1_074);
  bits = codes "1d00ffff";
  long_poll_id = codes "p1";
  transactions = 0;
  reward_atomic = codes "1000";
  fees_atomic = codes "0";
  work_nonce = 1;
}

abbrev easy_job : Job
easy_job = record {
  template = template;
  id = codes "1";
  owner = 0;
  address = codes "alice";
  worker = codes "rig";
  sequence = 1;
  timestamp = 258;
  extra_nonce1 = 0 ∷ 0 ∷ 0 ∷ 7 ∷ [];
  difficulty = finite false (2 ^ 1_064);
  share_target = replicate 32 255;
}

abbrev accepted : Solution
accepted = record { block = none; hash = some_hash; network = false }

solve_run :
    solve hash_of plain easy_job
      (codes "0000000a")
      (codes "0201000000000000")
      (codes "00000000000000Ff")
    ≡ good accepted
unfolding solve judge hex_decode little_endian bytes_le
solve_run = refl

repeated-IsBytes : (n b : ℕ) → b < 256 → IsBytes (replicate n b)
repeated-IsBytes zero b h = tt
repeated-IsBytes (suc n) b h = (h, repeated-IsBytes n b h)

solve-targets_example :
    (big_endian some_hash 0 ≤ big_endian (replicate 32 255) 0)
    × ((false ≡ true) ↔ (big_endian some_hash 0 ≤ big_endian (replicate 32 0) 0))
solve-targets_example =
    solve-targets hash_of plain easy_job (codes "0000000a") (codes "0201000000000000")
      (codes "00000000000000Ff") accepted (λ m. (repeated-IsBytes 32 1 (omega arith), refl))
      (repeated-IsBytes 32 255 (omega arith), refl) (repeated-IsBytes 32 0 (omega arith), refl)
      solve_run

target_work-bounds_example :
    (target_work (replicate 32 255) * suc (big_endian (replicate 32 255) 0) ≤ 2 ^ 256)
    × (2 ^ 256 < suc (target_work (replicate 32 255)) * suc (big_endian (replicate 32 255) 0))
    × (0 < target_work (replicate 32 255))
target_work-bounds_example =
    target_work-bounds (replicate 32 255) (repeated-IsBytes 32 255 (omega arith)) refl

-- A template of the node.
abbrev commitment : Bytes
commitment = some_hash

abbrev nonce_bytes : Bytes
nonce_bytes = put_little_endian 8 (7 * 2 ^ 24)

abbrev node_template : Template
node_template = record {
  header = hex_encode (replicate 40 0 ++ put_little_endian 8 258 ++ commitment);
  commitment = hex_encode commitment;
  transactions = codes "00" ∷ codes "00" ∷ hex_encode (1 ∷ nonce_bytes ++ 2 ∷ []) ∷ [];
  mempool_transactions = pos 1;
  previous_block_hash = hex_encode (replicate 32 0);
  long_poll_id = codes "p1";
  target = hex_encode (replicate 32 3);
  height = 9200;
  timestamp = pos 258;
  bits = codes "1d00ffff";
  work_nonce = 7 * 2 ^ 24;
  block_reward_atomic = codes "1000";
  fees_atomic = codes "5";
  payout_atomic = codes "1005";
  block = hex_encode (replicate 80 5);
  coinbase1 = codes "01";
  coinbase2 = codes "02";
  extra1_size = 4;
  extra2_size = 4;
  merkle_branch = hex_encode (replicate 32 9) ∷ [];
}

abbrev header_codec : BlockCodec
header_codec = record {
  Block = Bytes;
  decode = λ b. some b;
  encode = λ b. some b;
  header_of = λ b. record {
    parent = replicate 32 0;
    nonce = 0;
    timestamp = pos 258;
    commitment = commitment;
  };
}

abbrev known : Option Float → Float
known none = not_a_number
known (some x) = x

abbrev accepted_template : WorkTemplate
accepted_template = record {
  height = 9200;
  parent = replicate 32 0;
  target = replicate 32 3;
  timestamp = 258;
  coinbase1 = 1 ∷ [];
  coinbase2 = 2 ∷ [];
  extra1_size = 4;
  extra2_size = 4;
  merkle_branch = replicate 32 9 ∷ [];
  block = replicate 80 5;
  network_diff = known (target_difficulty (replicate 32 3));
  bits = codes "1d00ffff";
  long_poll_id = codes "p1";
  transactions = 1;
  reward_atomic = codes "1005";
  fees_atomic = codes "5";
  work_nonce = 7 * 2 ^ 24;
}

template_run : new_work_template hash_of header_codec node_template ≡ some accepted_template
unfolding new_work_template read_fields decode32 decode_branches hex_decode hex_encode
    put_little_endian little_endian big_endian last_of mempool_transaction_count merkle_root
    merkle_pair transaction_leaf set_string magnitude scan decimal to_string text_eq
    target_difficulty ratio_of round_up round_to nearest difficulty_one_target unit top double wide
    next_up
template_run = refl

own_nonce :
    0 ∷ 0 ∷ 0 ∷ 7 ∷ [] ++ (0 ∷ 0 ∷ 0 ∷ 0 ∷ []) ≡ put_little_endian 8 node_template.work_nonce
unfolding put_little_endian
own_nonce = refl

new_work_template-root_example :
    (f : Fields) × ((read_fields node_template ≡ some f)
      × (root_of hash_of (record easy_job { template = accepted_template }) (0 ∷ 0 ∷ 0 ∷ 0 ∷ [])
          ≡ drop 48 f.header))
new_work_template-root_example =
    new_work_template-root hash_of header_codec node_template accepted_template
      (record easy_job { template = accepted_template }) (0 ∷ 0 ∷ 0 ∷ 0 ∷ []) template_run refl
      own_nonce
