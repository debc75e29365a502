-- ===== src/Stratum/Server/Snapshots.antt =====
-- `Snapshot` of the server, and the network's hashrate that it shows.
use qday_pool.Prelude.{
  ℕ, zero, suc, ◌*◌, ◌/◌, ◌^◌, max, Bool, true, false, ◌&&◌, ◌==◌, Text, keep, length,
}
use qday_pool.Prelude.Hex.{hex_encode}
use qday_pool.Prelude.Int.{ℤ}
use qday_pool.Float.{Float, of_ratio, round_to, rounds, unit}
use qday_pool.Stratum.Server.{Server, connected}

-- `BitLen` of a number of at most `n` bits.
unfoldable pub bit_length : ℕ → ℕ → ℕ
bit_length zero k = 0
bit_length (suc n) k = elim (k == 0) [ true ↦ 0 | false ↦ suc (bit_length n (k / 2)) ]

-- The quotient of `big.Float` by 60, whose mantissa has the bits of the work, 64 at least; and then
-- `Float64`.
unfoldable pub hashrate : ℕ → Float
hashrate work =
    of_ratio false (round_to rounds (2 ^ max 64 (bit_length 257 work)) (work * unit) 60) 1

pub record Snapshot : Type 0 where
  pub ready : Bool
  pub height : ℕ
  pub parent : Text
  pub transactions : ℤ
  pub network_difficulty : Float
  pub network_hashrate : Float
  pub network_work : ℕ
  pub mining_active : Bool
  pub connected : ℕ
  pub authorized : ℕ
  pub accepted_shares : ℕ
  pub rejected_shares : ℕ
  pub blocks_found : ℕ
  pub has_error : Bool

-- `Snapshot`
unfoldable pub snapshot : Server → Snapshot
snapshot s = record {
  ready = s.ready;
  height = s.height;
  parent = hex_encode s.parent;
  transactions = s.tx_count;
  network_difficulty = s.network_diff;
  network_hashrate = s.network_hash;
  network_work = s.network_work;
  mining_active = s.ready;
  connected = connected s;
  authorized = length (keep (λ c. c.is_open && c.authorized) s.clients);
  accepted_shares = s.accepted_shares;
  rejected_shares = s.rejected_shares;
  blocks_found = s.blocks_found;
  has_error = s.has_error;
}
