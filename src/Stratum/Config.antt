-- ===== src/Stratum/Config.antt =====
-- The configuration of the stratum server: what `NewServer` fills in and refuses.
pub mod Bounds
use qday_pool.Prelude.{
  ℕ, Bool, true, false, not, ◌&&◌, ◌||◌, ◌==◌, Option, none, some, Text, codes, List, [], ◌∷◌, ◌*◌,
  leb, ltb, if◌then◌else◌,
}
use qday_pool.Prelude.Int.{ℤ, pos, leb_ℤ, ltb_ℤ}
use qday_pool.Float.{Float, constant, lt, le, eq, is_nan, is_inf}

-- Durations are in nanoseconds.
pub record Config : Type 0 where
  pub listen_address : Text
  pub job_interval : ℤ
  pub share_target : ℤ
  pub initial_difficulty : Float
  pub minimum_difficulty : Float
  pub maximum_difficulty : Float
  pub pplns_window : ℕ
  pub pool_fee_bps : ℕ
  pub maturity_blocks : ℕ
  pub max_miners : ℤ
  pub max_miners_per_ip : ℤ

abbrev pub second : ℕ
second = 1_000_000_000

abbrev pub zero_float : Float
zero_float = Float.finite false 0

abbrev pub is_zero_int : ℤ → Bool
is_zero_int n = leb_ℤ n (pos 0) && leb_ℤ (pos 0) n

abbrev pub or_int : ℤ → ℤ → ℤ
or_int n d = if is_zero_int n then d else n

abbrev pub or_nat : ℕ → ℕ → ℕ
or_nat n d = if n == 0 then d else n

abbrev pub or_float : Float → Float → Float
or_float x d = if eq x zero_float then d else x

abbrev pub or_text : Text → Text → Text
or_text [] d = d
or_text (c ∷ s) d = c ∷ s

-- The defaults that stand for zero values.
unfoldable pub with_defaults : Config → Config
with_defaults cfg = record {
  listen_address = or_text cfg.listen_address (codes "127.0.0.1:3333");
  job_interval = or_int cfg.job_interval (pos (30 * second));
  share_target = or_int cfg.share_target (pos (15 * second));
  initial_difficulty = or_float cfg.initial_difficulty (constant 1 1);
  minimum_difficulty = or_float cfg.minimum_difficulty (constant 1 100);
  maximum_difficulty = or_float cfg.maximum_difficulty (constant 1_000_000_000_000 1);
  pplns_window = or_nat cfg.pplns_window 2;
  pool_fee_bps = cfg.pool_fee_bps;
  maturity_blocks = or_nat cfg.maturity_blocks 60;
  max_miners = or_int cfg.max_miners (pos 1_024);
  max_miners_per_ip = or_int cfg.max_miners_per_ip (pos 32);
}

abbrev pub bad_difficulties : Config → Bool
bad_difficulties cfg =
    le cfg.minimum_difficulty zero_float
    || lt cfg.maximum_difficulty cfg.minimum_difficulty
    || lt cfg.initial_difficulty cfg.minimum_difficulty
    || lt cfg.maximum_difficulty cfg.initial_difficulty
    || is_nan cfg.minimum_difficulty
    || is_nan cfg.initial_difficulty
    || is_nan cfg.maximum_difficulty
    || is_inf cfg.minimum_difficulty
    || is_inf cfg.initial_difficulty
    || is_inf cfg.maximum_difficulty

abbrev pub bad_times : Config → Bool
bad_times cfg =
    ltb_ℤ cfg.job_interval (pos 250_000_000)
    || ltb_ℤ cfg.share_target (pos second)
    || ltb_ℤ (pos (300 * second)) cfg.share_target

abbrev pub bad_limits : Config → Bool
bad_limits cfg =
    ltb_ℤ cfg.max_miners (pos 1)
    || ltb_ℤ (pos 100_000) cfg.max_miners
    || ltb_ℤ cfg.max_miners_per_ip (pos 1)
    || ltb_ℤ cfg.max_miners cfg.max_miners_per_ip

-- The checks of `NewServer`, behind that on the node and the store: `none` is any of its errors.
-- The defaults do not depend on one another, so they all come before the checks.
unfoldable pub checked_config : Config → Option Config
checked_config given =
    let cfg = with_defaults given in
    if bad_times cfg
      || bad_difficulties cfg
      || (ltb 100 cfg.pplns_window || ltb 10_000 cfg.pool_fee_bps)
      || bad_limits cfg
    then none
    else some cfg
