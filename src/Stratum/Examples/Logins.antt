-- ===== src/Stratum/Examples/Logins.antt =====
-- Logins and a configuration, at small inputs.
use qday_pool.Prelude.{
  ℕ, zero, suc, ◌≡◌, refl, true, Option, some, [], ◌++◌, Text, codes, replicate, arith, text_eq,
}
use qday_pool.Prelude.Int.{pos}
use qday_pool.Float.{unit, top, double, constant, of_ratio, round_to, nearest, lt, le, eq}
use qday_pool.Amount.Spaces.{IsPlain, is_plain, trim_space, trim_left, strip_any, strip}
use qday_pool.Stratum.Config.{Config, zero_float, with_defaults, checked_config}
use qday_pool.Stratum.Config.Bounds.{IsConfig, checked_config-IsConfig}
use qday_pool.Stratum.Login.{is_label, parse_worker_login, worker_of, is_canonical}
use qday_pool.Stratum.Login.Labels.{IsLogin, parse_worker_login-append, parse_worker_login-IsLogin}

abbrev miner : Text
miner = replicate 64 b'a'

abbrev pub any_address : Text → Option Text
any_address s = some s

repeated-IsPlain : (n c : ℕ) → is_plain c ≡ true → IsPlain (replicate n c)
repeated-IsPlain zero c h = tt
repeated-IsPlain (suc n) c h = (h, repeated-IsPlain n c h)

parse_worker_login-append_example :
    parse_worker_login any_address (miner ++ codes ".rig") ≡ some (miner, codes "rig")
parse_worker_login-append_example =
    parse_worker_login-append any_address miner b'r' (codes "ig") (repeated-IsPlain 64 b'a' refl)
      refl refl refl (omega arith)

login_run :
    parse_worker_login any_address (codes " " ++ miner ++ codes ".rig\n")
    ≡ some (miner, codes "rig")
unfolding parse_worker_login trim_space text_eq is_label worker_of is_canonical trim_left strip_any
    strip
login_run = refl

parse_worker_login-IsLogin_example :
    IsLogin any_address (codes " " ++ miner ++ codes ".rig\n") miner (codes "rig")
parse_worker_login-IsLogin_example =
    parse_worker_login-IsLogin any_address (codes " " ++ miner ++ codes ".rig\n") miner
      (codes "rig") login_run

-- The configuration of an operator who sets the fee.
abbrev pub given : Config
given = record {
  listen_address = [];
  job_interval = pos 0;
  share_target = pos 0;
  initial_difficulty = zero_float;
  minimum_difficulty = zero_float;
  maximum_difficulty = zero_float;
  pplns_window = 0;
  pool_fee_bps = 100;
  maturity_blocks = 0;
  max_miners = pos 0;
  max_miners_per_ip = pos 0;
}

pub config_run : checked_config given ≡ some (with_defaults given)
unfolding checked_config with_defaults constant of_ratio round_to nearest unit top double lt le eq
config_run = refl

checked_config-IsConfig_example : IsConfig (with_defaults given)
checked_config-IsConfig_example = checked_config-IsConfig given (with_defaults given) config_run
