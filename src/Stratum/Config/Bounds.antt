-- ===== src/Stratum/Config/Bounds.antt =====
-- What an accepted configuration is.
use qday_pool.Prelude.{
  ℕ, ◌*◌, ◌≤◌, ◌<◌, ◌≡◌, refl, true, false, Bool, ◌||◌, ◌==◌, none, some, ltb, arith, if◌then◌else◌,
}
use qday_pool.Prelude.Int.{pos, leb_ℤ}
use qday_pool.Float.{Float, lt, le, is_nan, is_inf}
use qday_pool.Float.Laws.{IsWithin}
use qday_pool.Stratum.Config.{
  Config, second, zero_float, with_defaults, bad_times, bad_difficulties, bad_limits,
  checked_config,
}

-- The bounds of an accepted configuration.
pub record IsConfig (cfg : Config) : Type 0 where
  pub job_interval : leb_ℤ (pos 250_000_000) cfg.job_interval ≡ true
  pub share_target :
      (leb_ℤ (pos second) cfg.share_target ≡ true)
      × (leb_ℤ cfg.share_target (pos (300 * second)) ≡ true)
  pub positive : lt zero_float cfg.minimum_difficulty ≡ true
  pub initial : IsWithin cfg.minimum_difficulty cfg.maximum_difficulty cfg.initial_difficulty
  pub numbers : (is_inf cfg.minimum_difficulty ≡ false) × (is_inf cfg.maximum_difficulty ≡ false)
  pub window : (0 < cfg.pplns_window) × (cfg.pplns_window ≤ 100)
  pub fee : cfg.pool_fee_bps ≤ 10_000
  pub maturity : 0 < cfg.maturity_blocks
  pub miners :
      (leb_ℤ (pos 1) cfg.max_miners_per_ip ≡ true)
      × (leb_ℤ cfg.max_miners_per_ip cfg.max_miners ≡ true)
      × (leb_ℤ cfg.max_miners (pos 100_000) ≡ true)

no_error :
    {A : Type 0} (a b c d : Bool) (x y : A)
    → (if a || b || c || d then none else some x) ≡ some y
    → (y ≡ x) × (a ≡ false) × (b ≡ false) × (c ≡ false) × (d ≡ false)
no_error a b c d x y h = ground arith

pub checked_config-passes :
    (given cfg : Config)
    → checked_config given ≡ some cfg
    → (cfg ≡ with_defaults given)
      × (bad_times cfg ≡ false)
      × (bad_difficulties cfg ≡ false)
      × ((ltb 100 cfg.pplns_window || ltb 10_000 cfg.pool_fee_bps) ≡ false)
      × (bad_limits cfg ≡ false)
unfolding checked_config
checked_config-passes given cfg h =
    let made = with_defaults given in
    let (e, a, b, c, d) =
      no_error (bad_times made) (bad_difficulties made)
        (ltb 100 made.pplns_window || ltb 10_000 made.pool_fee_bps) (bad_limits made) made cfg h in
    (e, rw e a, rw e b, rw e c, rw e d)

good_times :
    (cfg : Config)
    → bad_times cfg ≡ false
    → (leb_ℤ (pos 250_000_000) cfg.job_interval ≡ true)
      × (leb_ℤ (pos second) cfg.share_target ≡ true)
      × (leb_ℤ cfg.share_target (pos (300 * second)) ≡ true)
good_times cfg h = ground arith

good_limits :
    (cfg : Config)
    → bad_limits cfg ≡ false
    → (leb_ℤ (pos 1) cfg.max_miners_per_ip ≡ true)
      × (leb_ℤ cfg.max_miners_per_ip cfg.max_miners ≡ true)
      × (leb_ℤ cfg.max_miners (pos 100_000) ≡ true)
good_limits cfg h = ground arith

not_le→lt : (x y : Float) → is_nan x ≡ false → is_nan y ≡ false → le y x ≡ false → lt x y ≡ true
unfolding le lt
not_le→lt x y p q h = ground arith

not_lt→le : (x y : Float) → is_nan x ≡ false → is_nan y ≡ false → lt y x ≡ false → le x y ≡ true
unfolding le lt
not_lt→le x y p q h = ground arith

ten_false :
    (a b c d e f g h i j : Bool)
    → (a || b || c || d || e || f || g || h || i || j) ≡ false
    → (a ≡ false)
      × (b ≡ false)
      × (c ≡ false)
      × (d ≡ false)
      × (e ≡ false)
      × (f ≡ false)
      × (g ≡ false)
      × (h ≡ false)
      × (i ≡ false)
      × (j ≡ false)
ten_false false false false false false false false false false j p =
    (refl, refl, refl, refl, refl, refl, refl, refl, refl, p)
ten_false a b c d e f g h i j p = cc

good_difficulties :
    (cfg : Config)
    → bad_difficulties cfg ≡ false
    → (lt zero_float cfg.minimum_difficulty ≡ true)
      × IsWithin cfg.minimum_difficulty cfg.maximum_difficulty cfg.initial_difficulty
      × (is_inf cfg.minimum_difficulty ≡ false)
      × (is_inf cfg.maximum_difficulty ≡ false)
good_difficulties cfg h =
    let low = cfg.minimum_difficulty in
    let high = cfg.maximum_difficulty in
    let start = cfg.initial_difficulty in
    let (zero_low, _, start_low, high_start, low_nan, start_nan, high_nan, low_inf, _, high_inf) =
      ten_false (le low zero_float) (lt high low) (lt start low) (lt high start) (is_nan low)
        (is_nan start) (is_nan high) (is_inf low) (is_inf start) (is_inf high) h in
    (
      not_le→lt zero_float low refl low_nan zero_low,
      (
        not_lt→le low start low_nan start_nan start_low,
        not_lt→le start high start_nan high_nan high_start,
      ),
      low_inf,
      high_inf,
    )

some_default : (n d : ℕ) → 0 < d → 0 < (if n == 0 then d else n)
some_default n d p = ground arith

-- What `NewServer` accepts, defaults filled in, is within its bounds: the minimum difficulty is
-- positive, and the initial one lies between it and the maximum, all of them finite; the PPLNS
-- window is 1 to 100 targets, the fee at most all, a share target is 1 to 300 seconds, and a job
-- interval at least 250 milliseconds; and 1 ≤ miners per IP ≤ miners ≤ 100,000.
pub checked_config-IsConfig : (given cfg : Config) → checked_config given ≡ some cfg → IsConfig cfg
checked_config-IsConfig given cfg h =
    let (made, times, difficulties, rates, limits) = checked_config-passes given cfg h in
    let (interval, low, high) = good_times cfg times in
    let (positive, initial, low_inf, high_inf) = good_difficulties cfg difficulties in
    record {
      job_interval = interval;
      share_target = (low, high);
      positive = positive;
      initial = initial;
      numbers = (low_inf, high_inf);
      window = (
        unfold with_defaults in rw made (some_default given.pplns_window 2 (omega arith)),
        ground (arith, rates),
      );
      fee = ground (arith, rates);
      maturity =
          unfold with_defaults in rw made (some_default given.maturity_blocks 60 (omega arith));
      miners = good_limits cfg limits;
    }
