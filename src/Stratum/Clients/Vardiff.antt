-- ===== src/Stratum/Clients/Vardiff.antt =====
-- The difficulty in force for a client, over accepted shares and idle time.
use mathlib.Core.Path.{subst}
use native.Mathlib.Nat.{one-mul}
use qday_pool.Prelude.{
  ℕ, ◌*◌, ◌^◌, ◌≤◌, ◌<◌, ◌≡◌, refl, true, false, ◌==◌, none, arith, Bool-cases, inl, inr, ◌⊎◌,
  if◌then◌else◌,
}
use qday_pool.Prelude.Int.{ℤ, pos, negsuc, pos_part, leb_ℤ}
use qday_pool.Float.{
  Float, not_a_number, infinite, finite, unit, top, double, constant, of_ratio, round_to, nearest,
  lt, le, mul, div, fmax, fmin, is_nan,
}
use qday_pool.Float.Rounding.{Fits}
use qday_pool.Float.Laws.{
  IsFloat, IsFinite, IsWithin, fmin-IsFloat, fmax-IsFloat, IsFinite-IsFloat, clip-IsWithin,
}
use qday_pool.Float.Results.{mul-IsNumber, div-IsNumber, constant-finite, Fits-doubled, one-Fits}
use qday_pool.Stratum.Config.{Config, second, zero_float}
use qday_pool.Stratum.Clients.{
  u64, Client, seconds, longest, is_fast, window_factor, next_difficulty,
}
use qday_pool.Stratum.Clients.Durations.{seconds_lem}

pub lt_of_lt-le : (x y z : Float) → lt x y ≡ true → le y z ≡ true → lt x z ≡ true
unfolding lt le
lt_of_lt-le not_a_number y z p q = cc
lt_of_lt-le x y z p q = ground arith

pub le_trans : (x y z : Float) → le x y ≡ true → le y z ≡ true → le x z ≡ true
unfolding le
le_trans x y z p q = ground arith

pub within-IsFinite :
    (low high x : Float)
    → IsFinite low
    → IsFinite high
    → IsFloat x
    → IsWithin low high x
    → IsFinite x
unfolding le
within-IsFinite low high (finite s k) f g h w = h
within-IsFinite low high not_a_number f g h (p, q) = cc
within-IsFinite (finite s a) (finite t b) (infinite u) f g h (p, q) = absurd (ground arith)
within-IsFinite not_a_number high (infinite u) f g h w = elim f [ ]
within-IsFinite (infinite s) high (infinite u) f g h w = elim f [ ]
within-IsFinite (finite s a) not_a_number (infinite u) f g h w = elim g [ ]
within-IsFinite (finite s a) (infinite t) (infinite u) f g h w = elim g [ ]

half : constant 1 2 ≡ finite false (2 ^ 1_073)
unfolding constant of_ratio round_to nearest unit double top
half = refl

pub twofold : constant 2 1 ≡ finite false (2 ^ 1_075)
unfolding constant of_ratio round_to nearest unit double top
twofold = refl

fourfold : constant 4 1 ≡ finite false (2 ^ 1_076)
unfolding constant of_ratio round_to nearest unit double top
fourfold = refl

-- A power of two.
pub power-IsFinite : (n : ℕ) → 2 ^ n < top → IsFinite (finite false (2 ^ n))
power-IsFinite n h = (subst (Fits double) (one-mul (2 ^ n)) (Fits-doubled double n 1 one-Fits), h)

-- What the model's configuration is, of `NewServer`.
pub record IsRange (cfg : Config) : Type 0 where
  pub low : IsFinite cfg.minimum_difficulty
  pub high : IsFinite cfg.maximum_difficulty
  pub positive : lt zero_float cfg.minimum_difficulty ≡ true
  pub ordered : le cfg.minimum_difficulty cfg.maximum_difficulty ≡ true
  pub target :
      (leb_ℤ (pos second) cfg.share_target ≡ true)
      × (leb_ℤ cfg.share_target (pos (300 * second)) ≡ true)

-- A difficulty that may be in force: a positive number up to the maximum.
pub record InForce (cfg : Config) (x : Float) : Type 0 where
  pub number : IsFinite x
  pub positive : lt zero_float x ≡ true
  pub limited : le x cfg.maximum_difficulty ≡ true

-- A client whose difficulties may be in force.
pub record IsPaced (cfg : Config) (c : Client) : Type 0 where
  pub current : InForce cfg c.difficulty
  pub window : (c.vardiff_started ≡ none) ⊎ InForce cfg c.vardiff_difficulty
  pub counted : c.vardiff_shares < u64

target_range :
    (t : ℤ)
    → leb_ℤ (pos second) t ≡ true
    → leb_ℤ t (pos (300 * second)) ≡ true
    → (0 < pos_part t) × (pos_part t ≤ longest)
target_range (pos n) p q = ground arith
target_range (negsuc n) p q = absurd (ground arith)

some_time :
    (elapsed : ℕ)
    → elapsed ≤ longest
    → (0 < (if elapsed == 0 then 1_000_000 else elapsed))
      × ((if elapsed == 0 then 1_000_000 else elapsed) ≤ longest)
some_time elapsed h = ground arith

raw_factor-IsNumber :
    (cfg : Config)
    → IsRange cfg
    → (shares elapsed : ℕ) → shares < u64
    → elapsed ≤ longest
    → let f =
        div
          (mul (constant shares 1) (seconds (pos_part cfg.share_target)))
          (seconds (if elapsed == 0 then 1_000_000 else elapsed)) in
      IsFloat f × (is_nan f ≡ false)
raw_factor-IsNumber cfg r shares elapsed h l =
    let (some_target, short) = target_range cfg.share_target r.target.0 r.target.1 in
    let (later, soon) = some_time elapsed l in
    let (s, is_s, fits_s, small_s, _) = constant-finite shares 1 h (omega arith) in
    let (t, is_t, fits_t, small_t, _) = seconds_lem (pos_part cfg.share_target) some_target short in
    let (e, is_e, _, small_e, some_e) =
      seconds_lem (if elapsed == 0 then 1_000_000 else elapsed) later soon in
    let (product, number) =
      mul-IsNumber (finite false s) (finite false t) (fits_s, unfold top in omega (arith, small_s))
        (fits_t, small_t) in
    rw (is_s, is_t, is_e)
      (div-IsNumber (mul (finite false s) (finite false t)) e product number some_e small_e)

half-IsFinite : IsFinite (constant 1 2)
half-IsFinite = rw half (power-IsFinite 1_073 (unfold top in omega arith))

twofold-IsFinite : IsFinite (constant 2 1)
twofold-IsFinite = rw twofold (power-IsFinite 1_075 (unfold top in omega arith))

fourfold-IsFinite : IsFinite (constant 4 1)
fourfold-IsFinite = rw fourfold (power-IsFinite 1_076 (unfold top in omega arith))

half-le-twofold : le (constant 1 2) (constant 2 1) ≡ true
half-le-twofold = rw (half, twofold) (unfold le in refl)

half-le-fourfold : le (constant 1 2) (constant 4 1) ≡ true
half-le-fourfold = rw (half, fourfold) (unfold le in refl)

module _ (cfg : Config) (r : IsRange cfg) where
  -- Clipped to the pool's limits, a number may be in force.
  clip-InForce :
      (x : Float)
      → IsFloat x
      → is_nan x ≡ false
      → InForce cfg (fmax cfg.minimum_difficulty (fmin cfg.maximum_difficulty x))
  clip-InForce x f n =
      let low = cfg.minimum_difficulty in
      let high = cfg.maximum_difficulty in
      let y = fmax low (fmin high x) in
      let within = clip-IsWithin low high x r.low r.high f r.ordered n in
      record {
        number =
            within-IsFinite low high y r.low r.high
              (fmax-IsFloat low (fmin high x) (IsFinite-IsFloat low r.low)
                (fmin-IsFloat high x (IsFinite-IsFloat high r.high) f))
              within;
        positive = lt_of_lt-le zero_float low y r.positive within.0;
        limited = within.1;
      }

  window_factor_lem :
      (shares elapsed : ℕ)
      → shares < u64
      → elapsed ≤ longest
      → IsFinite (window_factor cfg shares elapsed)
  unfolding window_factor
  window_factor_lem shares elapsed h l =
      let raw : Float =
        div (mul (constant shares 1) (seconds (pos_part cfg.share_target)))
          (seconds (if elapsed == 0 then 1_000_000 else elapsed)) in
      let (f, n) = raw_factor-IsNumber cfg r shares elapsed h l in
      let clipped = λ (high : Float) (g : IsFinite high) (o : le (constant 1 2) high ≡ true).
        let x = fmax (constant 1 2) (fmin high raw) in
        let a : IsFinite x =
          within-IsFinite (constant 1 2) high x half-IsFinite g
            (fmax-IsFloat (constant 1 2) (fmin high raw)
              (IsFinite-IsFloat (constant 1 2) half-IsFinite)
              (fmin-IsFloat high raw (IsFinite-IsFloat high g) f))
            (clip-IsWithin (constant 1 2) high raw half-IsFinite g f o n) in
        a in
      elim (Bool-cases (is_fast shares elapsed)) [
        | inl fast ↦ rw fast (clipped (constant 4 1) fourfold-IsFinite half-le-fourfold)
        | inr slow ↦ rw slow (clipped (constant 2 1) twofold-IsFinite half-le-twofold)
      ]

  pub next_difficulty-InForce :
      (x : Float) (shares elapsed : ℕ)
      → InForce cfg x
      → shares < u64
      → elapsed ≤ longest
      → InForce cfg (next_difficulty cfg x shares elapsed)
  unfolding next_difficulty
  next_difficulty-InForce x shares elapsed f h l =
      let raw : Float = mul x (window_factor cfg shares elapsed) in
      let (g, n) =
        mul-IsNumber x (window_factor cfg shares elapsed) f.number
          (window_factor_lem shares elapsed h l) in
      clip-InForce raw g n
