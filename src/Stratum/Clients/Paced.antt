-- ===== src/Stratum/Clients/Paced.antt =====
-- The difficulties of a client under `acceptedAt` and `lowerIdleDifficulty`.
use qday_pool.Prelude.{
  ℕ, ◌+◌, ◌*◌, ◌%◌, ◌^◌, ◌≤◌, ◌<◌, ◌≡◌, refl, true, false, not, ◌&&◌, ◌||◌, some, ltb, arith,
  Bool-cases, inl, inr, Option-cases,
}
use qday_pool.Float.{
  Float, not_a_number, infinite, finite, unit, constant, of_ratio, lt, le, div, fmax, is_nan,
}
use qday_pool.Float.Laws.{IsFinite, fmax-IsFloat, IsFinite-IsFloat, le-fmax, fmax-le}
use qday_pool.Float.Results.{of_ratio-finite}
use qday_pool.Stratum.Config.{Config, second, zero_float}
use qday_pool.Stratum.Clients.{
  Moment, u64, Client, same_difficulty, reset_vardiff, longest, since, is_fast, next_difficulty,
  is_small_change, end_window, in_window, start_window, accepted_at, is_busy, lower_idle_difficulty,
}
use qday_pool.Stratum.Clients.Vardiff.{
  IsRange, InForce, IsPaced, next_difficulty-InForce, lt_of_lt-le, le_trans, within-IsFinite,
  twofold,
}

since-le : (now started : Moment) → since now started ≤ longest
since-le now started = omega arith

halved_ratio :
    (k r : ℕ)
    → of_ratio false (k * unit) (2 ^ 1_075) ≡ finite false r
    → div (finite false k) (finite false (2 ^ 1_075)) ≡ finite false r
unfolding div
halved_ratio k r h = h

halved_number :
    (x : Float)
    → IsFinite x
    → lt zero_float x ≡ true
    → IsFinite (div x (constant 2 1)) × (le (div x (constant 2 1)) x ≡ true)
halved_number (finite false k) (f, small) p =
    let bound : k * unit ≤ k * 2 ^ 1_075 = unfold unit in omega arith in
    let (r, is_r, fits, most, _) =
      of_ratio-finite false (k * unit) (2 ^ 1_075) k (omega arith) f small bound in
    let less : le (finite false r) (finite false k) ≡ true = unfold le in ground (arith, most) in
    rw (twofold, halved_ratio k r is_r) ((fits, omega (arith, most, small)), less)
halved_number (finite true k) f p = absurd (unfold lt in ground (arith, p))
halved_number not_a_number f p = elim f [ ]
halved_number (infinite s) f p = elim f [ ]

is_nan-IsFinite : (x : Float) → IsFinite x → is_nan x ≡ false
is_nan-IsFinite (finite s k) h = refl
is_nan-IsFinite not_a_number h = elim h [ ]
is_nan-IsFinite (infinite s) h = elim h [ ]

module _ (cfg : Config) (r : IsRange cfg) where
  start_window-IsPaced :
      (now : Moment) (d : Float) (c : Client) → InForce cfg d → IsPaced cfg (start_window now d c).1
  unfolding start_window
  start_window-IsPaced now d c f = record { current = f; window = inr f; counted = omega arith }

  end_window-IsPaced :
      (now : Moment) (shares elapsed : ℕ) (c : Client)
      → shares < u64
      → elapsed ≤ longest
      → InForce cfg c.difficulty
      → InForce cfg c.vardiff_difficulty
      → IsPaced cfg (end_window cfg now shares elapsed c).1
  unfolding end_window reset_vardiff
  end_window-IsPaced now shares elapsed c h l f g =
      let next = next_difficulty cfg c.vardiff_difficulty shares elapsed in
      let n = next_difficulty-InForce cfg r c.vardiff_difficulty shares elapsed g h l in
      elim (Bool-cases (is_small_change next c.difficulty)) [
        | inl small ↦ rw small (record { current = f; window = inr f; counted = omega arith })
        | inr large ↦ rw large (record { current = n; window = inr n; counted = omega arith })
      ]

  in_window-IsPaced :
      (now started : Moment) (c : Client)
      → InForce cfg c.difficulty
      → InForce cfg c.vardiff_difficulty
      → IsPaced cfg (in_window cfg now started c).1
  unfolding in_window
  in_window-IsPaced now started c f g =
      let shares = (c.vardiff_shares + 1) % u64 in
      let elapsed = since now started in
      elim (Bool-cases (ltb elapsed (90 * second) && not (is_fast shares elapsed))) [
        | inl early ↦ rw early (record { current = f; window = inr g; counted = omega arith })
        | inr over ↦ rw over (
            end_window-IsPaced now shares elapsed (record c { vardiff_shares = shares })
              (omega arith) (since-le now started) f g)
      ]

  in_force :
      (c : Client) (started : Moment)
      → IsPaced cfg c
      → c.vardiff_started ≡ some started
      → InForce cfg c.vardiff_difficulty
  in_force c started p e = elim p.window [ inl n ↦ absurd (cc) | inr g ↦ g ]

  -- An accepted share leaves the client's difficulties positive, finite and at most the maximum, if
  -- they and the share's are.
  pub accepted_at-IsPaced :
      (now : Moment) (d : Float) (c : Client)
      → InForce cfg d
      → IsPaced cfg c
      → IsPaced cfg (accepted_at cfg now d c).1
  unfolding accepted_at
  accepted_at-IsPaced now d c f p =
      let c' : Client = record c { last_share = some now } in
      elim (Bool-cases (same_difficulty d c.last_diff)) [
        | inr other ↦
            rw other (record { current = p.current; window = p.window; counted = p.counted })
        | inl same ↦ rw same (elim (Option-cases c.vardiff_started) [
          | inl idle ↦ rw (idle, accepted_at) (start_window-IsPaced now d c' f)
          | inr (started, e) ↦
              rw (e, accepted_at)
                (elim (Bool-cases (same_difficulty c.vardiff_difficulty d)) [
                  | inr changed ↦ rw changed (start_window-IsPaced now d c' f)
                  | inl kept ↦
                      rw kept (in_window-IsPaced now started c' p.current (in_force c started p e))
                ])
        ])
      ]

  -- Half of a difficulty in force is a float64 that is not more.
  halved :
      (x : Float)
      → InForce cfg x
      → IsFinite (div x (constant 2 1)) × (le (div x (constant 2 1)) x ≡ true)
  halved x f = halved_number x f.number f.positive

  lowered-InForce :
      (x : Float) → InForce cfg x → InForce cfg (fmax cfg.minimum_difficulty (div x (constant 2 1)))
  lowered-InForce x f =
      let low = cfg.minimum_difficulty in
      let (g, less) = halved x f in
      let y = div x (constant 2 1) in
      let above = le-fmax low y r.low (IsFinite-IsFloat y g) (is_nan-IsFinite y g) in
      let limited =
        fmax-le low cfg.maximum_difficulty y r.low (is_nan-IsFinite y g) r.ordered
          (le_trans y x cfg.maximum_difficulty less f.limited) in
      record {
        number =
            within-IsFinite low cfg.maximum_difficulty (fmax low y) r.low r.high
              (fmax-IsFloat low y (IsFinite-IsFloat low r.low) (IsFinite-IsFloat y g))
              (above, limited);
        positive = lt_of_lt-le zero_float low (fmax low y) r.positive above;
        limited = limited;
      }

  -- A refresh leaves the client's difficulties positive, finite and at most the maximum, if they are.
  pub lower_idle_difficulty-IsPaced :
      (now : Moment) (c : Client) → IsPaced cfg c → IsPaced cfg (lower_idle_difficulty cfg now c)
  unfolding lower_idle_difficulty
  lower_idle_difficulty-IsPaced now c p =
      elim (Bool-cases (is_busy cfg now c.last_share || le c.difficulty cfg.minimum_difficulty)) [
        | inl busy ↦ rw busy p
        | inr idle ↦ rw idle (record {
          current = lowered-InForce c.difficulty p.current;
          window = inl refl;
          counted = omega arith;
        })
      ]
