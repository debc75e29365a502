-- ===== src/Stratum/Server/Started.antt =====
-- The invariant of the server at its start, of `NewServer`.
use mathlib.Core.Path.{subst}
use qday_pool.Prelude.{
  ℕ, ◌^◌, ◌<◌, ◌≡◌, refl, true, false, Option, none, some, if_both, arith, inl, inr, ap,
  Option-cases, sym,
}
use qday_pool.Float.{top, Float, le, lt, constant, eq, is_nan}
use qday_pool.Float.Laws.{IsFloat}
use qday_pool.Float.Results.{constant-finite}
use qday_pool.Stratum.Bytes.{Bytes}
use qday_pool.Stratum.Config.{Config, zero_float, or_float, with_defaults, checked_config}
use qday_pool.Stratum.Config.Bounds.{checked_config-passes, checked_config-IsConfig}
use qday_pool.Stratum.Clients.Vardiff.{IsRange, InForce, le_trans, lt_of_lt-le, within-IsFinite}
use qday_pool.Stratum.Server.{Server, started, new_server}
use qday_pool.Stratum.Server.Net.{IsServer}
use qday_pool.Stratum.Server.Numbers.{float-IsFinite}

-- The default difficulties are float64.
default-IsFloat : (n d : ℕ) → n < 2 ^ 64 → 0 < d → IsFloat (constant n d)
default-IsFloat n d h p =
    let (r, is_r, fits, small, _) = constant-finite n d h p in
    rw is_r (fits, unfold top in omega (arith, small))

or_float-IsFloat : (x y : Float) → IsFloat x → IsFloat y → IsFloat (or_float x y)
or_float-IsFloat x y f g = if_both IsFloat (eq x zero_float) g f

-- What an operator's configuration holds, as any of the program's does.
pub record IsSettings (cfg : Config) : Type 0 where
  pub initial : IsFloat cfg.initial_difficulty
  pub minimum : IsFloat cfg.minimum_difficulty
  pub maximum : IsFloat cfg.maximum_difficulty

defaults_IsSettings : (cfg : Config) → IsSettings cfg → IsSettings (with_defaults cfg)
unfolding with_defaults
defaults_IsSettings cfg s = record {
  initial =
      or_float-IsFloat cfg.initial_difficulty (constant 1 1) s.initial
        (default-IsFloat 1 1 (omega arith) (omega arith));
  minimum =
      or_float-IsFloat cfg.minimum_difficulty (constant 1 100) s.minimum
        (default-IsFloat 1 100 (omega arith) (omega arith));
  maximum =
      or_float-IsFloat cfg.maximum_difficulty (constant 1_000_000_000_000 1) s.maximum
        (default-IsFloat 1_000_000_000_000 1 (omega arith) (omega arith));
}

lt-is_nan : (x y : Float) → lt x y ≡ true → is_nan y ≡ false
unfolding lt
lt-is_nan x y h = ground arith

le-is_nan : (x y : Float) → le x y ≡ true → is_nan y ≡ false
unfolding le
le-is_nan x y h = ground arith

-- An accepted configuration is a range of difficulties, and its initial one may be in force.
checked-IsRange :
    (given cfg : Config)
    → IsSettings given
    → checked_config given ≡ some cfg
    → IsRange cfg × InForce cfg cfg.initial_difficulty
checked-IsRange given cfg s h =
    let b = checked_config-IsConfig given cfg h in
    let t =
      subst IsSettings (sym (checked_config-passes given cfg h).0) (defaults_IsSettings given s) in
    let low = cfg.minimum_difficulty in
    let high = cfg.maximum_difficulty in
    let start = cfg.initial_difficulty in
    let f = float-IsFinite low t.minimum (lt-is_nan zero_float low b.positive) b.numbers.0 in
    let g = float-IsFinite high t.maximum (le-is_nan start high b.initial.1) b.numbers.1 in
    (
      record {
        low = f;
        high = g;
        positive = b.positive;
        ordered = le_trans low start high b.initial.0 b.initial.1;
        target = b.share_target;
      },
      record {
        number = within-IsFinite low high start f g t.initial b.initial;
        positive = lt_of_lt-le zero_float low start b.positive b.initial.0;
        limited = b.initial.1;
      },
    )

started-IsServer :
    (seed : Option Bytes) (cfg : Config)
    → IsRange cfg
    → InForce cfg cfg.initial_difficulty
    → IsServer (started seed cfg)
started-IsServer seed cfg r i = record {
  range = r;
  initial = i;
  good = tt;
  made = λ k j h. absurd (cc);
  listed = λ k h. refl;
  remembered = omega arith;
  numbered = tt;
  counted = λ ip. refl;
  limited = omega arith;
  shared = λ ip. omega arith;
}

none-some_server : (s : Server) → none ≡ some s → ⊥
none-some_server s h = cc

server_or : Server → Option Server → Server
server_or v none = v
server_or v (some w) = w

server_eq : (v w : Server) → some v ≡ some w → v ≡ w
unfolding server_or
server_eq v w h = ap (server_or v) h

pub new_server-IsServer :
    (seed : Option Bytes) (given : Config) (s : Server)
    → IsSettings given
    → new_server seed given ≡ some s
    → IsServer s
unfolding new_server
new_server-IsServer seed given s f h = elim (Option-cases (checked_config given)) [
  | inl refused ↦ absurd (none-some_server s (rw refused at h))
  | inr (cfg, accepted) ↦
      let (r, i) = checked-IsRange given cfg f accepted in
      subst IsServer (server_eq (started seed cfg) s (rw accepted at h))
        (started-IsServer seed cfg r i)
]
