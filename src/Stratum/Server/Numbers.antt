-- ===== src/Stratum/Server/Numbers.antt =====
-- The numbers that a client's request carries: decoded, parsed from a password, or suggested.
use mathlib.Core.Path.{subst}
use qday_pool.Prelude.{
  ◌≡◌, refl, Bool, true, false, not, ◌&&◌, ◌||◌, Option, none, some, List, [], ◌∷◌, Text,
  if◌then◌else◌, arith, All, Bool-cases, Option-cases, inl, inr, ap,
}
use qday_pool.Float.{Float, not_a_number, infinite, finite, lt, le, is_nan, is_inf, top, double}
use qday_pool.Float.Laws.{IsFloat, IsFinite}
use qday_pool.Stratum.Config.{Config, zero_float}
use qday_pool.Stratum.Clients.Vardiff.{IsRange, InForce, lt_of_lt-le}
use qday_pool.Stratum.Login.{
  password_difficulty, first_difficulty, fields, cut, is_difficulty_key, positive_number,
}
use qday_pool.Stratum.Server.Handlers.{
  Item, text, number, nothing, other, Params, absent, items, unusable, decode_params, out_of_range,
  login_difficulty, password_of, float_of, all_of, cons_option, suggestion,
}
use qday_pool.Float.Rounding.{below}

pub float-IsFinite : (d : Float) → IsFloat d → is_nan d ≡ false → is_inf d ≡ false → IsFinite d
float-IsFinite (finite s k) f p q = f
float-IsFinite not_a_number f p q = cc
float-IsFinite (infinite s) f p q = cc

in_range :
    (low high d : Float)
    → IsFinite low
    → IsFinite high
    → IsFinite d
    → (lt d low || lt high d) ≡ false
    → (le low d ≡ true) × (le d high ≡ true)
unfolding lt le
in_range (finite r a) (finite t b) (finite u c) f g h o = ground arith
in_range not_a_number high d f g h o = elim f [ ]
in_range (infinite s) high d f g h o = elim f [ ]
in_range (finite r a) not_a_number d f g h o = elim g [ ]
in_range (finite r a) (infinite s) d f g h o = elim g [ ]
in_range (finite r a) (finite t b) not_a_number f g h o = elim h [ ]
in_range (finite r a) (finite t b) (infinite s) f g h o = elim h [ ]

-- A number within the pool's limits may be in force.
pub in_range-InForce :
    (cfg : Config) (d : Float)
    → IsRange cfg
    → IsFinite d
    → out_of_range cfg d ≡ false
    → InForce cfg d
in_range-InForce cfg d r f o =
    let (low, high) = in_range cfg.minimum_difficulty cfg.maximum_difficulty d r.low r.high f o in
    record {
      number = f;
      positive = lt_of_lt-le zero_float cfg.minimum_difficulty d r.positive low;
      limited = high;
    }

-- What JSON decoding and `ParseFloat` give are float64.
abbrev pub IsItem : Item → Type 0
IsItem (number x) = IsFloat x
IsItem (text s) = Unit
IsItem nothing = Unit
IsItem other = Unit

abbrev pub IsParams : Params → Type 0
IsParams (items is) = All IsItem is
IsParams absent = Unit
IsParams unusable = Unit

abbrev pub IsParser : (Text → Option Float) → Type 0
IsParser parse_float = (s : Text) (d : Float) → parse_float s ≡ some d → IsFloat d

chosen_number :
    (x d : Float) (p n i : Bool)
    → (if p && (not n && not i) then some x else none) ≡ some d
    → (x ≡ d) × (p ≡ true) × (n ≡ false) × (i ≡ false)
chosen_number x d p n i h = ground arith

positive_number-inv :
    (o : Option Float) (d : Float)
    → positive_number o ≡ some d
    → (o ≡ some d) × (lt zero_float d ≡ true) × (is_nan d ≡ false) × (is_inf d ≡ false)
positive_number-inv none d h = absurd (cc)
positive_number-inv (some x) d h =
    let (e, p, n, i) = chosen_number x d (lt zero_float x) (is_nan x) (is_inf x) h in
    (ap some e, rw (← e) p, rw (← e) n, rw (← e) i)

pub positive-IsFinite :
    (parse_float : Text → Option Float)
    → IsParser parse_float
    → (value : Text) (d : Float) → positive_number (parse_float value) ≡ some d
    → IsFinite d × (lt zero_float d ≡ true)
positive-IsFinite parse_float k value d h =
    let (read, p, n, i) = positive_number-inv (parse_float value) d h in
    (float-IsFinite d (k value d read) n i, p)

-- A password's difficulty is a positive, finite number.
pub first_difficulty-IsFinite :
    (parse_float : Text → Option Float)
    → IsParser parse_float
    → (fs : List Text) (d : Float) → first_difficulty parse_float fs ≡ some d
    → IsFinite d × (lt zero_float d ≡ true)
unfolding first_difficulty
first_difficulty-IsFinite parse_float k [] d h = absurd (cc)
first_difficulty-IsFinite parse_float k (f ∷ fs) d h = elim (Option-cases (cut f)) [
  | inl whole ↦ first_difficulty-IsFinite parse_float k fs d (rw (whole, first_difficulty) at h)
  | inr ((key, value), split) ↦ elim (Bool-cases (is_difficulty_key key)) [
    | inl here ↦ positive-IsFinite parse_float k value d (rw (split, here, first_difficulty) at h)
    | inr other_key ↦
        first_difficulty-IsFinite parse_float k fs d (rw (split, other_key, first_difficulty) at h)
  ]
]

some_eq : (x d : Float) → some x ≡ some d → x ≡ d
some_eq x d h = ground arith

chosen_within :
    (x d : Float) (b : Bool) → (if b then none else some x) ≡ some d → (x ≡ d) × (b ≡ false)
chosen_within x d b h = ground arith

pub login_difficulty-InForce :
    (cfg : Config) (o : Option Float) (d : Float)
    → IsRange cfg
    → InForce cfg cfg.initial_difficulty
    → ((x : Float) → o ≡ some x → IsFinite x)
    → login_difficulty cfg o ≡ some d
    → InForce cfg d
login_difficulty-InForce cfg none d r i k h =
    subst (InForce cfg) (some_eq cfg.initial_difficulty d h) i
login_difficulty-InForce cfg (some x) d r i k h =
    let (e, within) = chosen_within x d (out_of_range cfg x) h in
    subst (InForce cfg) e (in_range-InForce cfg x r (k x refl) within)

pub password_of-IsFinite :
    (parse_float : Text → Option Float)
    → IsParser parse_float
    → (rest : List Text) (x : Float) → password_of parse_float rest ≡ some x
    → IsFinite x
unfolding password_difficulty
password_of-IsFinite parse_float k [] x h = absurd (cc)
password_of-IsFinite parse_float k (password ∷ rest) x h =
    (first_difficulty-IsFinite parse_float k (fields password []) x h).0

number_eq : (x d : Float) → some x ≡ some d → x ≡ d
number_eq x d h = ground arith

pub zero-IsFloat : IsFloat zero_float
zero-IsFloat = (unfold double in below 0 (omega arith), unfold top in omega arith)

abbrev first_of : Option (List Float) → Option Float
first_of (some (d ∷ rest)) = some d
first_of (some []) = none
first_of none = none

none-some_float : {d : Float} → none ≡ some d → ⊥
none-some_float h = cc

none_of : {d : Float} → some [] ≡ some (d ∷ []) → ⊥
none_of h = absurd (none-some_float (ap first_of h))

pub float_of-IsFloat : (i : Item) (d : Float) → IsItem i → float_of i ≡ some d → IsFloat d
float_of-IsFloat (number x) d f h = subst IsFloat (number_eq x d h) f
float_of-IsFloat nothing d f h = subst IsFloat (number_eq zero_float d h) zero-IsFloat
float_of-IsFloat (text s) d f h = absurd (cc)
float_of-IsFloat other d f h = absurd (cc)

one_of :
    (o : Option Float) (r : Option (List Float)) (d : Float)
    → cons_option o r ≡ some (d ∷ [])
    → o ≡ some d
one_of (some x) (some rest) d h = ap first_of h
one_of (some x) none d h = absurd (cc)
one_of none r d h = absurd (cc)

pub decoded-IsFloat :
    (p : Params) (d : Float) → IsParams p → decode_params float_of p ≡ some (d ∷ []) → IsFloat d
decoded-IsFloat absent d f h = absurd (none_of h)
decoded-IsFloat unusable d f h = absurd (cc)
decoded-IsFloat (items []) d f h = absurd (none_of h)
decoded-IsFloat (items (i ∷ is)) d (f, _) h =
    float_of-IsFloat i d f (one_of (float_of i) (all_of float_of is) d h)

chosen_suggestion :
    (x d : Float) (o n i : Bool)
    → (if o || (n || i) then none else some x) ≡ some d
    → (x ≡ d) × (o ≡ false) × (n ≡ false) × (i ≡ false)
chosen_suggestion x d o n i h = ground arith

pub suggestion-InForce :
    (cfg : Config) (o : Option (List Float)) (d : Float)
    → IsRange cfg
    → ((x : Float) → o ≡ some (x ∷ []) → IsFloat x)
    → suggestion cfg o ≡ some d
    → InForce cfg d
suggestion-InForce cfg none d r k h = absurd (cc)
suggestion-InForce cfg (some []) d r k h = absurd (cc)
suggestion-InForce cfg (some (x ∷ y ∷ rest)) d r k h = absurd (cc)
suggestion-InForce cfg (some (x ∷ [])) d r k h =
    let (e, within, n, i) = chosen_suggestion x d (out_of_range cfg x) (is_nan x) (is_inf x) h in
    subst (InForce cfg) e (in_range-InForce cfg x r (float-IsFinite x (k x refl) n i) within)
