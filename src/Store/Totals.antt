-- ===== src/Store/Totals.antt =====
-- Go maps from strings to amounts (`map[string]*big.Int`), as association lists in insertion
-- order, and `parseBig`, which reads an amount from a text column.
use mathlib.Core.Path.{subst}
use qday_pool.Prelude.{
  ℕ, ◌+◌, ◌≡◌, ◌↔◌, refl, sym, Bool, true, false, none, some, List, [], ◌∷◌, Text, text_eq,
  text_eq_iff, text_eq_refl, arith, sum_of, All, All-map, All-both, if◌then◌else◌,
}
use qday_pool.Prelude.Int.{pos, negsuc}
use qday_pool.Decimal.{set_string, decimal}
use qday_pool.Decimal.RoundTrip.{set_string-decimal}
use qday_pool.Store.Sql.{Result, ok, err, invalid_integer}

-- A canonical decimal with no sign; `none` of `set_string` is `!ok`.
unfoldable pub parse_big : Text → Result ℕ
parse_big value = elim (set_string value) [
  | none ↦ err invalid_integer
  | some (pos n) ↦ if text_eq (decimal n) value then ok n else err invalid_integer
  | some (negsuc n) ↦ err invalid_integer
]

-- What `String()` writes, `parseBig` reads.
pub parse_big-decimal : (n : ℕ) → parse_big (decimal n) ≡ ok n
unfolding parse_big
parse_big-decimal n = ground (arith, set_string-decimal n, text_eq_refl (decimal n))

-- `parseBig` reads nothing else.
pub parse_big_canonical : (s : Text) (n : ℕ) → parse_big s ≡ ok n → s ≡ decimal n
unfolding parse_big
parse_big_canonical s n h = ground (arith, text_eq_iff (decimal n) s)

-- `parseBig` reads exactly the strings that `String()` writes: it accepts no sign, no leading zero
-- and nothing else that a number has no other way to be written, so two columns that differ as
-- strings never hold the same amount.
pub parse_big_iff : (s : Text) (n : ℕ) → (parse_big s ≡ ok n) ↔ (s ≡ decimal n)
parse_big_iff s n =
    (parse_big_canonical s n, λ e. subst (λ x. parse_big x ≡ ok n) (sym e) (parse_big-decimal n))

-- The amount that a column holds; 0 where it holds none.
unfoldable pub atoms : Text → ℕ
atoms s = elim (parse_big s) [ ok n ↦ n | err e ↦ 0 ]

pub atoms_of_parse : (s : Text) (n : ℕ) → parse_big s ≡ ok n → atoms s ≡ n
unfolding atoms
atoms_of_parse s n h = ground arith

pub atoms-decimal : (n : ℕ) → atoms (decimal n) ≡ n
atoms-decimal n = atoms_of_parse (decimal n) n (parse_big-decimal n)

abbrev pub Totals : Type 0
Totals = List (Text × ℕ)

-- `values[address]`, or zero where there is none
unfoldable pub value : Text → Totals → ℕ
value k [] = 0
value k ((j, v) ∷ m) = if text_eq j k then v else value k m

unfoldable pub has_key : Text → Totals → Bool
has_key k [] = false
has_key k ((j, v) ∷ m) = if text_eq j k then true else has_key k m

-- `addAmount`
unfoldable pub add_amount : Text → ℕ → Totals → Totals
add_amount k n [] = (k, n) ∷ []
add_amount k n ((j, v) ∷ m) = if text_eq j k then (j, v + n) ∷ m else (j, v) ∷ add_amount k n m

-- The sum of all entries.
abbrev pub grand_total : Totals → ℕ
grand_total = sum_of (λ e. e.1)

-- No key stands twice.
abbrev pub Distinct : Totals → Type 0
Distinct [] = Unit
Distinct ((k, v) ∷ m) = (has_key k m ≡ false) × Distinct m

pub value-add_amount :
    (k j : Text) (n : ℕ) (m : Totals)
    → value j (add_amount k n m) ≡ (if text_eq k j then value j m + n else value j m)
unfolding value add_amount
value-add_amount k j n [] = ground arith
value-add_amount k j n ((i, v) ∷ m) =
    ground (arith, value-add_amount k j n m, text_eq_iff k j, text_eq_iff i k, text_eq_iff i j)

pub grand_total-add_amount :
    (k : Text) (n : ℕ) (m : Totals) → grand_total (add_amount k n m) ≡ grand_total m + n
unfolding add_amount
grand_total-add_amount k n [] = omega arith
grand_total-add_amount k n ((i, v) ∷ m) = ground (arith, grand_total-add_amount k n m)

pub has_key-add_amount :
    (k j : Text) (n : ℕ) (m : Totals)
    → has_key j (add_amount k n m) ≡ (if text_eq k j then true else has_key j m)
unfolding has_key add_amount
has_key-add_amount k j n [] = refl
has_key-add_amount k j n ((i, v) ∷ m) =
    ground (arith, has_key-add_amount k j n m, text_eq_iff k j, text_eq_iff i k, text_eq_iff i j)

pub add_amount-Distinct : (k : Text) (n : ℕ) (m : Totals) → Distinct m → Distinct (add_amount k n m)
unfolding add_amount has_key
add_amount-Distinct k n [] d = (refl, tt)
add_amount-Distinct k n ((i, v) ∷ m) d = ground (
  arith,
  add_amount-Distinct k n m d.1,
  has_key-add_amount k i n m,
  text_eq_iff k i,
  text_eq_iff i k,
)

keys_apart : (k : Text) (m : Totals) → has_key k m ≡ false → All (λ e. text_eq k e.0 ≡ false) m
unfolding has_key
keys_apart k [] h = tt
keys_apart k ((j, v) ∷ m) h = ground (arith, keys_apart k m, text_eq_iff j k, text_eq_iff k j)

-- Under each key of a map stands the value that goes with it.
pub All-values : (m : Totals) → Distinct m → All (λ e. value e.0 m ≡ e.1) m
unfolding value
All-values [] d = tt
All-values ((k, v) ∷ m) (new, d) =
    let others = λ (e : Text × ℕ) (p : (text_eq k e.0 ≡ false) × (value e.0 m ≡ e.1)).
      let q : (if text_eq k e.0 then v else value e.0 m) ≡ e.1 = ground arith in q in
    (
      ground (arith, text_eq_refl k),
      All-map others m (All-both _ _ m (keys_apart k m new) (All-values m d)),
    )
