-- ===== src/Amount.antt =====
-- internal/amount/amount.go: `Parse`, which reads a displayed amount in atoms.
pub mod Spaces
pub mod Displays
use qday_pool.Prelude.{
  ℕ, zero, suc, ◌+◌, ◌-◌, ◌*◌, Bool, true, false, not, ◌&&◌, ◌||◌, ◌==◌, Option, none, some, List,
  [], ◌∷◌, ◌++◌, reverse, Text, text_eq, leb, ltb, keep, any, length, replicate, if◌then◌else◌,
}
use qday_pool.Prelude.Int.{ℤ, pos, negsuc}
use qday_pool.Decimal.{is_digit, set_string, decimal}
use qday_pool.Amount.Spaces.{trim_space}

pub data ParseError : Type 0 where
  invalid_unit : ParseError
  not_power_of_ten : ParseError
  not_decimal : ParseError
  not_canonical : ParseError
  invalid_amount : ParseError
  too_precise : ParseError

pub data Parsed : Type 0 where
  parsed : ℕ → Parsed
  failed : ParseError → Parsed

-- `if bad { return nil, e }`
abbrev pub refuse : Bool → ParseError → Parsed → Parsed
refuse bad e rest = if bad then failed e else rest

abbrev pub all_of : (ℕ → Bool) → Text → Bool
all_of p s = not (any (λ c. not (p c)) s)

abbrev pub is_zero_digit : ℕ → Bool
is_zero_digit c = c == b'0'

abbrev pub is_dot : ℕ → Bool
is_dot c = c == b'.'

abbrev pub starts_with : ℕ → Text → Bool
starts_with b [] = false
starts_with b (c ∷ s) = c == b

-- `unitAtomic[1:]`
abbrev pub tail : Text → Text
tail [] = []
tail (c ∷ s) = s

-- `strings.SplitN(display, ".", 2)`: the part in front of the first dot, and the part behind it
-- if there is one.
unfoldable pub split_dot : Text → Text × Option Text
split_dot [] = ([], none)
split_dot (c ∷ s) =
    let rest = split_dot s in if is_dot c then ([], some s) else (c ∷ rest.0, rest.1)

-- The unit, if it is canonical and positive.
unfoldable pub read_unit : Text → Option ℕ
read_unit s = elim (set_string s) [
  | none ↦ none
  | some (negsuc n) ↦ none
  | some (pos n) ↦ if n == 0 then none else if text_eq (decimal n) s then some n else none
]

abbrev pub is_power_of_ten : Text → Bool
is_power_of_ten s = starts_with b'1' s && all_of is_zero_digit (tail s)

-- `display == "" || HasPrefix + || HasPrefix - || Count(".") > 1`
abbrev pub is_malformed : Text → Bool
is_malformed [] = true
is_malformed (c ∷ s) = c == b'+' || c == b'-' || ltb 1 (length (keep is_dot (c ∷ s)))

-- `len(parts[0]) > 1 && parts[0][0] == '0'`
abbrev pub has_leading_zero : Text → Bool
has_leading_zero s = ltb 1 (length s) && starts_with b'0' s

abbrev pub is_blank : Text → Bool
is_blank [] = true
is_blank (c ∷ s) = false

-- `SetString` of text that has no sign.
abbrev pub read_digits : Text → Parsed
read_digits s = elim (set_string s) [
  | none ↦ failed invalid_amount
  | some (negsuc n) ↦ failed invalid_amount
  | some (pos n) ↦ parsed n
]

-- Behind the checks: `whole * unit`, and the fraction where there is one.
unfoldable pub add_fraction : ℕ → ℕ → Option Text → Parsed
add_fraction atoms decimals none = parsed atoms
add_fraction atoms decimals (some fraction) =
    refuse (ltb decimals (length fraction)) too_precise
      (elim (read_digits (fraction ++ replicate (decimals - length fraction) b'0')) [
        | failed e ↦ failed e
        | parsed n ↦ parsed (atoms + n)
      ])

-- The loop over `parts`: an empty part, or a byte that is no digit.
unfoldable pub check_part : Text → Parsed → Parsed
check_part part rest =
    refuse (is_blank part) not_canonical (refuse (not (all_of is_digit part)) not_decimal rest)

unfoldable pub check_parts : Text → Option Text → Parsed → Parsed
check_parts whole none rest = check_part whole rest
check_parts whole (some fraction) rest = check_part whole (check_part fraction rest)

unfoldable pub parse_parts : Text → Option Text → ℕ → ℕ → Parsed
parse_parts whole fraction unit decimals =
    refuse (is_blank whole || has_leading_zero whole) not_canonical (
      check_parts whole fraction (elim (read_digits whole) [
        | failed e ↦ failed e
        | parsed n ↦ add_fraction (n * unit) decimals fraction
      ]))

unfoldable pub parse : Text → Text → Parsed
parse display unit_atomic = elim (read_unit unit_atomic) [
  | none ↦ failed invalid_unit
  | some unit ↦
      let text = trim_space display in
      let parts = split_dot text in
      refuse (not (is_power_of_ten unit_atomic)) not_power_of_ten (
        refuse (is_malformed text) not_decimal
          (parse_parts parts.0 parts.1 unit (length unit_atomic - 1)))
]
