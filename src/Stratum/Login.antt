-- ===== src/Stratum/Login.antt =====
-- The texts of `mining.authorize`: `parseWorkerLogin` and `passwordDifficulty`. The address codec of
-- go.sia.tech/core is not under this repository: `canonical` stands for `ParseQdayAddress`, followed
-- by `String`. `parse_float` stands for `strconv.ParseFloat` with 64 bits.
pub mod Labels
use mathlib.Core.Option
use qday_pool.Prelude.{
  ℕ, suc, ◌+◌, Bool, true, false, not, ◌&&◌, ◌||◌, ◌==◌, Option, none, some, List, [], ◌∷◌, ◌++◌,
  Text, codes, text_eq, leb, ltb, take, drop, length, reverse, if◌then◌else◌,
}
use qday_pool.Amount.Spaces.{trim_space}
use qday_pool.Float.{Float, lt, is_nan, is_inf}
use qday_pool.Stratum.Config.{zero_float}

-- A letter, a digit, a dash or an underscore.
abbrev pub is_label_byte : ℕ → Bool
is_label_byte c =
    (leb b'a' c && leb c b'z')
    || (leb b'A' c && leb c b'Z')
    || (leb b'0' c && leb c b'9')
    || c == b'-'
    || c == b'_'

-- The loop over the runes of the label; a rune of more bytes than one is none of these.
abbrev pub is_label : Text → Bool
is_label [] = true
is_label (c ∷ s) = is_label_byte c && is_label s

-- What stands behind the address: nothing, or a dot and a label.
unfoldable pub worker_of : Text → Option Text
worker_of [] = some (codes "default")
worker_of (c ∷ []) = none
worker_of (c ∷ d ∷ s) =
    if not (c == b'.') then none else if is_label (d ∷ s) then some (d ∷ s) else none

module _ (canonical : Text → Option Text) where
  unfoldable pub is_canonical : Text → Bool
  is_canonical address = elim (canonical address) [ none ↦ false | some s ↦ text_eq s address ]

  -- `parseWorkerLogin`: the address and the worker; `none` is its errors.
  unfoldable pub parse_worker_login : Text → Option (Text × Text)
  parse_worker_login given =
      let value = trim_space given in
      let address = take 64 value in
      if ltb (length value) 64 || ltb 97 (length value)
      then none
      else if not (is_canonical address)
      then none
      else Option.map (λ worker. (address, worker)) (worker_of (drop 64 value))

-- `r == ',' || r == ';' || r == ' '`
abbrev pub is_separator : ℕ → Bool
is_separator c = c == b',' || c == b';' || c == b' '

-- A field that ended, in front of the others.
abbrev pub push_field : Text → List Text → List Text
push_field [] rest = rest
push_field (c ∷ s) rest = reverse (c ∷ s) ∷ rest

-- `strings.FieldsFunc`: the bytes of the field so far are held in reverse.
unfoldable pub fields : Text → Text → List Text
fields [] field = push_field field []
fields (c ∷ s) field = elim (is_separator c) [
  | true ↦ push_field field (fields s [])
  | false ↦ fields s (c ∷ field)
]

-- `strings.Cut(field, "=")`: the parts before and behind the first `=`.
unfoldable pub cut : Text → Option (Text × Text)
cut [] = none
cut (c ∷ s) = elim (c == b'=') [
  | true ↦ some ([], s)
  | false ↦ elim (cut s) [ none ↦ none | some (key, value) ↦ some (c ∷ key, value) ]
]

abbrev pub is_difficulty_key : Text → Bool
is_difficulty_key key =
    text_eq key (codes "d") || text_eq key (codes "diff") || text_eq key (codes "difficulty")

abbrev pub positive_number : Option Float → Option Float
positive_number none = none
positive_number (some d) =
    if lt zero_float d && (not (is_nan d) && not (is_inf d)) then some d else none

module _ (parse_float : Text → Option Float) where
  -- The loop over the fields: the first one with a difficulty's key decides.
  unfoldable pub first_difficulty : List Text → Option Float
  first_difficulty [] = none
  first_difficulty (field ∷ rest) = elim (cut field) [
    | none ↦ first_difficulty rest
    | some (key, value) ↦ elim (is_difficulty_key key) [
      | true ↦ positive_number (parse_float value)
      | false ↦ first_difficulty rest
    ]
  ]

  -- `passwordDifficulty`; `none` is `ok == false`.
  unfoldable pub password_difficulty : Text → Option Float
  password_difficulty password = first_difficulty (fields password [])
