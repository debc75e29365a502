-- ===== src/Amount/Spaces.antt =====
-- Go's `strings.TrimSpace` on the bytes of a UTF-8 string.
use mathlib.Core.List.{reverse-cons, reverse-reverse}
use qday_pool.Prelude.{
  suc, false, ◌&&◌, not, Bool-cases, inl, inr, ◌≡◌, refl, ap, ◌∙◌, All, All-append, arith, Bool, ℕ,
  zero, suc, ◌≡◌, refl, Bool, true, ◌==◌, Option, none, some, List, [], ◌∷◌, map, reverse, Text,
  length, leb, arith, if◌then◌else◌,
}

-- The encodings of the code points that `unicode.IsSpace` accepts.
abbrev pub spaces : List Text
spaces =
    (9 ∷ [])
    ∷ (10 ∷ [])
    ∷ (11 ∷ [])
    ∷ (12 ∷ [])
    ∷ (13 ∷ [])
    ∷ (32 ∷ [])
    ∷ (194 ∷ 133 ∷ [])
    ∷ (194 ∷ 160 ∷ [])
    ∷ (225 ∷ 154 ∷ 128 ∷ [])
    ∷ (226 ∷ 128 ∷ 128 ∷ [])
    ∷ (226 ∷ 128 ∷ 129 ∷ [])
    ∷ (226 ∷ 128 ∷ 130 ∷ [])
    ∷ (226 ∷ 128 ∷ 131 ∷ [])
    ∷ (226 ∷ 128 ∷ 132 ∷ [])
    ∷ (226 ∷ 128 ∷ 133 ∷ [])
    ∷ (226 ∷ 128 ∷ 134 ∷ [])
    ∷ (226 ∷ 128 ∷ 135 ∷ [])
    ∷ (226 ∷ 128 ∷ 136 ∷ [])
    ∷ (226 ∷ 128 ∷ 137 ∷ [])
    ∷ (226 ∷ 128 ∷ 138 ∷ [])
    ∷ (226 ∷ 128 ∷ 168 ∷ [])
    ∷ (226 ∷ 128 ∷ 169 ∷ [])
    ∷ (226 ∷ 128 ∷ 175 ∷ [])
    ∷ (226 ∷ 129 ∷ 159 ∷ [])
    ∷ (227 ∷ 128 ∷ 128 ∷ [])
    ∷ []

-- What is behind the prefix, if the text has it.
unfoldable pub strip : Text → Text → Option Text
strip [] s = some s
strip (p ∷ ps) [] = none
strip (p ∷ ps) (c ∷ s) = let rest = strip ps s in if p == c then rest else none

unfoldable pub strip_any : List Text → Text → Option Text
strip_any [] s = none
strip_any (p ∷ ps) s = elim (strip p s) [ some rest ↦ some rest | none ↦ strip_any ps s ]

-- As long as the text starts with one of the prefixes; a round strips a byte at least, so the
-- text's length is enough rounds.
unfoldable pub trim_left : ℕ → List Text → Text → Text
trim_left zero ps s = s
trim_left (suc fuel) ps s = elim (strip_any ps s) [ none ↦ s | some rest ↦ trim_left fuel ps rest ]

unfoldable pub trim_space : Text → Text
trim_space s =
    let left = trim_left (length s) spaces s in
    reverse (trim_left (length left) (map reverse spaces) (reverse left))

-- A printing byte of ASCII.
abbrev pub is_plain : ℕ → Bool
is_plain c = leb 33 c && leb c 126

trim_space_test :
    trim_space (32 ∷ 194 ∷ 160 ∷ 49 ∷ 32 ∷ 50 ∷ 227 ∷ 128 ∷ 128 ∷ []) ≡ 49 ∷ 32 ∷ 50 ∷ []
unfolding trim_space trim_left strip_any strip
trim_space_test = refl

-- Every one of the prefixes starts with a byte that does not print.
abbrev starts_other : Text → Bool
starts_other [] = false
starts_other (p ∷ ps) = not (is_plain p)

abbrev all_other : List Text → Bool
all_other [] = true
all_other (p ∷ ps) = starts_other p && all_other ps

strip-other :
    (p : Text) (c : ℕ) (s : Text)
    → starts_other p ≡ true
    → is_plain c ≡ true
    → strip p (c ∷ s) ≡ none
unfolding strip
strip-other [] c s h k = cc
strip-other (p ∷ ps) c s h k = elim (Bool-cases (p == c)) [
  | inl same ↦ absurd (ground arith)
  | inr other ↦ rw other refl
]

strip_any-other :
    (ps : List Text) (c : ℕ) (s : Text)
    → all_other ps ≡ true
    → is_plain c ≡ true
    → strip_any ps (c ∷ s) ≡ none
unfolding strip_any
strip_any-other [] c s h k = refl
strip_any-other (p ∷ ps) c s h k = ground (arith, strip-other p c s, strip_any-other ps c s)

abbrev after_strip : ℕ → List Text → Text → Option Text → Text
after_strip fuel ps s o = elim o [ none ↦ s | some rest ↦ trim_left fuel ps rest ]

-- A text that starts with a byte of an amount starts with no such prefix.
kept_start :
    (ps : List Text) (fuel c : ℕ) (s : Text)
    → all_other ps ≡ true
    → is_plain c ≡ true
    → trim_left fuel ps (c ∷ s) ≡ c ∷ s
unfolding trim_left
kept_start ps zero c s h k = refl
kept_start ps (suc fuel) c s h k = ap (after_strip fuel ps (c ∷ s)) (strip_any-other ps c s h k)

abbrev pub IsPlain : Text → Type 0
IsPlain = All (λ c. is_plain c ≡ true)

All-reverse : (s : Text) → IsPlain s → IsPlain (reverse s)
All-reverse [] h = tt
All-reverse (c ∷ s) (p, h) =
    rw (reverse-cons c s)
      (All-append (λ c. is_plain c ≡ true) (reverse s) (c ∷ []) (All-reverse s h) (p, tt))

nothing_stripped : (ps : List Text) → all_other ps ≡ true → strip_any ps [] ≡ none
unfolding strip_any strip
nothing_stripped [] h = refl
nothing_stripped ([] ∷ ps) h = cc
nothing_stripped ((p ∷ q) ∷ ps) h = ground (arith, nothing_stripped ps)

trim_left-plain :
    (ps : List Text) (fuel : ℕ) (s : Text)
    → all_other ps ≡ true
    → IsPlain s
    → trim_left fuel ps s ≡ s
unfolding trim_left
trim_left-plain ps zero s o h = refl
trim_left-plain ps (suc fuel) [] o h = ap (after_strip fuel ps []) (nothing_stripped ps o)
trim_left-plain ps (suc fuel) (c ∷ s) o (p, h) = kept_start ps (suc fuel) c s o p

-- A text of digits and dots has no space to trim.
pub trim_space-plain : (s : Text) → IsPlain s → trim_space s ≡ s
unfolding trim_space
trim_space-plain s h = rw (trim_left-plain spaces (length s) s refl h) (
    ap reverse (trim_left-plain (map reverse spaces) (length s) (reverse s) refl (All-reverse s h))
    ∙ reverse-reverse s)
