-- ===== src/Stratum/Bytes.antt =====
-- What the stratum code uses of Go's encoding/hex, encoding/binary, bytes and big.Int.SetBytes,
-- on lists of bytes.
pub mod Laws
use qday_pool.Prelude.{
  ℕ, zero, suc, ◌+◌, ◌-◌, ◌*◌, ◌/◌, ◌%◌, Bool, true, false, ◌&&◌, ◌||◌, ◌==◌, Option, none, some,
  List, [], ◌∷◌, ◌++◌, Text, leb, ltb, if◌then◌else◌,
}

abbrev pub Bytes : Type 0
Bytes = List ℕ

-- A hexadecimal digit, of either case.
abbrev pub hex_value : ℕ → Option ℕ
hex_value c =
    if leb b'0' c && leb c b'9'
    then some (c - b'0')
    else if leb b'a' c && leb c b'f'
    then some (c - b'a' + 10)
    else if leb b'A' c && leb c b'F'
    then some (c - b'A' + 10)
    else none

abbrev pub pair_of : Option ℕ → Option ℕ → Option Bytes → Option Bytes
pair_of (some h) (some l) (some rest) = some ((h * 16 + l) ∷ rest)
pair_of _ _ _ = none

-- `hex.DecodeString`: `none` is its error.
unfoldable pub hex_decode : Text → Option Bytes
hex_decode [] = some []
hex_decode (h ∷ []) = none
hex_decode (h ∷ l ∷ s) = let rest = hex_decode s in pair_of (hex_value h) (hex_value l) rest

-- `binary.LittleEndian.Uint64` of all bytes.
unfoldable pub little_endian : Bytes → ℕ
little_endian [] = 0
little_endian (b ∷ bs) = b + 256 * little_endian bs

-- `binary.LittleEndian.PutUint64`, into `n` bytes.
unfoldable pub put_little_endian : ℕ → ℕ → Bytes
put_little_endian zero value = []
put_little_endian (suc n) value = (value % 256) ∷ put_little_endian n (value / 256)

-- `new(big.Int).SetBytes`, behind `n`.
unfoldable pub big_endian : Bytes → ℕ → ℕ
big_endian [] n = n
big_endian (b ∷ bs) n = big_endian bs (n * 256 + b)

-- `bytes.Compare(a, b) <= 0`
unfoldable pub bytes_le : Bytes → Bytes → Bool
bytes_le [] bs = true
bytes_le (a ∷ xs) [] = false
bytes_le (a ∷ xs) (b ∷ bs) = let rest = bytes_le xs bs in if a == b then rest else ltb a b

-- The last `n` bytes of a number, most significant first: `Bytes()`, copied to the end of an array.
unfoldable pub put_big_endian : ℕ → ℕ → Bytes
put_big_endian zero value = []
put_big_endian (suc n) value = put_big_endian n (value / 256) ++ value % 256 ∷ []
