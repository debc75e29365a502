-- ===== src/Stratum/Bytes/Laws.antt =====
-- Bytes and the numbers that they stand for.
use native.Mathlib.Nat.{mul_assoc, pow-succ'}
use native.Mathlib.Numerals.{unary_clauses}
use qday_pool.Prelude.{
  ℕ, zero, suc, ◌+◌, ◌*◌, ◌/◌, ◌%◌, ◌^◌, ◌<◌, ◌≡◌, refl, ap, sym, ◌∙◌, [], ◌∷◌, leb, arith, All,
  All-append, length, length-append, ◌++◌,
}
use qday_pool.Stratum.Bytes.{Bytes, big_endian, bytes_le, put_big_endian}

abbrev pub IsBytes : Bytes → Type 0
IsBytes = All (λ b. b < 256)

-- As many bytes, read from the front, compare as the numbers do.
big_endian-lt :
    (xs ys : Bytes) (m n : ℕ)
    → IsBytes xs
    → IsBytes ys
    → length xs ≡ length ys
    → m < n
    → big_endian xs m < big_endian ys n
unfolding big_endian
big_endian-lt [] [] m n p q l h = h
big_endian-lt [] (b ∷ ys) m n p q l h = absurd (omega arith)
big_endian-lt (a ∷ xs) [] m n p q l h = absurd (omega arith)
big_endian-lt (a ∷ xs) (b ∷ ys) m n (p, ps) (q, qs) l h =
    big_endian-lt xs ys (m * 256 + a) (n * 256 + b) ps qs (omega arith) (omega arith)

pub bytes_le-big_endian :
    (xs ys : Bytes) (n : ℕ)
    → IsBytes xs
    → IsBytes ys
    → length xs ≡ length ys
    → bytes_le xs ys ≡ leb (big_endian xs n) (big_endian ys n)
unfolding big_endian bytes_le
bytes_le-big_endian [] [] n p q l = ground arith
bytes_le-big_endian [] (b ∷ ys) n p q l = absurd (omega arith)
bytes_le-big_endian (a ∷ xs) [] n p q l = absurd (omega arith)
bytes_le-big_endian (a ∷ xs) (b ∷ ys) n (p, ps) (q, qs) l = ground (
  arith,
  bytes_le-big_endian xs ys (n * 256 + a) ps qs (omega arith),
  big_endian-lt xs ys (n * 256 + a) (n * 256 + b) ps qs (omega arith),
  big_endian-lt ys xs (n * 256 + b) (n * 256 + a) qs ps (omega arith),
)

regroup_product : (k p q : ℕ) → p ≡ 256 * q → k * p ≡ k * 256 * q
regroup_product k p q e = ap (λ n. k * n) e ∙ sym (mul_assoc k 256 q)

pub big_endian-bounded :
    (xs : Bytes) (n k : ℕ) → IsBytes xs → n < k → big_endian xs n < k * 256 ^ length xs
unfolding big_endian
big_endian-bounded [] n k p h = omega arith
big_endian-bounded (a ∷ xs) n k (p, ps) h =
    let ih = big_endian-bounded xs (n * 256 + a) (k * 256) ps (omega arith) in
    let power : 256 ^ suc (length xs) ≡ 256 * 256 ^ length xs = pow-succ' 256 (length xs) in
    let regroup : k * 256 ^ suc (length xs) ≡ k * 256 * 256 ^ length xs =
      regroup_product k (256 ^ suc (length xs)) (256 ^ length xs) power in
    omega (arith, ih, regroup)

big_endian-append : (xs : Bytes) (b n : ℕ) → big_endian (xs ++ b ∷ []) n ≡ big_endian xs n * 256 + b
unfolding big_endian
big_endian-append [] b n = refl
big_endian-append (x ∷ xs) b n = big_endian-append xs b (n * 256 + x)

-- A number that fits into `n` bytes is read back from its `n` big-endian bytes.
pub big_endian-put : (n value : ℕ) → value < 256 ^ n → big_endian (put_big_endian n value) 0 ≡ value
unfolding put_big_endian
big_endian-put zero value h = unfold big_endian in omega arith
big_endian-put (suc n) value h =
    let split = simp unary_clauses at h in
    let less : value / 256 < 256 ^ n = omega (arith, split) in
    omega (
      arith,
      big_endian-append (put_big_endian n (value / 256)) (value % 256) 0,
      big_endian-put n (value / 256) less,
    )

pub put_big_endian-IsBytes : (n value : ℕ) → IsBytes (put_big_endian n value)
unfolding put_big_endian
put_big_endian-IsBytes zero value = tt
put_big_endian-IsBytes (suc n) value =
    All-append (λ b. b < 256) (put_big_endian n (value / 256)) (value % 256 ∷ [])
      (put_big_endian-IsBytes n (value / 256)) (omega arith, tt)

pub length-put_big_endian : (n value : ℕ) → length (put_big_endian n value) ≡ n
unfolding put_big_endian
length-put_big_endian zero value = refl
length-put_big_endian (suc n) value = omega (
  arith,
  length-append (put_big_endian n (value / 256)) (value % 256 ∷ []),
  length-put_big_endian n (value / 256),
)
