-- ===== src/Prelude/Sort.antt =====
-- Go's `sort.Slice`, as an insertion sort by the `less` function that it is given. (Where `less`
-- orders the items strictly, every sort returns this list.)
use mathlib.Core.List.{Perm}
use mathlib.Core.List.Perm
use qday_pool.Prelude.Tests.{if◌then◌else◌, Bool-cases}
use qday_pool.Prelude.Lists.{length, take, All, sum_of}
use Prim.Native.Nat.{ℕ, zero, suc, ◌+◌}
use mathlib.Core.Path.{◌≡◌, refl}
use mathlib.Core.Logic.{inl, inr}
use mathlib.Core.Bool.{Bool, true, false}
use mathlib.Core.List.{List, [], ◌∷◌}
use native.Mathlib.Omega.{arith}

module _ {ℓ} {A : Type ℓ} (less : A → A → Bool) where
  -- In front of the first item that `x` is not behind.
  unfoldable pub insert_sorted : A → List A → List A
  insert_sorted x [] = x ∷ []
  insert_sorted x (y ∷ ys) = if less y x then y ∷ insert_sorted x ys else x ∷ y ∷ ys

  unfoldable pub sort_slice : List A → List A
  sort_slice [] = []
  sort_slice (x ∷ xs) = insert_sorted x (sort_slice xs)

  -- Nothing stands before an item that is less.
  abbrev pub IsSorted : List A → Type 0
  IsSorted [] = Unit
  IsSorted (x ∷ xs) = All (λ y. less y x ≡ false) xs × IsSorted xs

module _ {ℓ} {A : Type ℓ} (less : A → A → Bool) where
  insert_sorted-perm : (x : A) (xs : List A) → Perm (insert_sorted less x xs) (x ∷ xs)
  unfolding insert_sorted
  insert_sorted-perm x [] = Perm.refl (x ∷ [])
  insert_sorted-perm x (y ∷ ys) = elim (Bool-cases (less y x)) [
    | inl e ↦ rw e (Perm.trans (Perm.cons y (insert_sorted-perm x ys)) (Perm.swap x y ys))
    | inr e ↦ rw e (Perm.refl (x ∷ y ∷ ys))
  ]

  pub sort_slice-perm : (xs : List A) → Perm (sort_slice less xs) xs
  unfolding sort_slice
  sort_slice-perm [] = Perm.refl []
  sort_slice-perm (x ∷ xs) =
      Perm.trans (insert_sorted-perm x (sort_slice less xs)) (Perm.cons x (sort_slice-perm xs))

  insert_sorted-All {κ} :
      (P : A → Type κ) (x : A) (xs : List A) → P x → All P xs → All P (insert_sorted less x xs)
  unfolding insert_sorted
  insert_sorted-All P x [] p h = (p, tt)
  insert_sorted-All P x (y ∷ ys) p (q, h) = elim (Bool-cases (less y x)) [
    | inl e ↦ rw e (q, insert_sorted-All P x ys p h)
    | inr e ↦ rw e (p, (q, h))
  ]

  pub sort_slice-All {κ} : (P : A → Type κ) (xs : List A) → All P xs → All P (sort_slice less xs)
  unfolding sort_slice
  sort_slice-All P [] h = tt
  sort_slice-All P (x ∷ xs) (p, h) =
      insert_sorted-All P x (sort_slice less xs) p (sort_slice-All P xs h)

  insert_sorted-sum :
      (f : A → ℕ) (x : A) (xs : List A) → sum_of f (insert_sorted less x xs) ≡ f x + sum_of f xs
  unfolding insert_sorted
  insert_sorted-sum f x [] = refl
  insert_sorted-sum f x (y ∷ ys) = ground (arith, insert_sorted-sum f x ys)

  pub sort_slice-sum : (f : A → ℕ) (xs : List A) → sum_of f (sort_slice less xs) ≡ sum_of f xs
  unfolding sort_slice
  sort_slice-sum f [] = refl
  sort_slice-sum f (x ∷ xs) =
      omega (arith, insert_sorted-sum f x (sort_slice less xs), sort_slice-sum f xs)

  insert_sorted-length : (x : A) (xs : List A) → length (insert_sorted less x xs) ≡ suc (length xs)
  unfolding insert_sorted
  insert_sorted-length x [] = refl
  insert_sorted-length x (y ∷ ys) = ground (arith, insert_sorted-length x ys)

  pub sort_slice-length : (xs : List A) → length (sort_slice less xs) ≡ length xs
  unfolding sort_slice
  sort_slice-length [] = refl
  sort_slice-length (x ∷ xs) =
      omega (arith, insert_sorted-length x (sort_slice less xs), sort_slice-length xs)

-- Every two items are related; sorting keeps that where the relation is symmetric.
abbrev pub Apart {ℓ κ} : {A : Type ℓ} → (A → A → Type κ) → List A → Type κ
Apart R [] = Unit
Apart R (x ∷ xs) = All (R x) xs × Apart R xs

module _ {ℓ κ} {A : Type ℓ} (less : A → A → Bool) (R : A → A → Type κ)
    (symm : (a b : A) → R a b → R b a) where
  insert_sorted-Apart :
      (x : A) (xs : List A) → All (R x) xs → Apart R xs → Apart R (insert_sorted less x xs)
  unfolding insert_sorted
  insert_sorted-Apart x [] h a = (tt, tt)
  insert_sorted-Apart x (y ∷ ys) (p, h) (q, a) = elim (Bool-cases (less y x)) [
    | inl e ↦ rw e (insert_sorted-All less (R y) x ys (symm x y p) q, insert_sorted-Apart x ys h a)
    | inr e ↦ rw e ((p, h), (q, a))
  ]

  pub sort_slice-Apart : (xs : List A) → Apart R xs → Apart R (sort_slice less xs)
  unfolding sort_slice
  sort_slice-Apart [] a = tt
  sort_slice-Apart (x ∷ xs) (h, a) =
      insert_sorted-Apart x (sort_slice less xs) (sort_slice-All less (R x) xs h)
        (sort_slice-Apart xs a)

module _ {ℓ} {A : Type ℓ} where
  pub take-All {κ} : (P : A → Type κ) (n : ℕ) (xs : List A) → All P xs → All P (take n xs)
  take-All P zero xs h = tt
  take-All P (suc n) [] h = tt
  take-All P (suc n) (x ∷ xs) (p, h) = (p, take-All P n xs h)

  pub take-Apart {κ} : (R : A → A → Type κ) (n : ℕ) (xs : List A) → Apart R xs → Apart R (take n xs)
  take-Apart R zero xs a = tt
  take-Apart R (suc n) [] a = tt
  take-Apart R (suc n) (x ∷ xs) (h, a) = (take-All (R x) n xs h, take-Apart R n xs a)

-- Where `less` is asymmetric and its failure is transitive, the result is sorted.
module _ {ℓ} {A : Type ℓ} (less : A → A → Bool)
    (asymm : (a b : A) → less a b ≡ true → less b a ≡ false)
    (cotrans : (a b c : A) → less b a ≡ false → less c b ≡ false → less c a ≡ false) where
  All-behind :
      (x y : A) (ys : List A)
      → less y x ≡ false
      → All (λ z. less z y ≡ false) ys
      → All (λ z. less z x ≡ false) ys
  All-behind x y [] h k = tt
  All-behind x y (z ∷ zs) h (p, k) = (cotrans x y z h p, All-behind x y zs h k)

  insert_sorted-IsSorted :
      (x : A) (xs : List A) → IsSorted less xs → IsSorted less (insert_sorted less x xs)
  unfolding insert_sorted
  insert_sorted-IsSorted x [] s = (tt, tt)
  insert_sorted-IsSorted x (y ∷ ys) (h, s) = elim (Bool-cases (less y x)) [
    | inl e ↦ rw e (
      insert_sorted-All less (λ z. less z y ≡ false) x ys (asymm y x e) h,
      insert_sorted-IsSorted x ys s,
    )
    | inr e ↦ rw e ((e, All-behind x y ys e h), (h, s))
  ]

  pub sort_slice-IsSorted : (xs : List A) → IsSorted less (sort_slice less xs)
  unfolding sort_slice
  sort_slice-IsSorted [] = tt
  sort_slice-IsSorted (x ∷ xs) =
      insert_sorted-IsSorted x (sort_slice less xs) (sort_slice-IsSorted xs)
