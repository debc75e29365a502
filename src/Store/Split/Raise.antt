-- ===== src/Store/Split/Raise.antt =====
-- The round-robin loop, as a function of how many entries it raises.
use qday_pool.Prelude.{
  ℕ, zero, suc, ◌+◌, ◌%◌, ◌≤◌, ◌≡◌, refl, ap, List, [], ◌∷◌, ◌++◌, arith, length, length-append,
}
use mathlib.Core.List.{append_assoc}
use native.Mathlib.Nat.{mod-eq_of_lt}
use qday_pool.Store.Split.{Weighted, add_one_at, hand_out, amounts}

-- The first `k` entries, one atom richer.
unfoldable pub raise : ℕ → List Weighted → List Weighted
raise zero es = es
raise (suc k) [] = []
raise (suc k) (e ∷ es) = record e { amount = e.amount + 1 } ∷ raise k es

add_one_at-append :
    (xs : List Weighted) (e : Weighted) (ys : List Weighted)
    → add_one_at (length xs) (xs ++ e ∷ ys) ≡ xs ++ record e { amount = e.amount + 1 } ∷ ys
unfolding add_one_at
add_one_at-append [] e ys = refl
add_one_at-append (x ∷ xs) e ys = ap (◌∷◌ x) (add_one_at-append xs e ys)

hand_out-append :
    (k : ℕ) (xs ys : List Weighted)
    → k ≤ length ys
    → hand_out k (length xs) (xs ++ ys) ≡ xs ++ raise k ys
unfolding hand_out raise
hand_out-append zero xs ys h = refl
hand_out-append (suc k) xs [] h = absurd (omega arith)
hand_out-append (suc k) xs (e ∷ ys) h =
    let e' : Weighted = record e { amount = e.amount + 1 } in
    let at : length xs % length (xs ++ e ∷ ys) ≡ length xs =
      mod-eq_of_lt (omega (arith, length-append xs (e ∷ ys))) in
    let long : length (xs ++ e' ∷ []) ≡ suc (length xs) =
      omega (arith, length-append xs (e' ∷ [])) in
    let ih = hand_out-append k (xs ++ e' ∷ []) ys (omega arith) in
    rw (at, add_one_at-append xs e ys) (simp (long, append_assoc) at ih)

-- While the atoms left are no more than the entries, the index never wraps around.
pub hand_out-raise : (k : ℕ) (es : List Weighted) → k ≤ length es → hand_out k 0 es ≡ raise k es
hand_out-raise k es h = hand_out-append k [] es h

pub amounts-raise :
    (k : ℕ) (es : List Weighted) → k ≤ length es → amounts (raise k es) ≡ amounts es + k
unfolding raise
amounts-raise zero es h = omega arith
amounts-raise (suc k) [] h = absurd (omega arith)
amounts-raise (suc k) (e ∷ es) h = omega (arith, amounts-raise k es)
