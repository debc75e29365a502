-- ===== src/Store/Balances/Sums.antt =====
-- What `balances` computes: for each address the sum over the rows that count for it.
use mathlib.Core.Path.{subst}
use qday_pool.Prelude.{
  ℕ, ◌+◌, ◌≡◌, Bool, true, false, Option, none, some, List, [], ◌∷◌, Text, text_eq, arith, inl, inr,
  sum_of, if◌then◌else◌,
}
use qday_pool.Store.Tables.{
  BlockRow, AllocationRow, PayoutRow, ItemRow, Tables, BlockStatus, PayoutStatus,
}
use qday_pool.Store.Totals.{
  Totals, add_amount, parse_big, value, Distinct, atoms, value-add_amount, add_amount-Distinct,
}
use qday_pool.Store.Balances.{
  Balances, block_status, payout_status, credit_rows, reserve_rows, balances,
}
use qday_pool.Store.Sql.{ok, Db, sql, Result-cases}

abbrev pub is_mature : Option BlockStatus → Bool
is_mature none = false
is_mature (some BlockStatus.mature) = true
is_mature (some BlockStatus.pending) = false
is_mature (some BlockStatus.orphan) = false

abbrev pub is_listed : Option PayoutStatus → Bool
is_listed none = false
is_listed (some s) = true

-- What an allocation adds to the mature credit of `a`.
abbrev pub mature_part : Text → List BlockRow → AllocationRow → ℕ
mature_part a blocks row =
    if is_mature (block_status blocks row.block_id)
    then (if text_eq row.address a then atoms row.amount_atomic else 0)
    else 0

-- What an item takes from it.
abbrev pub reserved_part : Text → List PayoutRow → ItemRow → ℕ
reserved_part a payouts row =
    if is_listed (payout_status payouts row.payout_id)
    then (if text_eq row.address a then atoms row.amount_atomic else 0)
    else 0

-- The mature credit of `a`, and what batches have reserved of it.
abbrev pub mature_for : Text → Tables → ℕ
mature_for a t = sum_of (mature_part a t.blocks) t.allocations

abbrev pub reserved_for : Text → Tables → ℕ
reserved_for a t = sum_of (reserved_part a t.payouts) t.items

credit_rows-value :
    (a : Text) (blocks : List BlockRow) (rows : List AllocationRow) (m p : Totals)
    (r : Totals × Totals)
    → credit_rows blocks rows m p ≡ ok r
    → value a r.0 ≡ value a m + sum_of (mature_part a blocks) rows
unfolding credit_rows atoms
credit_rows-value a blocks [] m p r h = ground arith
credit_rows-value a blocks (row ∷ rows) m p r h =
    elim (Result-cases (parse_big row.amount_atomic)) [
      | inr (e, bad) ↦ ground (arith, credit_rows-value a blocks rows m p r)
      | inl (n, good) ↦ ground (
        arith,
        credit_rows-value a blocks rows m p r,
        credit_rows-value a blocks rows (add_amount row.address n m) p r,
        credit_rows-value a blocks rows m (add_amount row.address n p) r,
        value-add_amount row.address a n m,
      )
    ]

credit_rows-Distinct :
    (blocks : List BlockRow) (rows : List AllocationRow) (m p : Totals) (r : Totals × Totals)
    → credit_rows blocks rows m p ≡ ok r
    → Distinct m
    → Distinct r.0
unfolding credit_rows
credit_rows-Distinct blocks [] m p r h d = let e : m ≡ r.0 = ground arith in subst Distinct e d
credit_rows-Distinct blocks (row ∷ rows) m p r h d =
    elim (Result-cases (parse_big row.amount_atomic)) [
      | inr (e, bad) ↦ ground (arith, credit_rows-Distinct blocks rows m p r)
      | inl (n, good) ↦ ground (
        arith,
        credit_rows-Distinct blocks rows m p r,
        credit_rows-Distinct blocks rows (add_amount row.address n m) p r,
        credit_rows-Distinct blocks rows m (add_amount row.address n p) r,
        add_amount-Distinct row.address n m d,
      )
    ]

reserve_rows-value :
    (a : Text) (payouts : List PayoutRow) (rows : List ItemRow) (m p : Totals) (r : Totals × Totals)
    → reserve_rows payouts rows m p ≡ ok r
    → value a r.0 ≡ value a m + sum_of (reserved_part a payouts) rows
unfolding reserve_rows atoms
reserve_rows-value a payouts [] m p r h = ground arith
reserve_rows-value a payouts (row ∷ rows) m p r h =
    elim (Result-cases (parse_big row.amount_atomic)) [
      | inr (e, bad) ↦ ground (arith, reserve_rows-value a payouts rows m p r)
      | inl (n, good) ↦
          let m' = add_amount row.address n m in
          ground (
            arith,
            reserve_rows-value a payouts rows m p r,
            reserve_rows-value a payouts rows m' p r,
            reserve_rows-value a payouts rows m' (add_amount row.address n p) r,
            value-add_amount row.address a n m,
          )
    ]

-- The four maps, read from the tables as they are.
pub record Read (t : Tables) (b : Balances) : Type 0 where
  pub mature_read : (a : Text) → value a b.mature ≡ mature_for a t
  pub reserved_read : (a : Text) → value a b.reserved ≡ reserved_for a t
  pub mature_distinct : Distinct b.mature

pub balances-Read :
    (db db' : Db) (b : Balances)
    → balances db ≡ (ok b, db')
    → Read db.tables b × (db'.tables ≡ db.tables)
unfolding balances value sql
balances-Read db db' b h =
    let t = db.tables in
    elim (Result-cases (credit_rows t.blocks t.allocations [] [])) [
      | inr (e, bad) ↦ absurd (ground arith)
      | inl (c, p) ↦ elim (Result-cases (reserve_rows t.payouts t.items [] [])) [
        | inr (e, bad) ↦ absurd (ground arith)
        | inl (r, q) ↦
            let parts : (b.mature ≡ c.0) × (b.reserved ≡ r.0) × (db'.tables ≡ t) = ground arith in
            (
              record {
                mature_read = λ a.
                    ground (arith, parts.0, credit_rows-value a t.blocks t.allocations [] [] c p);
                reserved_read =
                    λ a. ground (arith, parts.1, reserve_rows-value a t.payouts t.items [] [] r q);
                mature_distinct =
                    rw parts.0 (credit_rows-Distinct t.blocks t.allocations [] [] c p tt);
              },
              parts.2,
            )
      ]
    ]
