-- ===== src/Controller/Payouts.antt =====
-- The invariant of the database under a round of `processPayouts`.
use qday_pool.Prelude.{
  reverse, take, keep, length, ℕ, ◌≡◌, refl, ap, sym, ◌∙◌, ◌||◌, List, [], ◌∷◌, arith,
}
use qday_pool.Prelude.Int.{ℤ, pos, pos_part, ltb_ℤ}
use qday_pool.Store.Tables.{PayoutRow, Tables}
use qday_pool.Store.Sql.{
  Result, ok, err, Db, invalid_page, sql, fail_if, ◌>>=◌, pure, >>=-after, sql-eq-ok, sql-eq-err,
}
use qday_pool.Store.Payouts.{PayoutItem, Payout}
use qday_pool.Store.PayoutStates.{
  active_payouts, active_columns, is_active, payout_items, with_items,
}
use qday_pool.Store.Ledger.{Ledger}

payout_items-same : (id : ℕ) (db : Db) → (payout_items id db).1.tables ≡ db.tables
unfolding payout_items sql
payout_items-same id db = ground arith

-- Where a call has left the tables alone, so has what it returned.
pub left_alone :
    {A : Type 0} (call : Result A × Db) (r : Result A) (db' : Db) (t : Tables)
    → call ≡ (r, db')
    → call.1.tables ≡ t
    → db'.tables ≡ t
left_alone {A} call r db' t e same = sym (ap (λ (c : Result A × Db). c.1.tables) e) ∙ same

pub with_items-same : (ps : List PayoutRow) (db : Db) → (with_items ps db).1.tables ≡ db.tables
unfolding with_items
with_items-same [] db = refl
with_items-same (p ∷ ps) db =
    let line = λ (items : List PayoutItem) (rest : List Payout).
      let x : List Payout =
        (record { row = active_columns p; items = items; outputs = length items }) ∷ rest in
      x in
    >>=-after (λ t. t ≡ db.tables) (payout_items p.id)
      (λ items. with_items ps >>= (λ rest. pure (line items rest))) db
      (λ e db₁ bad.
        left_alone (payout_items p.id db) (err e) db₁ db.tables bad (payout_items-same p.id db))
      λ items db₁ good.
        let before =
          left_alone (payout_items p.id db) (ok items) db₁ db.tables good
            (payout_items-same p.id db) in
        let rest_same = with_items-same ps db₁ ∙ before in
        >>=-after (λ t. t ≡ db.tables) (with_items ps) (λ rest. pure (line items rest)) db₁
          (λ e db₂ bad. left_alone (with_items ps db₁) (err e) db₂ db.tables bad rest_same)
          (λ rest db₂ done. left_alone (with_items ps db₁) (ok rest) db₂ db.tables done rest_same)

pub active_payouts-same : (limit : ℤ) (db : Db) → (active_payouts limit db).1.tables ≡ db.tables
unfolding active_payouts
active_payouts-same limit db =
    let Same = λ (t : Tables). t ≡ db.tables in
    let query = λ (t : Tables).
      let x : List PayoutRow × Tables =
        (take (pos_part limit) (reverse (keep (λ p. is_active p.status) t.payouts)), t) in
      x in
    let bad = ltb_ℤ limit (pos 1) || ltb_ℤ (pos 100) limit in
    let read = λ (_ : Unit {0}). sql query >>= with_items in
    >>=-after Same (fail_if bad invalid_page) read db
      (λ e db₁ refusal. left_alone (fail_if bad invalid_page db) (err e) db₁ db.tables refusal refl)
      λ _ db₁ passed.
        let before = left_alone (fail_if bad invalid_page db) (ok tt) db₁ db.tables passed refl in
        >>=-after Same (sql query) with_items db₁
          (λ e db₂ failed. sql-eq-err query db₁ failed ∙ before)
          λ rows db₂ good. with_items-same rows db₂ ∙ (sql-eq-ok query db₁ good).1 ∙ before
