-- ===== src/Store/PayoutStates/Accounts.antt =====
-- The balances that the site shows.
use qday_pool.Prelude.{ℕ, ◌-◌, ◌≤◌, ◌≡◌, refl, ap, List, Text, text_eq, arith, keep, length}
use qday_pool.Prelude.Int.{pos, sub_ℕ}
use qday_pool.Decimal.{decimal, to_string}
use qday_pool.Store.Tables.{ShareRow, Tables}
use qday_pool.Store.Sql.{Result, ok, Db, M, sql, tick, pure, ◌>>=◌, >>=-eq-ok, sql-eq-ok, tx-eq-ok}
use qday_pool.Store.Balances.{Balances, balances}
use qday_pool.Store.Balances.Sums.{mature_for, reserved_for, Read, balances-Read}
use qday_pool.Store.PayoutStates.{AddressAccount, account_of, account}

sub_ℕ_le : (m n : ℕ) → n ≤ m → sub_ℕ m n ≡ pos (m - n)
sub_ℕ_le m n h = ground arith

to_string_pos : (n : ℕ) → to_string (pos n) ≡ decimal n
unfolding to_string
to_string_pos n = refl

abbrev own : Text → Tables → List ShareRow × Tables
own address t = (keep (λ row. text_eq row.address address) t.shares, t)

abbrev answer : Text → Balances → M AddressAccount
answer address b = sql (own address) >>= (λ rows. pure (account_of address b rows))

account_in_tx :
    (address : Text) (db db' : Db) (a : AddressAccount)
    → (balances >>= answer address) db ≡ (ok a, db')
    → (b : Balances) × (Read db.tables b
        × (a ≡ account_of address b (keep (λ row. text_eq row.address address) db.tables.shares)))
account_in_tx address db db' a h =
    let (b, db₁, e₁, h₁) = >>=-eq-ok balances (answer address) db h in
    let (r, same) = balances-Read db db₁ b e₁ in
    let (rows, db₂, e₂, h₂) =
      >>=-eq-ok (sql (own address)) (λ rows. pure (account_of address b rows)) db₁ h₁ in
    (b, (r, ground (arith, sql-eq-ok (own address) db₁ e₂, same)))

-- Where `Account` returns, and the address's reservations are within its mature credit: the mature
-- amount is that credit, the balance is what is left of it, with no sign, and the shares are those
-- of the address.
pub account-balance :
    (address : Text) (db db' : Db) (a : AddressAccount)
    → reserved_for address db.tables ≤ mature_for address db.tables
    → account address db ≡ (ok a, db')
    → (a.mature_atomic ≡ decimal (mature_for address db.tables))
      × (a.balance_atomic ≡ decimal (mature_for address db.tables - reserved_for address db.tables))
      × (a.shares ≡ length (keep (λ row. text_eq row.address address) db.tables.shares))
unfolding account
account-balance address db db' a le h =
    let body = balances >>= answer address in
    let (same, _) = tx-eq-ok body db h in
    let (b, (r, e)) =
      account_in_tx address (tick db) (body (tick db)).1 a
        (ap (λ x. let y : Result AddressAccount × Db = (x, (body (tick db)).1) in y) same) in
    let m = r.mature_read address in
    let used = r.reserved_read address in
    (rw (e, m) refl, rw (e, m, used, sub_ℕ_le _ _ le) (to_string_pos _), rw e refl)
