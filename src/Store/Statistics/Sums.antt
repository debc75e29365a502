-- ===== src/Store/Statistics/Sums.antt =====
-- What the statistics count of the shares' work.
use qday_pool.Prelude.{
  ℕ, suc, ◌+◌, ◌≡◌, Option, List, [], ◌∷◌, Text, arith, sum_of, length, keep, inl, inr,
}
use qday_pool.Prelude.Int.{ltb_ℤ}
use qday_pool.Store.Tables.{Time, ShareRow, Tables}
use qday_pool.Store.Totals.{parse_big, atoms}
use qday_pool.Store.Window.Credit.{total_work}
use qday_pool.Store.Sql.{ok, Db, sql, lift, ◌>>=◌, >>=-eq-ok, sql-eq-ok, Result-cases}
use qday_pool.Store.Statistics.{
  Tally, tally_share, tally_rows, Summary, summarize, is_since, share_summary, max_found, since_of,
  sum_work, round_work, insert_key, worker_key,
}

summarize-sums :
    (rows : List ShareRow) (work shares : ℕ) (workers addresses : List Text) (s : Summary)
    → summarize rows work shares workers addresses ≡ ok s
    → (s.work ≡ work + total_work rows) × (s.shares ≡ shares + length rows)
unfolding summarize atoms
summarize-sums [] work shares workers addresses s h = ground arith
summarize-sums (row ∷ rows) work shares workers addresses s h =
    elim (Result-cases (parse_big row.work)) [
      | inr (e, bad) ↦ absurd (ground arith)
      | inl (n, good) ↦ ground (
        arith,
        good,
        summarize-sums rows (work + n) (suc shares) (insert_key (worker_key row) workers)
            (insert_key row.address addresses) s,
      )
    ]

sum_work-total :
    (rows : List ShareRow) (total n : ℕ) → sum_work rows total ≡ ok n → n ≡ total + total_work rows
unfolding sum_work atoms
sum_work-total [] total n h = ground arith
sum_work-total (row ∷ rows) total n h = elim (Result-cases (parse_big row.work)) [
  | inr (e, bad) ↦ absurd (ground arith)
  | inl (k, good) ↦ ground (arith, good, sum_work-total rows (total + k) n)
]

-- A summary that is returned is the work and the number of the shares since the given time, and
-- the tables are as they were.
pub share_summary-sums :
    (since : Time) (db db' : Db) (s : Summary)
    → share_summary since db ≡ (ok s, db')
    → (s.work ≡ total_work (keep (is_since since) db.tables.shares))
      × (s.shares ≡ length (keep (is_since since) db.tables.shares))
      × (db'.tables ≡ db.tables)
unfolding share_summary
share_summary-sums since db db' s h =
    let query =
      λ (t : Tables). let x : List ShareRow × Tables = (keep (is_since since) t.shares, t) in x in
    let (rows, db₁, e₁, h₁) =
      >>=-eq-ok (sql query) (λ rows. lift (summarize rows 0 0 [] [])) db h in
    ground (arith, sql-eq-ok query db e₁, summarize-sums rows 0 0 [] [] s)

-- The round's work that is returned is the work of the shares that came after the newest block
-- was found, or of all shares after 1970 where there is no block.
pub round_work-total :
    (db db' : Db) (n : ℕ)
    → round_work db ≡ (ok n, db')
    → n
      ≡ total_work (
          keep
            (λ row. ltb_ℤ (since_of (max_found db.tables.blocks)) row.created_at)
            db.tables.shares)
unfolding round_work
round_work-total db db' n h =
    let find = λ (t : Tables). let x : Option Time × Tables = (max_found t.blocks, t) in x in
    let query = λ (found : Option Time) (t : Tables).
      let x : List ShareRow × Tables =
        (keep (λ row. ltb_ℤ (since_of found) row.created_at) t.shares, t) in
      x in
    let (found, db₁, e₁, h₁) =
      >>=-eq-ok (sql find) (λ found. sql (query found) >>= (λ rows. lift (sum_work rows 0))) db h in
    let (rows, db₂, e₂, h₂) =
      >>=-eq-ok (sql (query found)) (λ rows. lift (sum_work rows 0)) db₁ h₁ in
    ground (arith, sql-eq-ok find db e₁, sql-eq-ok (query found) db₁ e₂, sum_work-total rows 0 n)

-- The tallies of the miners.
abbrev pub tally_work : List Tally → ℕ
tally_work = sum_of (λ e. e.work)

abbrev pub tally_shares : List Tally → ℕ
tally_shares = sum_of (λ e. e.shares)

tally_share-sums :
    (row : ShareRow) (w : ℕ) (es : List Tally)
    → (tally_work (tally_share row w es) ≡ tally_work es + w)
      × (tally_shares (tally_share row w es) ≡ suc (tally_shares es))
unfolding tally_share
tally_share-sums row w [] = ground arith
tally_share-sums row w (e ∷ es) = ground (arith, tally_share-sums row w es)

-- No share is lost and none counts for two miners: the tallies of some rows have together the
-- rows' work, and as many shares as there are rows.
pub tally_rows-sums :
    (rows : List ShareRow) (es es' : List Tally)
    → tally_rows rows es ≡ ok es'
    → (tally_work es' ≡ tally_work es + total_work rows)
      × (tally_shares es' ≡ tally_shares es + length rows)
unfolding tally_rows atoms
tally_rows-sums [] es es' h = ground arith
tally_rows-sums (row ∷ rows) es es' h = elim (Result-cases (parse_big row.work)) [
  | inr (e, bad) ↦ absurd (ground arith)
  | inl (k, good) ↦
      ground
        (arith, good, tally_share-sums row k es, tally_rows-sums rows (tally_share row k es) es')
]
