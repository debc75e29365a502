-- ===== src/Store/Allocate/Commits.antt =====
-- What a call of `AllocateBlock` has done when it returns.
use qday_pool.Prelude.{
  Bool, ℕ, ◌-◌, ◌<◌, ◌≡◌, ap, Option, List, [], ◌∷◌, Text, map, arith, false, inl, inr, ◌==◌,
}
use qday_pool.Prelude.Int.{ℤ}
use qday_pool.Store.Tables.{AllocationRow, ShareRow, Tables}
use qday_pool.Store.Totals.{Totals, parse_big}
use qday_pool.Store.Window.{select_window}
use qday_pool.Store.Split.{Weighted, split_reward}
use qday_pool.Store.Shares.{magnitude_of}
use qday_pool.Store.Shares.Prune.{upto}
use qday_pool.Store.Sql.{
  Result, ok, err, Error, Db, tick, sql, lift, fail_if, pure, ◌>>=◌, ◌>>◌, tx, >>=-eq-ok, sql-eq-ok,
  tx-eq-ok, tx-eq-err, Result-cases, no_accepted_shares, already_allocated,
}
use qday_pool.Store.Allocate.{
  FoundBlock, Allocation, distributable, positive_reward, block_row, has_block, insert_block,
  allocation_row, insert_allocation, insert_allocations, allocation, write_block, allocate_in_tx,
  allocate_block,
}

-- A call of `AllocateBlock` that fails, at whatever statement or check, changes no table.
pub allocate_block_atomic :
    (block : FoundBlock) (window : Option ℤ) (bps : ℕ) (db db' : Db) (e : Error)
    → allocate_block block window bps db ≡ (err e, db')
    → db'.tables ≡ db.tables
unfolding allocate_block
allocate_block_atomic block window bps db db' e h =
    elim (Result-cases (positive_reward block.reward_atomic)) [
      | inr (e₁, bad) ↦ ground arith
      | inl (r, p) ↦ elim (Result-cases (parse_big block.fees_atomic)) [
        | inr (e₂, bad) ↦ ground arith
        | inl (f, q) ↦ ground (
          arith,
          tx-eq-err (allocate_in_tx block (magnitude_of window) bps r f) db {e = e} {db' = db'},
        )
      ]
    ]

-- The rows in the order that the loop leaves them in.
unfoldable pub push_rows : Text → List Weighted → List AllocationRow → List AllocationRow
push_rows id [] rows = rows
push_rows id (e ∷ es) rows = push_rows id es (allocation_row id e ∷ rows)

insert_allocations-eq-ok :
    (id : Text) (es : List Weighted) (db db' : Db)
    → insert_allocations id es db ≡ (ok tt, db')
    → db'.tables ≡ record db.tables { allocations = push_rows id es db.tables.allocations }
unfolding insert_allocations push_rows insert_allocation
insert_allocations-eq-ok id [] db db' h = ground arith
insert_allocations-eq-ok id (e ∷ es) db db' h =
    let (u, db₁, e₁, rest) =
      >>=-eq-ok (sql (insert_allocation id e)) (λ r. lift r >> insert_allocations id es) db h in
    let (v, db₂, e₂, tail) = >>=-eq-ok (lift u) (λ _. insert_allocations id es) db₁ rest in
    ground
      (arith, sql-eq-ok (insert_allocation id e) db e₁, insert_allocations-eq-ok id es db₂ db' tail)

-- What a successful call has found and written.
pub record Allocated (block : FoundBlock) (window bps : ℕ) (t t' : Tables)
    (allocations : List Allocation) : Type 0 where
  pub reward : ℕ
  pub fees : ℕ
  pub grouped : Totals
  pub selected : ℕ
  pub reward_read : positive_reward block.reward_atomic ≡ ok reward
  pub fees_read : parse_big block.fees_atomic ≡ ok fees
  pub windowed :
      select_window window (upto block.cutoff_share_id t.shares) [] 0 ≡ ok (grouped, selected)
  pub some_work : 0 < selected
  pub fresh : has_block block.id t.blocks ≡ false
  pub returned :
      allocations ≡ map allocation (split_reward (distributable reward bps) selected grouped)
  pub written : t' ≡ record t {
    blocks =
        block_row block reward fees (reward - distributable reward bps) window selected ∷ t.blocks;
    allocations =
        push_rows block.id (split_reward (distributable reward bps) selected grouped) t.allocations;
  }

write_block-eq-ok :
    (block : FoundBlock) (window bps reward fees : ℕ) (g : Totals) (s : ℕ) (db db' : Db)
    (allocations : List Allocation)
    → write_block block window bps reward fees g s db ≡ (ok allocations, db')
    → let pay = distributable reward bps in
      let weighted = split_reward pay s g in
      (0 < s)
      × (has_block block.id db.tables.blocks ≡ false)
      × (allocations ≡ map allocation weighted)
      × (db'.tables ≡ record db.tables {
        blocks = block_row block reward fees (reward - pay) window s ∷ db.tables.blocks;
        allocations = push_rows block.id weighted db.tables.allocations;
      })
unfolding write_block insert_block
write_block-eq-ok block window bps reward fees g s db db' allocations h =
    let pay = distributable reward bps in
    let weighted = split_reward pay s g in
    let row = block_row block reward fees (reward - pay) window s in
    let finish = λ (_ : Unit {0}). pure (map allocation weighted) in
    let fill = λ (_ : Unit {0}). insert_allocations block.id weighted >>= finish in
    let (u₀, db₀, e₀, h₀) =
      >>=-eq-ok (fail_if (s == 0) no_accepted_shares)
        (λ _. sql (insert_block row) >>= (λ r. lift r >>= fill)) db h in
    let (u₁, db₁, e₁, h₁) = >>=-eq-ok (sql (insert_block row)) (λ r. lift r >>= fill) db₀ h₀ in
    let (u₂, db₂, e₂, h₂) = >>=-eq-ok (lift u₁) fill db₁ h₁ in
    let (u₃, db₃, e₃, h₃) = >>=-eq-ok (insert_allocations block.id weighted) finish db₂ h₂ in
    ground (
      arith,
      sql-eq-ok (insert_block row) db₀ e₁,
      insert_allocations-eq-ok block.id weighted db₂ db₃ e₃,
    )

allocate_in_tx-eq-ok :
    (block : FoundBlock) (window bps reward fees : ℕ) (db db' : Db) (allocations : List Allocation)
    → allocate_in_tx block window bps reward fees db ≡ (ok allocations, db')
    → positive_reward block.reward_atomic ≡ ok reward
    → parse_big block.fees_atomic ≡ ok fees
    → Allocated block window bps db.tables db'.tables allocations
unfolding allocate_in_tx
allocate_in_tx-eq-ok block window bps reward fees db db' allocations h p q =
    let write = λ (r : Totals × ℕ). write_block block window bps reward fees r.0 r.1 in
    let pick = λ (rows : List ShareRow). lift (select_window window rows [] 0) >>= write in
    let count = λ (t : Tables). let x : Bool × Tables = (has_block block.id t.blocks, t) in x in
    let query = λ (t : Tables).
      let x : List ShareRow × Tables = (upto block.cutoff_share_id t.shares, t) in x in
    let (u₀, db₀, e₀, h₀) =
      >>=-eq-ok (sql count) (λ x. fail_if x already_allocated >>= (λ _. sql query >>= pick)) db h in
    let (u₁, db₁, e₁, h₁) =
      >>=-eq-ok (fail_if u₀ already_allocated) (λ _. sql query >>= pick) db₀ h₀ in
    let (u₂, db₂, e₂, h₂) = >>=-eq-ok (sql query) pick db₁ h₁ in
    let ((g, s), db₃, e₃, h₃) = >>=-eq-ok (lift (select_window window u₂ [] 0)) write db₂ h₂ in
    let done = write_block-eq-ok block window bps reward fees g s db₃ db' allocations h₃ in
    let counted = sql-eq-ok count db e₀ in
    let queried = sql-eq-ok query db₁ e₂ in
    record {
      reward = reward;
      fees = fees;
      grouped = g;
      selected = s;
      reward_read = p;
      fees_read = q;
      windowed = ground arith;
      some_work = done.0;
      fresh = ground arith;
      returned = done.2;
      written = ground arith;
    }

-- A call that returns allocations has committed exactly the frozen window's split.
pub allocate_block-Allocated :
    (block : FoundBlock) (window : Option ℤ) (bps : ℕ) (db db' : Db) (allocations : List Allocation)
    → allocate_block block window bps db ≡ (ok allocations, db')
    → Allocated block (magnitude_of window) bps db.tables db'.tables allocations
unfolding allocate_block
allocate_block-Allocated block window bps db db' allocations h =
    elim (Result-cases (positive_reward block.reward_atomic)) [
      | inr (e₁, bad) ↦ absurd (ground arith)
      | inl (r, p) ↦ elim (Result-cases (parse_big block.fees_atomic)) [
        | inr (e₂, bad) ↦ absurd (ground arith)
        | inl (f, q) ↦
            let body = allocate_in_tx block (magnitude_of window) bps r f in
            let call : tx body db ≡ (ok allocations, db') = ground arith in
            let (same, left) = tx-eq-ok body db call in
            rw left (
              allocate_in_tx-eq-ok block (magnitude_of window) bps r f (tick db) (body (tick db)).1
                allocations
                (ap (λ x. let y : Result (List Allocation) × Db = (x, (body (tick db)).1) in y)
                  same)
                p q)
      ]
    ]
