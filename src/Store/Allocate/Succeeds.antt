-- ===== src/Store/Allocate/Succeeds.antt =====
-- When a call of `AllocateBlock` succeeds.
use mathlib.Core.Path.{subst}
use qday_pool.Prelude.{
  ℕ, suc, ◌-◌, ◌<◌, min, ◌≡◌, refl, ap, sym, ◌∙◌, Bool, true, false, ◌==◌, Option, none, some, List,
  [], ◌∷◌, Text, text_eq_iff, map, leb, arith, All,
}
use qday_pool.Prelude.Int.{ℤ, pos, negsuc}
use qday_pool.Prelude.Sort.{Apart}
use qday_pool.Store.Tables.{AllocationRow, BlockRow, ShareRow, Tables}
use qday_pool.Store.Totals.{Totals, parse_big}
use qday_pool.Store.Window.{select_window}
use qday_pool.Store.Window.Credit.{HasWork, total_work, select_window-Selects, select_window_total}
use qday_pool.Store.Split.{Weighted, split_reward}
use qday_pool.Store.Split.Addresses.{OtherEntry, split_reward-Apart}
use qday_pool.Store.Shares.{magnitude_of}
use qday_pool.Store.Shares.Prune.{upto}
use qday_pool.Store.Shares.Valid.{keep-All}
use qday_pool.Store.Sql.{
  Result, ok, Db, M, Healthy, tick, tx, sql, lift, pure, fail_if, finish, ◌>>=◌, ◌>>◌, >>=-ok,
  sql-ok, no_accepted_shares, already_allocated,
}
use qday_pool.Store.Allocate.{
  FoundBlock, Allocation, distributable, positive_reward, block_row, has_block, insert_block,
  has_allocation, allocation_row, insert_allocation, insert_allocations, allocation, write_block,
  allocate_in_tx, is_invalid, allocate_block,
}
use qday_pool.Store.Ledger.{Ledger}

-- What a call leaves where no statement fails.
abbrev Ends {ℓ} : {A : Type ℓ} → M A → Db → A → Type ℓ
Ends m db a = (db' : Db) × ((m db ≡ (ok a, db')) × Healthy db')

abbrev Unused : Text → List AllocationRow → Weighted → Type 0
Unused id rows e = has_allocation id e.address rows ≡ false

Unused-still :
    (id : Text) (e : Weighted) (rows : List AllocationRow) (es : List Weighted)
    → All (OtherEntry e) es
    → All (Unused id rows) es
    → All (Unused id (allocation_row id e ∷ rows)) es
Unused-still id e rows [] d h = tt
Unused-still id e rows (x ∷ xs) (p, d) (q, h) =
    (ground (arith, text_eq_iff e.address x.address), Unused-still id e rows xs d h)

insert_new :
    (id : Text) (e : Weighted) (t : Tables)
    → has_allocation id e.address t.allocations ≡ false
    → insert_allocation id e t
      ≡ (ok tt, record t { allocations = allocation_row id e ∷ t.allocations })
unfolding insert_allocation
insert_new id e t h = rw h refl

insert_allocations-Ends :
    (id : Text) (es : List Weighted) (db : Db)
    → Healthy db
    → Apart OtherEntry es
    → All (Unused id db.tables.allocations) es
    → Ends (insert_allocations id es) db tt
unfolding insert_allocations insert_allocation
insert_allocations-Ends id [] db up d h = (db, (refl, up))
insert_allocations-Ends id (e ∷ es) db up (p, d) (q, h) =
    let db₁ = record (tick db) {
      tables = record db.tables { allocations = allocation_row id e ∷ db.tables.allocations };
    } in
    let (db', (rest, up')) =
      insert_allocations-Ends id es db₁ (λ n. up (suc n)) d
        (Unused-still id e db.tables.allocations es p h) in
    let inserted : sql (insert_allocation id e) db ≡ (ok (ok tt), db₁) =
      sql-ok (insert_allocation id e) db (up 0)
      ∙ ap
          (λ (r : Result (Unit {0}) × Tables).
            let x : Result (Result (Unit {0})) × Db = (ok r.0, record (tick db) { tables = r.1 }) in
            x)
          (insert_new id e db.tables q) in
    (
      db',
      (
        >>=-ok (sql (insert_allocation id e)) (λ r. lift r >> insert_allocations id es) db inserted
            ∙ rest,
        up',
      ),
    )

none_used :
    (id : Text) (blocks : List BlockRow) (rows : List AllocationRow) (e : Weighted)
    → has_block id blocks ≡ false
    → All (λ row. has_block row.block_id blocks ≡ true) rows
    → Unused id rows e
none_used id blocks [] e fresh h = refl
none_used id blocks (row ∷ rows) e fresh (p, h) =
    ground (arith, none_used id blocks rows e fresh h, text_eq_iff row.block_id id)

All-unused : (P : Weighted → Type 0) (es : List Weighted) → ((e : Weighted) → P e) → All P es
All-unused P [] h = tt
All-unused P (e ∷ es) h = (h e, All-unused P es h)

insert_fresh :
    (row : BlockRow) (t : Tables)
    → has_block row.id t.blocks ≡ false
    → insert_block row t ≡ (ok tt, record t { blocks = row ∷ t.blocks })
unfolding insert_block
insert_fresh row t h = rw h refl

valid_window :
    (block : FoundBlock) (window : Option ℤ) (bps : ℕ)
    → is_invalid block window bps ≡ false
    → 0 < magnitude_of window
valid_window block none bps h = absurd (ground arith)
valid_window block (some (pos n)) bps h = ground arith
valid_window block (some (negsuc n)) bps h = absurd (ground arith)

write_block-Ends :
    (block : FoundBlock) (window bps reward fees : ℕ) (g : Totals) (s : ℕ) (db : Db)
    → Healthy db
    → 0 < s
    → has_block block.id db.tables.blocks ≡ false
    → All (λ row. has_block row.block_id db.tables.blocks ≡ true) db.tables.allocations
    → Apart OtherEntry (split_reward (distributable reward bps) s g)
    → Ends
        (write_block block window bps reward fees g s)
        db
        (map allocation (split_reward (distributable reward bps) s g))
unfolding write_block
write_block-Ends block window bps reward fees g s db up worked fresh owned apart =
    let pay = distributable reward bps in
    let weighted = split_reward pay s g in
    let row = block_row block reward fees (reward - pay) window s in
    let db₁ = record (tick db) { tables = record db.tables { blocks = row ∷ db.tables.blocks } } in
    let unused =
      All-unused (Unused block.id db.tables.allocations) weighted
        (λ e. none_used block.id db.tables.blocks db.tables.allocations e fresh owned) in
    let (db', (filled, up')) =
      insert_allocations-Ends block.id weighted db₁ (λ n. up (suc n)) apart unused in
    let finish = λ (_ : Unit {0}). pure (map allocation weighted) in
    let fill = λ (_ : Unit {0}). insert_allocations block.id weighted >>= finish in
    let write = λ (r : Result (Unit {0})). lift r >>= fill in
    let passed : fail_if (s == 0) no_accepted_shares db ≡ (ok tt, db) = ground arith in
    let inserted : sql (insert_block row) db ≡ (ok (ok tt), db₁) =
      sql-ok (insert_block row) db (up 0)
      ∙ ap
          (λ (r : Result (Unit {0}) × Tables).
            let x : Result (Result (Unit {0})) × Db = (ok r.0, record (tick db) { tables = r.1 }) in
            x)
          (insert_fresh row db.tables fresh) in
    (
      db',
      (
        >>=-ok (fail_if (s == 0) no_accepted_shares) (λ _. sql (insert_block row) >>= write) db
              passed
            ∙ >>=-ok (sql (insert_block row)) write db inserted
            ∙ >>=-ok (insert_allocations block.id weighted) finish db₁ filled,
        up',
      ),
    )

allocate_in_tx-Ends :
    (block : FoundBlock) (window bps reward fees : ℕ) (db : Db) (g : Totals) (s : ℕ)
    → Healthy db
    → Ledger db.tables
    → has_block block.id db.tables.blocks ≡ false
    → select_window window (upto block.cutoff_share_id db.tables.shares) [] 0 ≡ ok (g, s)
    → 0 < s
    → Apart OtherEntry (split_reward (distributable reward bps) s g)
    → Ends
        (allocate_in_tx block window bps reward fees)
        db
        (map allocation (split_reward (distributable reward bps) s g))
unfolding allocate_in_tx
allocate_in_tx-Ends block window bps reward fees db g s up l fresh picked worked apart =
    let write = λ (r : Totals × ℕ). write_block block window bps reward fees r.0 r.1 in
    let pick = λ (rows : List ShareRow). lift (select_window window rows [] 0) >>= write in
    let count = λ (t : Tables). let x : Bool × Tables = (has_block block.id t.blocks, t) in x in
    let query = λ (t : Tables).
      let x : List ShareRow × Tables = (upto block.cutoff_share_id t.shares, t) in x in
    let frozen = λ (_ : Unit {0}). sql query >>= pick in
    let db₁ = tick db in
    let db₂ = tick (tick db) in
    let (db', (written, up')) =
      write_block-Ends block window bps reward fees g s db₂ (λ n. up (suc (suc n))) worked fresh
        l.owned apart in
    let counted = sql-ok count db (up 0) in
    let passed : fail_if (has_block block.id db.tables.blocks) already_allocated db₁
        ≡ (ok tt, db₁) =
      ground (arith, fresh) in
    let queried = sql-ok query db₁ (up 1) in
    let chosen : lift (select_window window (upto block.cutoff_share_id db.tables.shares) [] 0) db₂
        ≡ (ok (g, s), db₂) =
      ap (λ (r : Result (Totals × ℕ)). let x : Result (Totals × ℕ) × Db = (r, db₂) in x) picked in
    (
      db',
      (
        >>=-ok (sql count) (λ x. fail_if x already_allocated >>= frozen) db counted
            ∙ >>=-ok (fail_if (has_block block.id db.tables.blocks) already_allocated) frozen db₁
                passed
            ∙ >>=-ok (sql query) pick db₁ queried
            ∙ >>=-ok
                (lift (select_window window (upto block.cutoff_share_id db.tables.shares) [] 0))
                write db₂ chosen
            ∙ written,
        up',
      ),
    )

-- A transaction whose body ends where nothing fails commits.
tx-Ends :
    {A : Type 0} (m : M A) (db : Db) (a : A) → Healthy db → Ends m (tick db) a → (tx m db).0 ≡ ok a
unfolding tx finish
tx-Ends m db a up (db', (e, up')) = rw (up 0, e, up' 0) refl

-- The call returns allocations where no statement fails, if its arguments are valid, the tables
-- are well-formed, no block of that id is there, and there is work up to the cutoff share.
pub allocate_block_succeeds :
    (block : FoundBlock) (window : Option ℤ) (bps reward fees : ℕ) (db : Db)
    → Healthy db
    → Ledger db.tables
    → is_invalid block window bps ≡ false
    → positive_reward block.reward_atomic ≡ ok reward
    → parse_big block.fees_atomic ≡ ok fees
    → has_block block.id db.tables.blocks ≡ false
    → 0 < total_work (upto block.cutoff_share_id db.tables.shares)
    → (allocations : List Allocation) × ((allocate_block block window bps db).0 ≡ ok allocations)
unfolding allocate_block
allocate_block_succeeds block window bps reward fees db up l valid r f fresh work =
    let rows = upto block.cutoff_share_id db.tables.shares in
    let w = magnitude_of window in
    let worked =
      keep-All HasWork (λ row. leb row.id block.cutoff_share_id) db.tables.shares
        l.shares_valid.worked in
    let ((g, s), picked) = select_window_total w 0 rows [] worked in
    let none_before : min w 0 ≡ 0 = omega arith in
    let selects =
      select_window-Selects w 0 rows [] g s
        (subst (λ k. select_window w rows [] k ≡ ok (g, s)) (sym none_before) picked) in
    let positive : 0 < w = valid_window block window bps valid in
    let nonzero : 0 < s = omega (arith, selects.reached) in
    let apart = split_reward-Apart (distributable reward bps) s g (selects.distinct tt) in
    let done =
      tx-Ends (allocate_in_tx block w bps reward fees) db
        (map allocation (split_reward (distributable reward bps) s g)) up
        (allocate_in_tx-Ends block w bps reward fees (tick db) g s (λ n. up (suc n)) l fresh picked
          nonzero apart) in
    (map allocation (split_reward (distributable reward bps) s g), rw (valid, r, f) done)
