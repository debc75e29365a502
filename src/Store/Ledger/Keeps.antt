-- ===== src/Store/Ledger/Keeps.antt =====
-- The invariant of the database under the operations of the store.
use mathlib.Core.Path.{subst}
use qday_pool.Prelude.{
  ℕ, ◌≡◌, refl, sym, Bool, false, Option, List, Text, text_eq, arith, ap, ◌∙◌, ◌&&◌,
}
use qday_pool.Prelude.Int.{ℤ}
use qday_pool.Store.Tables.{Time, ShareRow, BlockRow, Tables, BlockStatus, PayoutStatus, PayoutRow}
use qday_pool.Store.Sql.{
  Result, Db, sql, ◌>>=◌, pure, lift, or_fail, no_rows, >>=-after, sql-eq-ok, sql-eq-err,
}
use qday_pool.Store.Shares.{
  Share, insert_share, record_share, delete_share, delete_before, prune_shares,
}
use qday_pool.Store.Shares.Valid.{
  SharesValid, record_share-SharesValid, delete_share-SharesValid, prune_shares-SharesValid,
}
use qday_pool.Store.Balances.{block_status}
use qday_pool.Store.Balances.Sums.{is_mature}
use qday_pool.Store.Blocks.{
  find_block, update_where, next_status, observed, is_pending, truncate, set_block_state,
  set_block_error,
}
use qday_pool.Store.PayoutStates.{
  update_payouts, is_target, in_state, set_payout_state, payout_error,
}
use qday_pool.Store.Ledger.{Ledger}
use qday_pool.Store.Ledger.Credits.{
  owned-update, unique-update, Keeps, mature_parts-Keeps, observed-Keeps, statuses-Keeps,
}
use qday_pool.Store.Ledger.Batches.{reserved_parts-update, listed-update, numbered-update}

-- The shares table is a part of its own.
reshare :
    (t : Tables) (rows : List ShareRow) (seq : ℕ)
    → SharesValid (record t { shares = rows; share_seq = seq })
    → Ledger t
    → Ledger (record t { shares = rows; share_seq = seq })
reshare t rows seq v g = record {
  shares_valid = v;
  unique_blocks = g.unique_blocks;
  owned = g.owned;
  numbered = g.numbered;
  listed = g.listed;
  solvent = g.solvent;
}

-- What the operations on shares leave of the other tables.
abbrev pub Reshared : Tables → Tables → Type 0
Reshared t t' =
    (rows : List ShareRow) × (seq : ℕ) × (t' ≡ record t { shares = rows; share_seq = seq })

Reshared-Ledger : (t t' : Tables) → Reshared t t' → SharesValid t' → Ledger t → Ledger t'
Reshared-Ledger t t' (rows, seq, e) v g =
    subst Ledger (sym e) (reshare t rows seq (subst SharesValid e v) g)

pub record_share-Reshared : (s : Share) (db : Db) → Reshared db.tables (record_share s db).1.tables
unfolding record_share sql insert_share
record_share-Reshared s db =
    let t' = (record_share s db).1.tables in (t'.shares, t'.share_seq, ground arith)

pub delete_share-Reshared : (h : Text) (db : Db) → Reshared db.tables (delete_share h db).1.tables
unfolding delete_share sql
delete_share-Reshared h db =
    let t' = (delete_share h db).1.tables in (t'.shares, t'.share_seq, ground arith)

pub prune_shares-Reshared :
    (r : Option ℤ) (db : Db) → Reshared db.tables (prune_shares r db).1.tables
unfolding prune_shares sql delete_before
prune_shares-Reshared r db =
    let t' = (prune_shares r db).1.tables in (t'.shares, t'.share_seq, ground arith)

-- Updates of blocks.
reblock :
    (p : BlockRow → Bool) (f : BlockRow → BlockRow) (t : Tables)
    → ((b : BlockRow) → (f b).id ≡ b.id)
    → Keeps t.blocks (update_where p f t.blocks)
    → Ledger t
    → Ledger (record t { blocks = update_where p f t.blocks })
reblock p f t same k g = record {
  shares_valid = record {
    numbered = g.shares_valid.numbered;
    worked = g.shares_valid.worked;
    unique = g.shares_valid.unique;
  };
  unique_blocks = unique-update p f same t.blocks g.unique_blocks;
  owned = owned-update p f same t.blocks t.allocations g.owned;
  numbered = g.numbered;
  listed = g.listed;
  solvent = λ a. omega (
    arith,
    g.solvent a,
    mature_parts-Keeps a t.blocks (update_where p f t.blocks) t.allocations k,
  );
}

-- Updates of payouts.
repay :
    (p : PayoutRow → Bool) (f : PayoutRow → PayoutRow) (t : Tables)
    → ((r : PayoutRow) → (f r).id ≡ r.id)
    → Ledger t
    → Ledger (record t { payouts = update_payouts p f t.payouts })
repay p f t same g = record {
  shares_valid = record {
    numbered = g.shares_valid.numbered;
    worked = g.shares_valid.worked;
    unique = g.shares_valid.unique;
  };
  unique_blocks = g.unique_blocks;
  owned = g.owned;
  numbered = numbered-update p f same t.payout_seq t.payouts g.numbered;
  listed = listed-update p f same t.payouts t.items g.listed;
  solvent = λ a. rw (reserved_parts-update p f same a t.payouts t.items) (g.solvent a);
}

pub record_share-Ledger :
    (s : Share) (db : Db) → Ledger db.tables → Ledger (record_share s db).1.tables
record_share-Ledger s db g =
    Reshared-Ledger _ _ (record_share-Reshared s db) (record_share-SharesValid s db g.shares_valid)
      g

pub delete_share-Ledger :
    (h : Text) (db : Db) → Ledger db.tables → Ledger (delete_share h db).1.tables
delete_share-Ledger h db g =
    Reshared-Ledger _ _ (delete_share-Reshared h db) (delete_share-SharesValid h db g.shares_valid)
      g

pub prune_shares-Ledger :
    (r : Option ℤ) (db : Db) → Ledger db.tables → Ledger (prune_shares r db).1.tables
prune_shares-Ledger r db g =
    Reshared-Ledger _ _ (prune_shares-Reshared r db) (prune_shares-SharesValid r db g.shares_valid)
      g

pub set_block_error-Ledger :
    (id failure : Text) (db : Db)
    → Ledger db.tables
    → Ledger (set_block_error id failure db).1.tables
unfolding set_block_error sql
set_block_error-Ledger id failure db g =
    let p = λ (b : BlockRow). text_eq b.id id && is_pending b.status in
    let f = λ (b : BlockRow). let r : BlockRow = record b { last_error = truncate failure } in r in
    ground (
      arith,
      reblock p f db.tables (λ b. refl)
          (statuses-Keeps p f db.tables.blocks (λ b. refl) (λ b. refl)) g,
    )

-- `SetBlockState` leaves the tables alone or updates the blocks of its id with some status.
pub set_block_state-after :
    (P : Tables → Type 0) (id : Text) (known canonical : Bool) (confirmations tip : ℕ)
    (failure : Text) (db : Db)
    → P db.tables
    → ((s : BlockStatus)
        → P (record db.tables {
          blocks =
              update_where
                (λ b. text_eq b.id id)
                (observed canonical confirmations s failure)
                db.tables.blocks;
        }))
    → P (set_block_state id known canonical confirmations tip failure db).1.tables
unfolding set_block_state
set_block_state-after P id known canonical confirmations tip failure db g update =
    let find =
      λ (t : Tables). let x : Option BlockRow × Tables = (find_block id t.blocks, t) in x in
    let status = λ (row : BlockRow).
      next_status known canonical tip row.height row.maturity_height row.status in
    let set = λ (row : BlockRow) (t : Tables).
      let x : Unit {0} × Tables = (
        tt,
        record t {
          blocks =
              update_where (λ b. text_eq b.id id)
                (observed canonical confirmations (status row) failure) t.blocks;
        },
      ) in
      x in
    let write = λ (row : BlockRow). sql (set row) >>= (λ _. pure (status row)) in
    let change = λ (found : Option BlockRow). lift (or_fail found no_rows) >>= write in
    >>=-after P (sql find) change db (λ e db₁ bad. subst P (sym (sql-eq-err find db bad)) g)
      λ found db₁ read.
        let before = subst P (sym (sql-eq-ok find db read).1) g in
        >>=-after P (lift (or_fail found no_rows)) write db₁
          (λ e db₂ bad. subst P (ap (λ (r : Result BlockRow × Db). r.1.tables) bad) before)
          λ row db₂ here.
            let there = ap (λ (r : Result BlockRow × Db). r.1.tables) here in
            let old = sym there ∙ (sql-eq-ok find db read).1 in
            >>=-after P (sql (set row)) (λ _. pure (status row)) db₂
              (λ e db₃ bad. subst P (sym (sql-eq-err (set row) db₂ bad ∙ old)) g)
              λ _ db₃ good.
                subst P (sym ((sql-eq-ok (set row) db₂ good).1 ∙ ap (λ t. (set row t).1) old))
                  (update (status row))

pub set_block_state-Ledger :
    (id : Text) (known canonical : Bool) (confirmations tip : ℕ) (failure : Text) (db : Db)
    → is_mature (block_status db.tables.blocks id) ≡ false
    → Ledger db.tables
    → Ledger (set_block_state id known canonical confirmations tip failure db).1.tables
set_block_state-Ledger id known canonical confirmations tip failure db new g =
    set_block_state-after Ledger id known canonical confirmations tip failure db g λ s.
      reblock (λ b. text_eq b.id id) (observed canonical confirmations s failure) db.tables
        (λ b. refl) (observed-Keeps id canonical confirmations s failure db.tables.blocks new) g

pub set_payout_state-Ledger :
    (id : ℕ) (transaction : Text) (status : PayoutStatus) (now : Time) (db : Db)
    → Ledger db.tables
    → Ledger (set_payout_state id transaction status now db).1.tables
unfolding set_payout_state sql
set_payout_state-Ledger id transaction status now db g =
    ground (arith, repay (is_target id) (in_state status transaction now) db.tables (λ r. refl) g)

pub payout_error-Ledger :
    (id : ℕ) (message : Text) (db : Db)
    → Ledger db.tables
    → Ledger (payout_error id message db).1.tables
unfolding payout_error sql
payout_error-Ledger id message db g =
    let f =
      λ (p : PayoutRow). let r : PayoutRow = record p { last_error = truncate message } in r in
    ground (arith, repay (is_target id) f db.tables (λ r. refl) g)
