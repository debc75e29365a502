-- ===== src/Store/Ledger/Final.antt =====
-- Confirmed payouts, over the calls of the store.
use mathlib.Core.Path.{subst}
use qday_pool.Prelude.{
  ℕ, ◌≡◌, refl, ap, sym, ◌∙◌, inl, inr, Bool, false, ◌==◌, Option, some, List, [], ◌∷◌, Text, arith,
  Bool-cases,
}
use qday_pool.Prelude.Int.{ℤ}
use qday_pool.Store.Tables.{Time, PayoutRow, Tables, PayoutStatus}
use qday_pool.Store.Sql.{Result, Db, sql, Result-cases}
use qday_pool.Store.Allocate.{FoundBlock, Allocation, allocate_block}
use qday_pool.Store.Allocate.Commits.{allocate_block-Allocated, allocate_block_atomic}
use qday_pool.Store.Blocks.{truncate, set_block_error}
use qday_pool.Store.Balances.{payout_status}
use qday_pool.Store.Payouts.{Payout, prepare_payouts}
use qday_pool.Store.Payouts.Commits.{prepare_payouts-Prepared, prepare_payouts_atomic}
use qday_pool.Store.PayoutStates.{
  is_active, is_target, in_state, update_payouts, set_payout_state, payout_error,
}
use qday_pool.Store.Ledger.{Ledger}
use qday_pool.Store.Ledger.Batches.{payout_status-cons}
use qday_pool.Store.Ledger.Keeps.{
  record_share-Reshared, delete_share-Reshared, prune_shares-Reshared, set_block_state-after,
}
use qday_pool.Store.Ledger.Reach.{
  Call, recorded, deleted, pruned, allocated, block_observed, block_failed, payouts_prepared,
  payout_advanced, payout_failed, run, Reach, Reach-Ledger,
}

-- The payout of that id is confirmed.
abbrev pub IsConfirmed : ℕ → Tables → Type 0
IsConfirmed id t = payout_status t.payouts id ≡ some PayoutStatus.confirmed

not_target : (j : ℕ) (p : PayoutRow) → p.status ≡ PayoutStatus.confirmed → is_target j p ≡ false
not_target j p final =
    let idle : is_active p.status ≡ false = ap is_active final in ground (arith, idle)

-- An update of active payouts passes a confirmed one by.
update-IsConfirmed :
    (id j : ℕ) (f : PayoutRow → PayoutRow) (ps : List PayoutRow)
    → ((p : PayoutRow) → (f p).id ≡ p.id)
    → payout_status ps id ≡ some PayoutStatus.confirmed
    → payout_status (update_payouts (is_target j) f ps) id ≡ some PayoutStatus.confirmed
unfolding payout_status update_payouts
update-IsConfirmed id j f [] same h = h
update-IsConfirmed id j f (p ∷ ps) same h = elim (Bool-cases (p.id == id)) [
  | inr other ↦ ground (arith, update-IsConfirmed id j f ps same, same p, other)
  | inl here ↦
      let final : p.status ≡ PayoutStatus.confirmed = ground (arith, here) in
      let passed : is_target j p ≡ false = not_target j p final in rw (passed, here) (ap some final)
]

set_payout_state-IsConfirmed :
    (id j : ℕ) (transaction : Text) (status : PayoutStatus) (now : Time) (db : Db)
    → IsConfirmed id db.tables
    → IsConfirmed id (set_payout_state j transaction status now db).1.tables
unfolding set_payout_state sql
set_payout_state-IsConfirmed id j transaction status now db h = ground (
  arith,
  update-IsConfirmed id j (in_state status transaction now) db.tables.payouts (λ p. refl) h,
)

payout_error-IsConfirmed :
    (id j : ℕ) (message : Text) (db : Db)
    → IsConfirmed id db.tables
    → IsConfirmed id (payout_error j message db).1.tables
unfolding payout_error sql
payout_error-IsConfirmed id j message db h =
    let f =
      λ (p : PayoutRow). let r : PayoutRow = record p { last_error = truncate message } in r in
    ground (arith, update-IsConfirmed id j f db.tables.payouts (λ p. refl) h)

set_block_error-IsConfirmed :
    (id : ℕ) (block failure : Text) (db : Db)
    → IsConfirmed id db.tables
    → IsConfirmed id (set_block_error block failure db).1.tables
unfolding set_block_error sql
set_block_error-IsConfirmed id block failure db h = ground arith

allocate_block-IsConfirmed :
    (id : ℕ) (block : FoundBlock) (window : Option ℤ) (bps : ℕ) (db : Db)
    → IsConfirmed id db.tables
    → IsConfirmed id (allocate_block block window bps db).1.tables
allocate_block-IsConfirmed id block window bps db h =
    let call = allocate_block block window bps db in
    elim (Result-cases call.0) [
      | inl (allocations, p) ↦
          let d =
            allocate_block-Allocated block window bps db call.1 allocations
              (ap (λ x. let y : Result (List Allocation) × Db = (x, call.1) in y) p) in
          subst (IsConfirmed id) (sym d.written) h
      | inr (e, p) ↦
          subst (IsConfirmed id)
            (sym (
              allocate_block_atomic block window bps db call.1 e
                (ap (λ x. let y : Result (List Allocation) × Db = (x, call.1) in y) p)))
            h
    ]

prepare_payouts-IsConfirmed :
    (id : ℕ) (threshold fee : Option ℤ) (max : ℤ) (entropy : Option (List ℕ)) (now : Time) (db : Db)
    → Ledger db.tables
    → IsConfirmed id db.tables
    → IsConfirmed id (prepare_payouts threshold fee max entropy now db).1.tables
prepare_payouts-IsConfirmed id threshold fee max entropy now db g h =
    let call = prepare_payouts threshold fee max entropy now db in
    elim (Result-cases call.0) [
      | inl (r, p) ↦
          let d =
            prepare_payouts-Prepared threshold fee max entropy now db call.1 r
              (ap (λ x. let y : Result (Option Payout) × Db = (x, call.1) in y) p) in
          elim d.outcome [
            | inl (_, _, same) ↦ subst (IsConfirmed id) (sym same) h
            | inr w ↦ subst (IsConfirmed id) (sym w.tables) (
                payout_status-cons db.tables.payout_seq _ db.tables.payouts (omega arith) g.numbered
                  id (rw h refl)
                ∙ h)
          ]
      | inr (e, p) ↦
          subst (IsConfirmed id)
            (sym (
              prepare_payouts_atomic threshold fee max entropy now db call.1 e
                (ap (λ x. let y : Result (Option Payout) × Db = (x, call.1) in y) p)))
            h
    ]

-- On tables that calls reach, no further call, whichever of its statements fail, takes back that a
-- payout is confirmed.
pub run-IsConfirmed :
    (id : ℕ) (c : Call) (t : Tables) (fails : ℕ → Bool)
    → Reach t
    → IsConfirmed id t
    → IsConfirmed id (run c (record { tables = t; fails = fails })).tables
unfolding run
run-IsConfirmed id (recorded s) t fails r h =
    let (rows, seq, e) = record_share-Reshared s (record { tables = t; fails = fails }) in
    subst (IsConfirmed id) (sym e) h
run-IsConfirmed id (deleted x) t fails r h =
    let (rows, seq, e) = delete_share-Reshared x (record { tables = t; fails = fails }) in
    subst (IsConfirmed id) (sym e) h
run-IsConfirmed id (pruned w) t fails r h =
    let (rows, seq, e) = prune_shares-Reshared w (record { tables = t; fails = fails }) in
    subst (IsConfirmed id) (sym e) h
run-IsConfirmed id (allocated b w bps) t fails r h =
    allocate_block-IsConfirmed id b w bps (record { tables = t; fails = fails }) h
run-IsConfirmed id (block_observed b k c n tip f) t fails r h =
    set_block_state-after (IsConfirmed id) b k c n tip f (record { tables = t; fails = fails }) h
      (λ s. h)
run-IsConfirmed id (block_failed b f) t fails r h =
    set_block_error-IsConfirmed id b f (record { tables = t; fails = fails }) h
run-IsConfirmed id (payouts_prepared threshold fee max entropy now) t fails r h =
    prepare_payouts-IsConfirmed id threshold fee max entropy now
      (record { tables = t; fails = fails }) (Reach-Ledger t r) h
run-IsConfirmed id (payout_advanced j tx s now) t fails r h =
    set_payout_state-IsConfirmed id j tx s now (record { tables = t; fails = fails }) h
run-IsConfirmed id (payout_failed j f) t fails r h =
    payout_error-IsConfirmed id j f (record { tables = t; fails = fails }) h
