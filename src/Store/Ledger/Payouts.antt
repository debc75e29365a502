-- ===== src/Store/Ledger/Payouts.antt =====
-- The invariant of the database under `PreparePayouts`.
use mathlib.Core.Path.{subst}
use qday_pool.Prelude.{
  ℕ, suc, ◌+◌, ◌≤◌, ◌≡◌, refl, sym, ap, ◌∙◌, inl, inr, true, Option, List, ◌∷◌, Text, arith,
  All-map,
}
use qday_pool.Prelude.Int.{ℤ}
use qday_pool.Store.Tables.{Time, Tables, PayoutRow}
use qday_pool.Store.Totals.{value}
use qday_pool.Store.Sql.{Result, Db, Result-cases}
use qday_pool.Store.Balances.{Balances, payout_status}
use qday_pool.Store.Balances.Sums.{is_listed, mature_for, reserved_for, Read}
use qday_pool.Store.Payouts.{
  Payout, AvailableItem, available, chosen, payout_row, prepare_payouts, total_of,
}
use qday_pool.Store.Payouts.Batch.{amount_for, amount_for-le, batch-Fits, batch-Apart}
use qday_pool.Store.Payouts.Commits.{
  Prepared, prepare_payouts-Prepared, prepare_payouts_atomic, push_items,
}
use qday_pool.Store.Ledger.{Ledger}
use qday_pool.Store.Ledger.Batches.{
  reserved_parts-cons, listed-cons, reserved_parts-push_items, push_items-listed,
}

module _ (row : PayoutRow) (xs : List AvailableItem) (t : Tables) (g : Ledger t)
    (next : row.id ≡ suc t.payout_seq) where
  batched : Tables
  batched = record t {
    payouts = row ∷ t.payouts;
    payout_seq = suc t.payout_seq;
    items = push_items (suc t.payout_seq) xs t.items;
  }

  new_listed : is_listed (payout_status (row ∷ t.payouts) (suc t.payout_seq)) ≡ true
  unfolding payout_status
  new_listed = ground arith

  -- Every address has the new items reserved on top.
  reserved_for-batched : (a : Text) → reserved_for a batched ≡ amount_for a xs + reserved_for a t
  unfolding batched
  reserved_for-batched a =
      reserved_parts-push_items a (suc t.payout_seq) (row ∷ t.payouts) xs t.items new_listed
      ∙ ap (λ n. amount_for a xs + n)
          (reserved_parts-cons t.payout_seq row t.payouts (omega (arith, next)) g.numbered a t.items
            g.listed)

  batched-Ledger :
      ((a : Text) → amount_for a xs + reserved_for a t ≤ mature_for a t) → Ledger batched
  unfolding batched
  batched-Ledger fits = record {
    shares_valid = record {
      numbered = g.shares_valid.numbered;
      worked = g.shares_valid.worked;
      unique = g.shares_valid.unique;
    };
    unique_blocks = g.unique_blocks;
    owned = g.owned;
    numbered = (
      omega (arith, next),
      All-map (λ p (le : p.id ≤ t.payout_seq). let q : p.id ≤ suc t.payout_seq = omega arith in q)
          t.payouts g.numbered,
    );
    listed =
        push_items-listed (suc t.payout_seq) (row ∷ t.payouts) xs t.items new_listed (
          listed-cons t.payout_seq row t.payouts (omega (arith, next)) g.numbered t.items g.listed);
    solvent = λ a. omega (arith, reserved_for-batched a, fits a);
  }

-- The batch fits into the credit that the call has read.
batch-fits :
    (threshold max : ℕ) (t : Tables) (b : Balances)
    → Read t b
    → Ledger t
    → (a : Text)
    → amount_for a (chosen max (available threshold b.reserved b.mature)) + reserved_for a t
      ≤ mature_for a t
batch-fits threshold max t b r g a =
    let le : value a b.reserved ≤ value a b.mature =
      omega (arith, r.mature_read a, r.reserved_read a, g.solvent a) in
    omega (
      arith,
      r.mature_read a,
      r.reserved_read a,
      amount_for-le threshold b.mature b.reserved a _
          (batch-Fits threshold b.mature b.reserved max r.mature_distinct)
          (batch-Apart threshold b.mature b.reserved max r.mature_distinct) le,
    )

Prepared-Ledger :
    (threshold fee max : ℕ) (now : Time) (t t' : Tables) (r : Option Payout)
    → Prepared threshold fee max now t t' r
    → Ledger t
    → Ledger t'
unfolding batched
Prepared-Ledger threshold fee max now t t' r p g = elim p.outcome [
  | inl (_, _, same) ↦ subst Ledger (sym same) g
  | inr w ↦ subst Ledger (sym w.tables) (
      batched-Ledger
        (payout_row (suc t.payout_seq) w.request_id now
          (total_of (chosen max (available threshold p.read.reserved p.read.mature))) fee)
        _ t g refl (batch-fits threshold max t p.read p.is_read g))
]

pub prepare_payouts-Ledger :
    (threshold fee : Option ℤ) (max : ℤ) (entropy : Option (List ℕ)) (now : Time) (db : Db)
    → Ledger db.tables
    → Ledger (prepare_payouts threshold fee max entropy now db).1.tables
prepare_payouts-Ledger threshold fee max entropy now db g =
    let call = prepare_payouts threshold fee max entropy now db in
    elim (Result-cases call.0) [
      | inl (r, p) ↦
          Prepared-Ledger _ _ _ now db.tables call.1.tables r
            (prepare_payouts-Prepared threshold fee max entropy now db call.1 r
              (ap (λ x. let y : Result (Option Payout) × Db = (x, call.1) in y) p))
            g
      | inr (e, p) ↦
          subst Ledger
            (sym (
              prepare_payouts_atomic threshold fee max entropy now db call.1 e
                (ap (λ x. let y : Result (Option Payout) × Db = (x, call.1) in y) p)))
            g
    ]
