-- ===== src/Store/Payouts/Commits.antt =====
-- What a call of `PreparePayouts` has done when it returns.
use mathlib.Core.Path.{subst}
use qday_pool.Prelude.{
  ℕ, suc, ◌≡◌, ◌⊎◌, inl, inr, refl, ap, false, Option, none, some, List, [], ◌∷◌, Text, text_eq,
  map, any, arith, length,
}
use qday_pool.Prelude.Int.{ℤ, pos_part}
use qday_pool.Store.Tables.{Time, ItemRow, Tables}
use qday_pool.Store.Shares.{magnitude_of}
use qday_pool.Store.Balances.{Balances, balances}
use qday_pool.Store.Balances.Sums.{Read, balances-Read}
use qday_pool.Store.Sql.{
  Result, ok, err, Error, Db, M, tick, sql, lift, pure, ◌>>=◌, ◌>>◌, tx, >>=-eq-ok, sql-eq-ok,
  tx-eq-ok, tx-eq-err,
}
use qday_pool.Store.Payouts.{
  Payout, AvailableItem, available, chosen, request_id_of, payout_row, insert_payout, item_row,
  insert_item, insert_items, payout_item, total_of, write_payout, prepare_in_tx, prepare_payouts,
}

-- A call of `PreparePayouts` that fails, at whatever statement or check, changes no table.
pub prepare_payouts_atomic :
    (threshold fee : Option ℤ) (max : ℤ) (entropy : Option (List ℕ)) (now : Time) (db db' : Db)
    (e : Error)
    → prepare_payouts threshold fee max entropy now db ≡ (err e, db')
    → db'.tables ≡ db.tables
unfolding prepare_payouts
prepare_payouts_atomic threshold fee max entropy now db db' e h =
    let body =
      prepare_in_tx (magnitude_of threshold) (magnitude_of fee) (pos_part max) entropy now in
    ground (arith, tx-eq-err body db {e = e} {db' = db'})

-- The rows in the order that the loop leaves them in.
unfoldable pub push_items : ℕ → List AvailableItem → List ItemRow → List ItemRow
push_items id [] rows = rows
push_items id (x ∷ xs) rows = push_items id xs (item_row id x ∷ rows)

insert_items-eq-ok :
    (id : ℕ) (xs : List AvailableItem) (db db' : Db)
    → insert_items id xs db ≡ (ok tt, db')
    → db'.tables ≡ record db.tables { items = push_items id xs db.tables.items }
unfolding insert_items push_items insert_item
insert_items-eq-ok id [] db db' h = ground arith
insert_items-eq-ok id (x ∷ xs) db db' h =
    let (u, db₁, e₁, rest) =
      >>=-eq-ok (sql (insert_item id x)) (λ r. lift r >> insert_items id xs) db h in
    let (v, db₂, e₂, tail) = >>=-eq-ok (lift u) (λ _. insert_items id xs) db₁ rest in
    ground (arith, sql-eq-ok (insert_item id x) db e₁, insert_items-eq-ok id xs db₂ db' tail)

-- The new batch, as it is written and returned.
pub record Written (fee : ℕ) (now : Time) (xs : List AvailableItem) (t t' : Tables)
    (r : Option Payout) : Type 0 where
  pub request_id : Text
  pub unused : any (λ p. text_eq p.request_id request_id) t.payouts ≡ false
  pub returned :
      r
      ≡ some (record {
        row = payout_row (suc t.payout_seq) request_id now (total_of xs) fee;
        items = map payout_item xs;
        outputs = length xs;
      })
  pub tables : t' ≡ record t {
    payouts = payout_row (suc t.payout_seq) request_id now (total_of xs) fee ∷ t.payouts;
    payout_seq = suc t.payout_seq;
    items = push_items (suc t.payout_seq) xs t.items;
  }

abbrev batch_payout : ℕ → Text → Time → List AvailableItem → ℕ → Option Payout
batch_payout id request_id now xs fee = some (record {
  row = payout_row id request_id now (total_of xs) fee;
  items = map payout_item xs;
  outputs = length xs;
})

abbrev fill : ℕ → Text → Time → List AvailableItem → ℕ → M (Option Payout)
fill fee request_id now xs id =
    insert_items id xs >>= (λ _. pure (batch_payout id request_id now xs fee))

requested-Written :
    (fee : ℕ) (rid : Text) (now : Time) (xs : List AvailableItem) (db db' : Db) (r : Option Payout)
    → (sql (insert_payout rid now (total_of xs) fee) >>= (λ i. lift i >>= fill fee rid now xs)) db
      ≡ (ok r, db')
    → Written fee now xs db.tables db'.tables r
unfolding insert_payout
requested-Written fee rid now xs db db' r h =
    let insert = insert_payout rid now (total_of xs) fee in
    let (u₁, db₁, e₁, h₁) = >>=-eq-ok (sql insert) (λ i. lift i >>= fill fee rid now xs) db h in
    let (id, db₂, e₂, h₂) = >>=-eq-ok (lift u₁) (fill fee rid now xs) db₁ h₁ in
    let (u₃, db₃, e₃, h₃) =
      >>=-eq-ok (insert_items id xs) (λ _. pure (batch_payout id rid now xs fee)) db₂ h₂ in
    let inserted = sql-eq-ok insert db e₁ in
    let filled = insert_items-eq-ok id xs db₂ db₃ e₃ in
    let numbered : (id ≡ suc db.tables.payout_seq)
        × (any (λ p. text_eq p.request_id rid) db.tables.payouts ≡ false) =
      ground arith in
    record { request_id = rid; unused = numbered.1; returned = ground arith; tables = ground arith }

write_payout-Written :
    (fee : ℕ) (entropy : Option (List ℕ)) (now : Time) (xs : List AvailableItem) (db db' : Db)
    (r : Option Payout)
    → write_payout fee entropy now xs db ≡ (ok r, db')
    → Written fee now xs db.tables db'.tables r
unfolding write_payout
write_payout-Written fee entropy now xs db db' r h =
    let insert = λ (rid : Text).
      sql (insert_payout rid now (total_of xs) fee) >>= (λ i. lift i >>= fill fee rid now xs) in
    let (rid, db₁, e₁, h₁) = >>=-eq-ok (lift (request_id_of entropy)) insert db h in
    let same : db₁ ≡ db = ground arith in
    subst (λ d. Written fee now xs d.tables db'.tables r) same
      (requested-Written fee rid now xs db₁ db' r h₁)

-- What a successful call has read, and that it has written the batch, or nothing where no
-- address reaches the threshold.
pub record Prepared (threshold fee max : ℕ) (now : Time) (t t' : Tables) (r : Option Payout)
    : Type 0 where
  pub read : Balances
  pub is_read : Read t read
  pub outcome :
      ((available threshold read.reserved read.mature ≡ []) × (r ≡ none) × (t' ≡ t))
      ⊎ Written fee now (chosen max (available threshold read.reserved read.mature)) t t' r

abbrev pick : ℕ → ℕ → Option (List ℕ) → Time → List AvailableItem → M (Option Payout)
pick fee max entropy now items = elim items [
  | [] ↦ pure none
  | item ∷ items ↦ write_payout fee entropy now (chosen max (item ∷ items))
]

pick_outcome :
    (fee max : ℕ) (entropy : Option (List ℕ)) (now : Time) (items : List AvailableItem)
    (db db' : Db) (r : Option Payout)
    → pick fee max entropy now items db ≡ (ok r, db')
    → ((items ≡ []) × (r ≡ none) × (db'.tables ≡ db.tables))
      ⊎ Written fee now (chosen max items) db.tables db'.tables r
pick_outcome fee max entropy now [] db db' r h = inl (refl, ground arith, ground arith)
pick_outcome fee max entropy now (x ∷ xs) db db' r h =
    inr (write_payout-Written fee entropy now (chosen max (x ∷ xs)) db db' r h)

prepare_in_tx-Prepared :
    (threshold fee max : ℕ) (entropy : Option (List ℕ)) (now : Time) (db db' : Db)
    (r : Option Payout)
    → prepare_in_tx threshold fee max entropy now db ≡ (ok r, db')
    → Prepared threshold fee max now db.tables db'.tables r
unfolding prepare_in_tx
prepare_in_tx-Prepared threshold fee max entropy now db db' r h =
    let next =
      λ (b : Balances). pick fee max entropy now (available threshold b.reserved b.mature) in
    let (b, db₁, e₁, h₁) = >>=-eq-ok balances next db h in
    let (is_read, same) = balances-Read db db₁ b e₁ in
    let items = available threshold b.reserved b.mature in
    record {
      read = b;
      is_read = is_read;
      outcome =
          subst
            (λ t.
              ((items ≡ []) × (r ≡ none) × (db'.tables ≡ t))
              ⊎ Written fee now (chosen max items) t db'.tables r)
            same (pick_outcome fee max entropy now items db₁ db' r h₁);
    }

pub prepare_payouts-Prepared :
    (threshold fee : Option ℤ) (max : ℤ) (entropy : Option (List ℕ)) (now : Time) (db db' : Db)
    (r : Option Payout)
    → prepare_payouts threshold fee max entropy now db ≡ (ok r, db')
    → Prepared (magnitude_of threshold) (magnitude_of fee) (pos_part max) now db.tables db'.tables r
unfolding prepare_payouts
prepare_payouts-Prepared threshold fee max entropy now db db' r h =
    let body =
      prepare_in_tx (magnitude_of threshold) (magnitude_of fee) (pos_part max) entropy now in
    let call : tx body db ≡ (ok r, db') = ground arith in
    let (same, left) = tx-eq-ok body db call in
    rw left (
      prepare_in_tx-Prepared (magnitude_of threshold) (magnitude_of fee) (pos_part max) entropy now
        (tick db) (body (tick db)).1 r
        (ap (λ x. let y : Result (Option Payout) × Db = (x, (body (tick db)).1) in y) same))
