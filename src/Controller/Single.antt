-- ===== src/Controller/Single.antt =====
-- The batches of payouts in flight, over the rounds of the controller.
use qday_pool.Prelude.{
  ℕ, suc, ◌≤◌, ◌≡◌, refl, ap, sym, ◌∙◌, false, Option, none, some, List, [], ◌∷◌, Text, arith, inl,
  inr, reverse, take, keep, length, length-reverse, Bool-cases,
}
use qday_pool.Prelude.Int.{ℤ, pos}
use qday_pool.Store.Tables.{Time, PayoutRow, Tables, PayoutStatus}
use qday_pool.Store.Sql.{
  Result, ok, err, Db, invalid_page, sql, fail_if, ◌>>=◌, pure, >>=-eq-ok, sql-eq-ok, Result-cases,
}
use qday_pool.Store.Blocks.{truncate}
use qday_pool.Store.Payouts.{PayoutItem, Payout, prepare_payouts}
use qday_pool.Store.Payouts.Commits.{prepare_payouts-Prepared, prepare_payouts_atomic}
use qday_pool.Store.PayoutStates.{
  is_active, is_target, in_state, active_columns, payout_items, with_items, active_payouts,
  update_payouts, set_payout_state, payout_error,
}
use qday_pool.Controller.Payouts.{active_payouts-same}
use qday_pool.Controller.{
  NodeStatus, PayoutResponse, Answer, answered, refused, Node, Config, State, set_status,
  node_problem, request_of, submit_with, submit, submit_all, submit_prepared, submit_active, Policy,
  policy, bad_policy, pay_with, pay, defended, is_unready, pay_defended, pay_known, process_payouts,
  answered_state, noted,
}

-- The payouts that are prepared or submitted.
abbrev pub active_count : Tables → ℕ
active_count t = length (keep (λ p. is_active p.status) t.payouts)

-- An update of active payouts makes no payout active.
update-active :
    (id : ℕ) (f : PayoutRow → PayoutRow) (ps : List PayoutRow)
    → length (keep (λ p. is_active p.status) (update_payouts (is_target id) f ps))
      ≤ length (keep (λ p. is_active p.status) ps)
unfolding update_payouts
update-active id f [] = omega arith
update-active id f (p ∷ ps) = ground (arith, update-active id f ps)

set_payout_state-active :
    (n id : ℕ) (transaction : Text) (status : PayoutStatus) (now : Time) (db : Db)
    → active_count db.tables ≤ n
    → active_count (set_payout_state id transaction status now db).1.tables ≤ n
unfolding set_payout_state sql
set_payout_state-active n id transaction status now db h =
    ground (arith, update-active id (in_state status transaction now) db.tables.payouts)

payout_error-active :
    (n id : ℕ) (message : Text) (db : Db)
    → active_count db.tables ≤ n
    → active_count (payout_error id message db).1.tables ≤ n
unfolding payout_error sql
payout_error-active n id message db h =
    let f =
      λ (p : PayoutRow). let r : PayoutRow = record p { last_error = truncate message } in r in
    ground (arith, update-active id f db.tables.payouts)

submit_with-active :
    (n : ℕ) (a : Answer PayoutResponse) (now : Time) (p : Payout) (s : State)
    → active_count s.db.tables ≤ n
    → active_count (submit_with a now p s).db.tables ≤ n
submit_with-active n (refused text) now p s h = payout_error-active n p.row.id text s.db h
submit_with-active n (answered r) now p s h =
    set_payout_state-active n p.row.id r.transaction (answered_state r) now s.db h

submit_all-active :
    (n : ℕ) (node : Node) (status : NodeStatus) (now : Time) (ps : List Payout) (s : State)
    → active_count s.db.tables ≤ n
    → active_count (submit_all node status now ps s).db.tables ≤ n
unfolding submit_all submit
submit_all-active n node status now [] s h = h
submit_all-active n node status now (p ∷ ps) s h =
    submit_all-active n node status now ps (submit node status now p s)
      (submit_with-active n (node.payout (request_of status p)) now p s h)

submit_prepared-active :
    (n : ℕ) (node : Node) (status : NodeStatus) (now : Time) (r : Result (Option Payout))
    (s : State)
    → active_count s.db.tables ≤ n
    → active_count (submit_prepared node status now r s).db.tables ≤ n
unfolding set_status
submit_prepared-active n node status now (err e) s h = h
submit_prepared-active n node status now (ok none) s h = h
submit_prepared-active n node status now (ok (some p)) s h =
    submit_all-active n node status now (p ∷ []) s h

-- `PreparePayouts` adds one active payout at most.
prepare_payouts-active :
    (threshold fee : Option ℤ) (max : ℤ) (entropy : Option (List ℕ)) (now : Time) (db : Db)
    → active_count (prepare_payouts threshold fee max entropy now db).1.tables
      ≤ suc (active_count db.tables)
prepare_payouts-active threshold fee max entropy now db =
    let call = prepare_payouts threshold fee max entropy now db in
    elim (Result-cases call.0) [
      | inl (r, p) ↦
          let d =
            prepare_payouts-Prepared threshold fee max entropy now db call.1 r
              (ap (λ x. let y : Result (Option Payout) × Db = (x, call.1) in y) p) in
          elim d.outcome [
            | inl (_, _, same) ↦ rw same (omega arith)
            | inr w ↦ rw w.tables (omega arith)
          ]
      | inr (e, p) ↦
          let same =
            prepare_payouts_atomic threshold fee max entropy now db call.1 e
              (ap (λ x. let y : Result (Option Payout) × Db = (x, call.1) in y) p) in
          rw same (omega arith)
    ]

-- What `ActivePayouts` returns.
with_items-length :
    (rows : List PayoutRow) (db db' : Db) (ps : List Payout)
    → with_items rows db ≡ (ok ps, db')
    → length ps ≡ length rows
unfolding with_items
with_items-length [] db db' ps h = ground arith
with_items-length (r ∷ rows) db db' ps h =
    let line = λ (items : List PayoutItem) (rest : List Payout).
      let x : List Payout =
        (record { row = active_columns r; items = items; outputs = length items }) ∷ rest in
      x in
    let (items, db₁, e₁, h₁) =
      >>=-eq-ok (payout_items r.id) (λ items. with_items rows >>= (λ rest. pure (line items rest)))
        db h in
    let (rest, db₂, e₂, h₂) = >>=-eq-ok (with_items rows) (λ rest. pure (line items rest)) db₁ h₁ in
    ground (arith, with_items-length rows db₁ db₂ rest e₂)

take_some : {A : Type 0} (n : ℕ) (xs : List A) → length (take (suc n) xs) ≡ 0 → length xs ≡ 0
take_some n [] h = refl
take_some n (x ∷ xs) h = absurd (omega (arith, h))

active_payouts-none :
    (db db' : Db) → active_payouts (pos 10) db ≡ (ok [], db') → active_count db.tables ≡ 0
unfolding active_payouts
active_payouts-none db db' h =
    let query = λ (t : Tables).
      let x : List PayoutRow × Tables =
        (take 10 (reverse (keep (λ p. is_active p.status) t.payouts)), t) in
      x in
    let read = λ (_ : Unit {0}). sql query >>= with_items in
    let (u, db₁, e₁, h₁) = >>=-eq-ok (fail_if false invalid_page) read db h in
    let (rows, db₂, e₂, h₂) = >>=-eq-ok (sql query) with_items db₁ h₁ in
    let empty = with_items-length rows db₂ db' [] h₂ in
    let read_rows = sql-eq-ok query db₁ e₂ in
    let same : db₁.tables ≡ db.tables = ground arith in
    let active = reverse (keep (λ p. is_active p.status) db.tables.payouts) in
    let none_listed : length (take 10 active) ≡ 0 =
      sym (ap length (read_rows.0 ∙ ap (λ t. (query t).0) same)) ∙ sym empty in
    sym (length-reverse (keep (λ p. is_active p.status) db.tables.payouts))
    ∙ take_some 9 active none_listed

submit_active-active :
    (node : Node) (status : NodeStatus) (now : Time) (cfg : Config) (minimum fee : ℕ)
    (entropy : Option (List ℕ)) (r : Result (List Payout)) (s : State)
    → active_count s.db.tables ≤ 1
    → (r ≡ ok [] → active_count s.db.tables ≡ 0)
    → active_count (submit_active node status now cfg minimum fee entropy r s).db.tables ≤ 1
unfolding set_status
submit_active-active node status now cfg minimum fee entropy (err e) s h none_left = h
submit_active-active node status now cfg minimum fee entropy (ok (p ∷ ps)) s h none_left =
    submit_all-active 1 node status now (p ∷ ps) s h
submit_active-active node status now cfg minimum fee entropy (ok []) s h none_left =
    let call =
      prepare_payouts (some (pos minimum)) (some (pos fee)) cfg.max_outputs entropy now s.db in
    submit_prepared-active 1 node status now call.0 (record s { db = call.1 })
      (omega (
        arith,
        none_left refl,
        prepare_payouts-active (some (pos minimum)) (some (pos fee)) cfg.max_outputs entropy now
            s.db,
      ))

pay_with-active :
    (p : Policy) (node : Node) (status : NodeStatus) (now : Time) (cfg : Config)
    (entropy : Option (List ℕ)) (s : State)
    → active_count s.db.tables ≤ 1
    → active_count (pay_with p node status now cfg entropy s).db.tables ≤ 1
unfolding set_status
pay_with-active (bad_policy problem) node status now cfg entropy s h = h
pay_with-active (policy minimum fee) node status now cfg entropy s h =
    let call = active_payouts (pos 10) s.db in
    let same : call.1.tables ≡ s.db.tables = active_payouts-same (pos 10) s.db in
    submit_active-active node status now cfg minimum fee entropy call.0
      (record (noted minimum fee s) { db = call.1 }) (rw same h)
      λ e.
        ap active_count same
        ∙ active_payouts-none s.db call.1
            (ap (λ x. let y : Result (List Payout) × Db = (x, call.1) in y) e)

pay_known-active :
    (failure : Option Text) (node : Node) (status : NodeStatus) (now : Time) (cfg : Config)
    (entropy : Option (List ℕ)) (s : State)
    → active_count s.db.tables ≤ 1
    → active_count (pay_known failure node status now cfg entropy s).db.tables ≤ 1
unfolding set_status pay
pay_known-active (some text) node status now cfg entropy s h = h
pay_known-active none node status now cfg entropy s h = elim (Bool-cases (is_unready status)) [
  | inl unready ↦ rw unready h
  | inr ready ↦ rw ready (defended_case (defended node status))
]
  where
    defended_case :
        (d : Option Text)
        → active_count (pay_defended d node status now cfg entropy s).db.tables ≤ 1
    defended_case (some text) = h
    defended_case none = pay_with-active _ node status now cfg entropy s h

-- A round of `processPayouts` that starts with at most one active payout, prepared or submitted,
-- ends with at most one, whatever the node answers and whichever statement fails.
pub process_payouts-active :
    (node : Node) (cfg : Config) (entropy : Option (List ℕ)) (now : Time) (s : State)
    → active_count s.db.tables ≤ 1
    → active_count (process_payouts node cfg entropy now s).db.tables ≤ 1
unfolding process_payouts set_status
process_payouts-active node cfg entropy now s h =
    pay_known-active node.status.1 node node.status.0 now cfg entropy
      (set_status node.status.0 (node_problem node.status.1) now s) h
