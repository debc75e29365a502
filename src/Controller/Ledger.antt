-- ===== src/Controller/Ledger.antt =====
-- The invariant of the database under rounds of the controller.
use qday_pool.Prelude.{
  ℕ, ◌≡◌, refl, ap, Bool, true, false, ◌&&◌, Option, none, some, List, [], ◌∷◌, Text, text_eq,
  text_eq_iff, text_eq_refl, arith, Bool-cases, inl, inr, All, All-map, All-both, keep, take,
}
use qday_pool.Prelude.Int.{ℤ, pos, pos_part}
use qday_pool.Prelude.Sort.{
  sort_slice, Apart, sort_slice-All, sort_slice-Apart, take-All, take-Apart,
}
use qday_pool.Store.Tables.{Time, BlockRow, Tables, BlockStatus}
use qday_pool.Store.Sql.{Result, ok, Db, sql, Result-cases}
use qday_pool.Store.Allocate.{has_block}
use qday_pool.Store.Blocks.{
  find_block, update_where, observed, is_pending, truncate, lower, pending_blocks, set_block_state,
  set_block_error,
}
use qday_pool.Store.Balances.{block_status}
use qday_pool.Store.Balances.Sums.{is_mature}
use qday_pool.Store.Ledger.{Ledger, UniqueIds}
use qday_pool.Store.Ledger.Credits.{block_status-update_ne}
use qday_pool.Store.Ledger.Keeps.{
  set_block_state-after, set_block_state-Ledger, set_block_error-Ledger,
}
use qday_pool.Controller.{
  NodeStatus, ObservedBlock, Answer, answered, refused, Node, Problem, sync_known, State,
  set_status, node_problem, observe_with, observe_block, observe_blocks, sync_blocks,
}

-- The block that a row's id leads to is not mature.
abbrev NotMature : Tables → BlockRow → Type 0
NotMature t b = is_mature (block_status t.blocks b.id) ≡ false

abbrev OtherId : BlockRow → BlockRow → Type 0
OtherId b c = text_eq b.id c.id ≡ false

OtherId-symm : (b c : BlockRow) → OtherId b c → OtherId c b
OtherId-symm b c h = ground (arith, text_eq_iff b.id c.id, text_eq_iff c.id b.id)

kept_others :
    (p : BlockRow → Bool) (b : BlockRow) (bs : List BlockRow)
    → has_block b.id bs ≡ false
    → All (OtherId b) (keep p bs)
kept_others p b [] h = tt
kept_others p b (c ∷ bs) h =
    ground (arith, kept_others p b bs, text_eq_iff b.id c.id, text_eq_iff c.id b.id)

kept-Apart : (p : BlockRow → Bool) (bs : List BlockRow) → UniqueIds bs → Apart OtherId (keep p bs)
kept-Apart p [] u = tt
kept-Apart p (b ∷ bs) (new, u) = ground (arith, kept-Apart p bs u, kept_others p b bs new)

abbrev Unripe : List BlockRow → BlockRow → Type 0
Unripe bs b = is_mature (block_status bs b.id) ≡ false

behind :
    (b : BlockRow) (bs : List BlockRow) (c : BlockRow)
    → OtherId b c × Unripe bs c
    → Unripe (b ∷ bs) c
unfolding block_status find_block
behind b bs c (p, q) = ground arith

pending_unripe : (s : BlockStatus) → is_pending s ≡ true → is_mature (some s) ≡ false
pending_unripe BlockStatus.pending h = refl
pending_unripe BlockStatus.mature h = cc
pending_unripe BlockStatus.orphan h = cc

kept-Unripe :
    (bs : List BlockRow) → UniqueIds bs → All (Unripe bs) (keep (λ b. is_pending b.status) bs)
unfolding block_status find_block
kept-Unripe [] u = tt
kept-Unripe (b ∷ bs) (new, u) =
    let rest = All-map (behind b bs) (keep (λ b. is_pending b.status) bs) (
      All-both (OtherId b) (Unripe bs) _ (kept_others (λ b. is_pending b.status) b bs new)
        (kept-Unripe bs u)) in
    elim (Bool-cases (is_pending b.status)) [
      | inl waits ↦ rw waits (rw (text_eq_refl b.id) (pending_unripe b.status waits), rest)
      | inr done ↦ rw done rest
    ]

-- What `PendingBlocks` returns.
pending_blocks-ok :
    (limit : ℤ) (db db' : Db) (blocks : List BlockRow)
    → pending_blocks limit db ≡ (ok blocks, db')
    → (blocks
        ≡ take
            (pos_part limit)
            (sort_slice lower (keep (λ b. is_pending b.status) db.tables.blocks)))
      × (db'.tables ≡ db.tables)
unfolding pending_blocks sql
pending_blocks-ok limit db db' blocks h = ground arith

pending_blocks-same : (limit : ℤ) (db : Db) → (pending_blocks limit db).1.tables ≡ db.tables
unfolding pending_blocks sql
pending_blocks-same limit db = ground arith

-- The status under another id.
set_block_state-other :
    (id j : Text) (known canonical : Bool) (confirmations tip : ℕ) (failure : Text) (db : Db)
    → text_eq id j ≡ false
    → is_mature (block_status db.tables.blocks j) ≡ false
    → is_mature (
        block_status
          (set_block_state id known canonical confirmations tip failure db).1.tables.blocks
          j)
      ≡ false
set_block_state-other id j known canonical confirmations tip failure db ne h =
    set_block_state-after (λ t. is_mature (block_status t.blocks j) ≡ false) id known canonical
      confirmations tip failure db h
      λ s.
        rw
          (block_status-update_ne id j (observed canonical confirmations s failure) db.tables.blocks
            (λ b. refl) ne)
          h

block_status-update_same :
    (p : BlockRow → Bool) (f : BlockRow → BlockRow) (j : Text) (blocks : List BlockRow)
    → ((b : BlockRow) → (f b).id ≡ b.id)
    → ((b : BlockRow) → (f b).status ≡ b.status)
    → block_status (update_where p f blocks) j ≡ block_status blocks j
unfolding update_where block_status find_block
block_status-update_same p f j [] same_id same = refl
block_status-update_same p f j (b ∷ blocks) same_id same =
    ground (arith, block_status-update_same p f j blocks same_id same, same_id b, same b)

set_block_error-other :
    (id j failure : Text) (db : Db)
    → block_status (set_block_error id failure db).1.tables.blocks j
      ≡ block_status db.tables.blocks j
unfolding set_block_error sql
set_block_error-other id j failure db =
    let p = λ (b : BlockRow). text_eq b.id id && is_pending b.status in
    let f = λ (b : BlockRow). let r : BlockRow = record b { last_error = truncate failure } in r in
    ground (arith, block_status-update_same p f j db.tables.blocks (λ b. refl) (λ b. refl))

observe_block-Ledger :
    (node : Node) (b : BlockRow) (db : Db)
    → NotMature db.tables b
    → Ledger db.tables
    → Ledger (observe_block node b db).tables
unfolding observe_block
observe_block-Ledger node b db h g = observe_answer (node.block_status b.id)
  where
    observe_answer : (a : Answer ObservedBlock) → Ledger (observe_with a b db).tables
    observe_answer (refused text) = set_block_error-Ledger b.id text db g
    observe_answer (answered s) =
        set_block_state-Ledger b.id s.known s.canonical s.confirmations s.tip_height [] db h g

observe_block-NotMature :
    (node : Node) (b c : BlockRow) (db : Db)
    → OtherId b c × NotMature db.tables c
    → NotMature (observe_block node b db).tables c
unfolding observe_block
observe_block-NotMature node b c db (ne, h) = observe_answer (node.block_status b.id)
  where
    observe_answer : (a : Answer ObservedBlock) → NotMature (observe_with a b db).tables c
    observe_answer (refused text) = rw (set_block_error-other b.id c.id text db) h
    observe_answer (answered s) =
        set_block_state-other b.id c.id s.known s.canonical s.confirmations s.tip_height [] db ne h

observe_blocks-Ledger :
    (node : Node) (bs : List BlockRow) (db : Db)
    → All (NotMature db.tables) bs
    → Apart OtherId bs
    → Ledger db.tables
    → Ledger (observe_blocks node bs db).tables
unfolding observe_blocks
observe_blocks-Ledger node [] db h d g = g
observe_blocks-Ledger node (b ∷ bs) db (n, h) (o, d) g =
    observe_blocks-Ledger node bs (observe_block node b db)
      (All-map (λ c. observe_block-NotMature node b c db) bs
        (All-both (OtherId b) (NotMature db.tables) bs o h))
      d (observe_block-Ledger node b db n g)

-- What a round over the pending blocks finds.
listed_blocks :
    (limit : ℤ) (t : Tables)
    → UniqueIds t.blocks
    → let bs =
        take (pos_part limit) (sort_slice lower (keep (λ b. is_pending b.status) t.blocks)) in
      All (NotMature t) bs × Apart OtherId bs
listed_blocks limit t u =
    let waiting = keep (λ b. is_pending b.status) t.blocks in
    (
      take-All (NotMature t) (pos_part limit) _
          (sort_slice-All lower (NotMature t) waiting (kept-Unripe t.blocks u)),
      take-Apart OtherId (pos_part limit) _ (
          sort_slice-Apart lower OtherId OtherId-symm waiting
            (kept-Apart (λ b. is_pending b.status) t.blocks u)),
    )

set_status-db :
    (status : NodeStatus) (problem : Option Problem) (now : Time) (s : State)
    → (set_status status problem now s).db ≡ s.db
unfolding set_status
set_status-db status problem now s = refl

sync_known-Ledger :
    (failure : Option Text) (node : Node) (status : NodeStatus) (now : Time) (s : State)
    → Ledger s.db.tables
    → Ledger (sync_known failure node status now s).db.tables
unfolding set_status
sync_known-Ledger (some text) node status now s g = g
sync_known-Ledger none node status now s g =
    elim (Result-cases (pending_blocks (pos 1_000) s.db).0) [
      | inr (e, p) ↦ rw p (rw (pending_blocks-same (pos 1_000) s.db) g)
      | inl (bs, p) ↦
          let db₁ = (pending_blocks (pos 1_000) s.db).1 in
          let (same, left) =
            pending_blocks-ok (pos 1_000) s.db db₁ bs
              (ap (λ x. let y : Result (List BlockRow) × Db = (x, db₁) in y) p) in
          let (unripe, apart) = listed_blocks (pos 1_000) s.db.tables g.unique_blocks in
          rw p
            (observe_blocks-Ledger node bs db₁ (rw (left, same) unripe) (rw same apart) (rw left g))
    ]

-- A round of `syncBlocks` on a well-formed database leaves a well-formed database, whatever the node answers and whichever
-- statement fails.
pub sync_blocks-Ledger :
    (node : Node) (now : Time) (s : State)
    → Ledger s.db.tables
    → Ledger (sync_blocks node now s).db.tables
unfolding sync_blocks set_status
sync_blocks-Ledger node now s g =
    sync_known-Ledger node.status.1 node node.status.0 now
      (set_status node.status.0 (node_problem node.status.1) now s) g
