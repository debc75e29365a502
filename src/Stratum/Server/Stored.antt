-- ===== src/Stratum/Server/Stored.antt =====
-- What becomes of a share that solves a job: the store, and then the node.
use qday_pool.Prelude.{
  ℕ, ◌/◌, ◌≡◌, refl, Bool, true, false, not, none, some, List, ◌∷◌, Text, text_eq, if◌then◌else◌,
  if_both, arith, ap, sym, ◌∙◌,
}
use qday_pool.Prelude.Hex.{hex_encode}
use qday_pool.Store.Sql.{Result, ok, err, Error, Db, sql}
use qday_pool.Store.Shares.{Share, record_share, insert_share}
use qday_pool.Store.Allocate.{Allocation, allocate_block}
use qday_pool.Stratum.Config.{Config, second}
use qday_pool.Stratum.Clients.{Moment}
use qday_pool.Stratum.Work.{Job, Solution}
use qday_pool.Stratum.Server.{Failure, find_client, with_client, publish_client}
use qday_pool.Stratum.Server.Submit.{
  State, NodeAnswer, share_of, block_of, window_of, on_server, fail, succeed, block_answered,
  block_hex, block_found, paced, retargets, share_stored, store_failure, share_solved,
  count_rejected, count_accepted,
}

-- The two parts of the state that are not the server's.
pub record IsSame (s t : State) : Type 0 where
  pub tables : t.db.tables ≡ s.db.tables
  pub submitted : t.submitted ≡ s.submitted

record_share-err :
    (share : Share) (db db' : Db) (e : Error)
    → record_share share db ≡ (err e, db')
    → db'.tables ≡ db.tables
unfolding record_share sql insert_share
record_share-err share db db' e h = ground (arith, h)

-- The outcomes of a solved share on job `j` under the configuration `cfg`, from `s` to `t`.
pub data Stored (cfg : Config) (j : Job) (solution : Solution) (now : Moment) (s t : State)
    : Type 0 where
  -- The store refuses the share, and nothing changes.
  refused :
      (e : Error)
      → record_share (share_of j solution now) s.db ≡ (err e, t.db)
      → IsSame s t
      → Stored cfg j solution now s t
  -- The share is recorded, and solves no block.
  recorded :
      (id : ℕ)
      → record_share (share_of j solution now) s.db ≡ (ok id, t.db)
      → solution.network ≡ false
      → t.submitted ≡ s.submitted
      → Stored cfg j solution now s t
  -- The share is recorded and solves a block whose allocation fails: the node is not asked.
  unaccounted :
      (id : ℕ) (db : Db) (e : Error)
      → record_share (share_of j solution now) s.db ≡ (ok id, db)
      → solution.network ≡ true
      → allocate_block (block_of cfg j solution now id) (window_of cfg j) cfg.pool_fee_bps db
        ≡ (err e, t.db)
      → t.submitted ≡ s.submitted
      → Stored cfg j solution now s t
  -- The share is recorded, its block's allocation is committed, and the node is given the block.
  given :
      (id : ℕ) (db : Db) (allocations : List Allocation)
      → record_share (share_of j solution now) s.db ≡ (ok id, db)
      → solution.network ≡ true
      → allocate_block (block_of cfg j solution now id) (window_of cfg j) cfg.pool_fee_bps db
        ≡ (ok allocations, t.db)
      → t.submitted ≡ (hex_encode solution.hash, block_hex solution.block) ∷ s.submitted
      → Stored cfg j solution now s t

block_answered-same :
    (id : ℕ) (request predicted : Text) (answer : NodeAnswer) (s : State)
    → ((block_answered id request predicted answer s).db ≡ s.db)
      × ((block_answered id request predicted answer s).submitted ≡ s.submitted)
unfolding block_answered
block_answered-same id request predicted none s = (refl, refl)
block_answered-same id request predicted (some block) s =
    if_both (λ (t : State). (t.db ≡ s.db) × (t.submitted ≡ s.submitted))
      (not (text_eq block predicted)) (refl, refl) (refl, refl)

module _ (id : ℕ) (request : Text) (j : Job) (solution : Solution) (now : Moment)
    (answer : NodeAnswer) (s : State) where
  accounted :
      (cfg : Config) (share_id : ℕ) (before : Db) (r : Result (List Allocation)) (db : Db)
      (s' : State)
      → record_share (share_of j solution now) s.db ≡ (ok share_id, before)
      → solution.network ≡ true
      → allocate_block
          (block_of cfg j solution now share_id)
          (window_of cfg j)
          cfg.pool_fee_bps
          before
        ≡ (r, db)
      → s'.submitted ≡ s.submitted
      → Stored cfg j solution now s (elim r as (λ _. State) [
        | err e ↦ fail id request Failure.block_unaccounted (record s' { db = db })
        | ok allocations ↦ block_answered id request (hex_encode solution.hash) answer (record s' {
          db = db;
          submitted = (hex_encode solution.hash, block_hex solution.block) ∷ s'.submitted;
        })
      ])
  accounted cfg share_id before (err e) db s' stored net call same =
      unaccounted share_id before e stored net call same
  accounted cfg share_id before (ok allocations) db s' stored net call same =
      let t : State = record s' {
        db = db;
        submitted = (hex_encode solution.hash, block_hex solution.block) ∷ s'.submitted;
      } in
      let (d, b) = block_answered-same id request (hex_encode solution.hash) answer t in
      given share_id before allocations stored net
        (call
          ∙ ap (λ (x : Db). let y : Result (List Allocation) × Db = (ok allocations, x) in y)
              (sym d))
        (b
          ∙ ap
              (λ (l : List (Text × Text)). (hex_encode solution.hash, block_hex solution.block) ∷ l)
              same)

  stored_if :
      (b : Bool) (retarget : Bool) (share_id : ℕ) (v : State)
      → record_share (share_of j solution now) s.db ≡ (ok share_id, v.db)
      → v.submitted ≡ s.submitted
      → solution.network ≡ b
      → Stored v.server.cfg j solution now s (
          if b
          then block_found id request j solution now share_id answer v
          else if retarget
          then on_server (publish_client id (now / second) true) (succeed id request v)
          else succeed id request v)
  unfolding block_found
  stored_if true retarget share_id v stored same net =
      let c = v.server.cfg in
      let call =
        allocate_block (block_of c j solution now share_id) (window_of c j) c.pool_fee_bps v.db in
      accounted c share_id v.db call.0 call.1 v stored net refl same
  stored_if false true share_id v stored same net = recorded share_id stored net same
  stored_if false false share_id v stored same net = recorded share_id stored net same

  share_stored-Stored :
      (share_id : ℕ) (s' : State)
      → record_share (share_of j solution now) s.db ≡ (ok share_id, s'.db)
      → s'.submitted ≡ s.submitted
      → Stored s'.server.cfg j solution now s
          (share_stored id request j solution now share_id answer s')
  unfolding share_stored
  share_stored-Stored share_id s' stored same =
      let retarget = retargets s'.server.cfg now j.difficulty (find_client id s'.server.clients) in
      let v =
        on_server (λ w. with_client id (paced s'.server.cfg now j.difficulty) (count_accepted w))
          s' in
      stored_if solution.network retarget share_id v stored same refl

  solved :
      (r : Result ℕ) (db : Db) (s' : State)
      → record_share (share_of j solution now) s.db ≡ (r, db)
      → s'.submitted ≡ s.submitted
      → Stored s'.server.cfg j solution now s (elim r as (λ _. State) [
        | err e ↦
            fail id request (store_failure e) (on_server count_rejected (record s' { db = db }))
        | ok share_id ↦
            share_stored id request j solution now share_id answer (record s' { db = db })
      ])
  solved (err e) db s' call same = refused e call (record {
    tables = record_share-err (share_of j solution now) s.db db e call;
    submitted = same;
  })
  solved (ok share_id) db s' call same =
      share_stored-Stored share_id (record s' { db = db }) call same

  pub share_solved-Stored :
      (s' : State)
      → s'.db ≡ s.db
      → s'.submitted ≡ s.submitted
      → Stored s'.server.cfg j solution now s (share_solved id request j now answer solution s')
  unfolding share_solved
  share_solved-Stored s' db same =
      let call = record_share (share_of j solution now) s'.db in
      solved call.0 call.1 s' (ap (record_share (share_of j solution now)) (sym db)) same
