-- ===== src/Stratum/Server/Submit.antt =====
-- `client.submit`: a share, from its request to the store and, where it solves the block, to the node.
use qday_pool.Prelude.{
  ℕ, ◌+◌, ◌*◌, ◌/◌, ◌%◌, Bool, true, false, not, ◌||◌, ◌==◌, Option, none, some, List, [], ◌∷◌,
  ◌++◌, Text, text_eq, leb, any, length, if◌then◌else◌,
}
use qday_pool.Prelude.Hex.{hex_encode}
use qday_pool.Prelude.Int.{ℤ, pos}
use qday_pool.Float.{Float}
use qday_pool.Store.Sql.{ok, err, Error, Db}
use qday_pool.Store.Shares.{Share, record_share}
use qday_pool.Store.Allocate.{FoundBlock, allocate_block}
use qday_pool.Stratum.Bytes.{Bytes}
use qday_pool.Stratum.Config.{Config, second}
use qday_pool.Stratum.Clients.{Client, Moment, u64, accepted_at}
use qday_pool.Stratum.Work.{Job, Codec, good, bad, Solution, solve, target_work}
use qday_pool.Stratum.Server.{
  Server, flag, Failure, duplicate_share, unauthorized, bad_submit, stale_job, bad_share,
  no_accounting, block_unaccounted, block_unresolved, other_block_id, find_client, with_client,
  respond, publish_client,
}

-- The server, the database that its store is on, and the blocks that the node was asked to take: the
-- ID that the pool predicts, and the block in hexadecimal.
pub record State : Type 0 where
  pub server : Server
  pub db : Db
  pub submitted : List (Text × Text)

-- `SubmitBlock`: the block ID that the node answers, or an error.
abbrev pub NodeAnswer : Type 0
NodeAnswer = Option Text

pub record Submission : Type 0 where
  pub job : Text
  pub extra_nonce2 : Text
  pub time : Text
  pub nonce : Text

-- The worker's name, the first of five texts, is not read.
abbrev pub submission : List Text → Option Submission
submission (worker ∷ job ∷ extra_nonce2 ∷ time ∷ nonce ∷ []) =
    some (record { job = job; extra_nonce2 = extra_nonce2; time = time; nonce = nonce })
submission _ = none

-- `strings.Join(params[1:], ":")`
abbrev pub key_of : Submission → Text
key_of s = s.job ++ (b':' ∷ s.extra_nonce2 ++ (b':' ∷ s.time ++ b':' ∷ s.nonce))

abbrev pub max_submissions : ℕ
max_submissions = 8_192

-- The keys that a client's map holds; a full map is emptied first.
unfoldable pub add_submission : Text → List Text → List Text
add_submission key submits =
    if leb max_submissions (length submits) then key ∷ [] else key ∷ submits

abbrev pub count_rejected : Server → Server
count_rejected s = record s { rejected_shares = (s.rejected_shares + 1) % u64 }

abbrev pub count_accepted : Server → Server
count_accepted s = record s { accepted_shares = (s.accepted_shares + 1) % u64 }

abbrev pub count_block : Server → Server
count_block s = record s { blocks_found = (s.blocks_found + 1) % u64 }

-- The job that a client may submit to: its own, on the current parent.
abbrev pub usable_job : ℕ → Bytes → Option Job → Option Job
usable_job id parent none = none
usable_job id parent (some j) =
    if not (j.owner == id) || not (text_eq j.template.parent parent) then none else some j

abbrev pub milliseconds : Moment → ℤ
milliseconds now = pos (now / 1_000_000)

abbrev pub share_of : Job → Solution → Moment → Share
share_of j solution now = record {
  created_at = milliseconds now;
  height = j.template.height;
  parent_id = hex_encode j.template.parent;
  job_id = j.id;
  address = j.address;
  worker = j.worker;
  difficulty = j.difficulty;
  work = some (pos (target_work j.share_target));
  hash = hex_encode solution.hash;
}

abbrev pub block_of : Config → Job → Solution → Moment → ℕ → FoundBlock
block_of cfg j solution now share_id = record {
  id = hex_encode solution.hash;
  height = j.template.height;
  found_at = milliseconds now;
  found_by_address = j.address;
  found_by_worker = j.worker;
  reward_atomic = j.template.reward_atomic;
  fees_atomic = j.template.fees_atomic;
  maturity_height = (j.template.height + cfg.maturity_blocks) % u64;
  cutoff_share_id = share_id;
}

abbrev pub window_of : Config → Job → Option ℤ
window_of cfg j = some (pos (target_work j.template.target * cfg.pplns_window))

abbrev pub on_server : (Server → Server) → State → State
on_server f s = record s { server = f s.server }

abbrev pub fail : ℕ → Text → Failure → State → State
fail id request failure = on_server (respond id request (flag false) (some failure))

abbrev pub succeed : ℕ → Text → State → State
succeed id request = on_server (respond id request (flag true) none)

-- Behind `SubmitBlock`.
unfoldable pub block_answered : ℕ → Text → Text → NodeAnswer → State → State
block_answered id request predicted none s = fail id request block_unresolved s
block_answered id request predicted (some block) s =
    if not (text_eq block predicted)
    then fail id request other_block_id s
    else succeed id request (on_server count_block s)

-- A block's bytes in hexadecimal; without a block, of no bytes.
abbrev pub block_hex : Option Bytes → Text
block_hex none = []
block_hex (some b) = hex_encode b

-- A share that solves the block: first the accounting, then the node.
unfoldable pub block_found : ℕ → Text → Job → Solution → Moment → ℕ → NodeAnswer → State → State
block_found id request j solution now share_id answer s =
    let cfg = s.server.cfg in
    let (r, db) =
      allocate_block (block_of cfg j solution now share_id) (window_of cfg j) cfg.pool_fee_bps
        s.db in
    let s' : State = record s { db = db } in
    elim r [
      | err e ↦ fail id request block_unaccounted s'
      | ok allocations ↦ block_answered id request (hex_encode solution.hash) answer (record s' {
        submitted = (hex_encode solution.hash, block_hex solution.block) ∷ s.submitted;
      })
    ]

abbrev pub paced : Config → Moment → Float → Client → Client
paced cfg now difficulty c = (accepted_at cfg now difficulty c).1

abbrev pub retargets : Config → Moment → Float → Option Client → Bool
retargets cfg now difficulty none = false
retargets cfg now difficulty (some c) = (accepted_at cfg now difficulty c).0

-- A share in the store.
unfoldable pub share_stored : ℕ → Text → Job → Solution → Moment → ℕ → NodeAnswer → State → State
share_stored id request j solution now share_id answer s =
    let cfg = s.server.cfg in
    let retarget = retargets cfg now j.difficulty (find_client id s.server.clients) in
    let s' = on_server (λ v. with_client id (paced cfg now j.difficulty) (count_accepted v)) s in
    if solution.network
    then block_found id request j solution now share_id answer s'
    else if retarget
    then on_server (publish_client id (now / second) true) (succeed id request s')
    else succeed id request s'

abbrev pub store_failure : Error → Failure
store_failure Error.duplicate_share = duplicate_share
store_failure _ = no_accounting

-- A share that is good: the store decides whether it counts.
unfoldable pub share_solved : ℕ → Text → Job → Moment → NodeAnswer → Solution → State → State
share_solved id request j now answer solution s =
    let (r, db) = record_share (share_of j solution now) s.db in
    let s' : State = record s { db = db } in
    elim r [
      | err e ↦ fail id request (store_failure e) (on_server count_rejected s')
      | ok share_id ↦ share_stored id request j solution now share_id answer s'
    ]

abbrev pub keep_submission : Text → Client → Client
keep_submission key c = record c { submits = add_submission key c.submits }

module _ (blake2b : Bytes → Bytes) (codec : Codec) where
  -- A share on a job that the client may submit to.
  unfoldable pub share_read : Client → Text → Job → Submission → Moment → NodeAnswer → State → State
  share_read c request j sub now answer s =
      if any (λ k. text_eq k (key_of sub)) c.submits
      then fail c.id request duplicate_share (on_server count_rejected s)
      else (let s' = on_server (with_client c.id (keep_submission (key_of sub))) s in
          elim (solve blake2b codec j sub.extra_nonce2 sub.time sub.nonce) [
            | bad e ↦ fail c.id request (bad_share e) (on_server count_rejected s')
            | good solution ↦ share_solved c.id request j now answer solution s'
          ])

  abbrev pub on_job : Client → Text → Option Job → Submission → Moment → NodeAnswer → State → State
  on_job c request none sub now answer s = fail c.id request stale_job (on_server count_rejected s)
  on_job c request (some j) sub now answer s = share_read c request j sub now answer s

  abbrev pub on_params : Client → Text → Option Submission → Moment → NodeAnswer → State → State
  on_params c request none now answer s = fail c.id request bad_submit s
  on_params c request (some sub) now answer s =
      on_job c request (usable_job c.id s.server.parent (s.server.jobs sub.job)) sub now answer s

  -- `submit` of a client, with the texts of the request's parameters.
  unfoldable pub submit : Client → Text → Option (List Text) → Moment → NodeAnswer → State → State
  submit c request params now answer s =
      if not c.authorized
      then fail c.id request unauthorized s
      else on_params c request (elim params [ none ↦ none | some texts ↦ submission texts ]) now
          answer s
