-- ===== src/Stratum/Server/Served.antt =====
-- The invariant of the server under `submit`.
use mathlib.Core.Path.{subst}
use qday_pool.Prelude.{
  ℕ, ◌/◌, ◌≡◌, refl, Bool, true, false, not, Option, none, some, List, ◌∷◌, any, Text, text_eq,
  if◌then◌else◌, if_both, arith, Bool-cases, inl, inr, sym,
}
use qday_pool.Float.{Float}
use qday_pool.Store.Sql.{Result, ok, err, Db}
use qday_pool.Prelude.Hex.{hex_encode}
use qday_pool.Store.Shares.{record_share}
use qday_pool.Store.Allocate.{Allocation, allocate_block}
use qday_pool.Stratum.Clients.Frame.{accepted_at-IsFrame}
use qday_pool.Stratum.Bytes.{Bytes}
use qday_pool.Stratum.Config.{second}
use qday_pool.Stratum.Clients.{Client, Moment}
use qday_pool.Stratum.Clients.Vardiff.{InForce}
use qday_pool.Stratum.Clients.Paced.{accepted_at-IsPaced}
use qday_pool.Stratum.Clients.Jobs.{IsJob}
use qday_pool.Stratum.Work.{Job, Codec, Solution, solve, Checked, good, bad}
use qday_pool.Stratum.Server.{Server, Answer, Failure, with_client, find_client, publish_client}
use qday_pool.Stratum.Server.Submit.{
  State, NodeAnswer, Submission, submission, key_of, on_server, fail, succeed, block_answered,
  block_found, paced, retargets, share_stored, share_solved, store_failure, keep_submission,
  share_read, usable_job, on_job, on_params, submit, count_rejected, count_accepted, count_block,
  share_of, block_of, window_of, block_hex,
}
use qday_pool.Stratum.Server.Net.{HasTemplate, IsServer, with_client-IsNet}
use qday_pool.Stratum.Server.Publish.{respond-IsServer, publish_client-IsServer, frame-IsGood}

fail-IsServer :
    (id : ℕ) (request : Text) (f : Failure) (s : State)
    → IsServer s.server
    → IsServer (fail id request f s).server
fail-IsServer id request f s g = respond-IsServer id request (Answer.flag false) (some f) s.server g

succeed-IsServer :
    (id : ℕ) (request : Text) (s : State)
    → IsServer s.server
    → IsServer (succeed id request s).server
succeed-IsServer id request s g = respond-IsServer id request (Answer.flag true) none s.server g

block_answered-IsServer :
    (id : ℕ) (request predicted : Text) (answer : NodeAnswer) (s : State)
    → IsServer s.server
    → IsServer (block_answered id request predicted answer s).server
unfolding block_answered
block_answered-IsServer id request predicted none s g =
    fail-IsServer id request Failure.block_unresolved s g
block_answered-IsServer id request predicted (some block) s g =
    elim (Bool-cases (text_eq block predicted)) [
      | inl same ↦ rw same (succeed-IsServer id request (on_server count_block s) g)
      | inr other ↦ rw other (fail-IsServer id request Failure.other_block_id s g)
    ]

accounted :
    (id : ℕ) (request : Text) (solution : Solution) (answer : NodeAnswer) (s : State)
    → IsServer s.server
    → (db : Db) (r : Result (List Allocation))
    → IsServer
        (elim r as (λ _. State) [
          | err e ↦ fail id request Failure.block_unaccounted (record s { db = db })
          | ok allocations ↦ block_answered id request (hex_encode solution.hash) answer (record s {
            db = db;
            submitted = (hex_encode solution.hash, block_hex solution.block) ∷ s.submitted;
          })
        ]).server
accounted id request solution answer s g db (err e) =
    fail-IsServer id request Failure.block_unaccounted (record s { db = db }) g
accounted id request solution answer s g db (ok allocations) =
    block_answered-IsServer id request (hex_encode solution.hash) answer
      (record s {
        db = db;
        submitted = (hex_encode solution.hash, block_hex solution.block) ∷ s.submitted;
      })
      g

block_found-IsServer :
    (id : ℕ) (request : Text) (j : Job) (solution : Solution) (now : Moment) (share_id : ℕ)
    (answer : NodeAnswer) (s : State)
    → IsServer s.server
    → IsServer (block_found id request j solution now share_id answer s).server
unfolding block_found
block_found-IsServer id request j solution now share_id answer s g =
    let cfg = s.server.cfg in
    let call =
      allocate_block (block_of cfg j solution now share_id) (window_of cfg j) cfg.pool_fee_bps
        s.db in
    accounted id request solution answer s g call.1 call.0

paced-IsServer :
    (id : ℕ) (now : Moment) (d : Float) (s : Server)
    → InForce s.cfg d
    → IsServer s
    → IsServer (with_client id (paced s.cfg now d) s)
paced-IsServer id now d s f g =
    with_client-IsNet id (paced s.cfg now d)
      (λ c. let (e₁, e₂, e₃, _) = accepted_at-IsFrame s.cfg now d c in (e₁, e₂, e₃))
      (λ c h. record {
        paced = accepted_at-IsPaced s.cfg g.range now d c f h.paced;
        template = subst HasTemplate (sym (accepted_at-IsFrame s.cfg now d c).3) h.template;
      })
      g

publish_if :
    (b : Bool) (id unix : ℕ) (request : Text) (s : State)
    → IsServer s.server
    → IsServer
        (if b
          then on_server (publish_client id unix true) (succeed id request s)
          else succeed id request s).server
publish_if true id unix request s g =
    publish_client-IsServer id unix true (succeed id request s).server
      (succeed-IsServer id request s g)
publish_if false id unix request s g = succeed-IsServer id request s g

share_stored-IsServer :
    (id : ℕ) (request : Text) (j : Job) (solution : Solution) (now : Moment) (share_id : ℕ)
    (answer : NodeAnswer) (s : State)
    → InForce s.server.cfg j.difficulty
    → IsServer s.server
    → IsServer (share_stored id request j solution now share_id answer s).server
unfolding share_stored
share_stored-IsServer id request j solution now share_id answer s f g =
    let cfg = s.server.cfg in
    let s' = on_server (λ v. with_client id (paced cfg now j.difficulty) (count_accepted v)) s in
    let h = paced-IsServer id now j.difficulty (count_accepted s.server) f g in
    let P = λ (v : State). IsServer v.server in
    if_both P solution.network (block_found-IsServer id request j solution now share_id answer s' h)
      (publish_if (retargets cfg now j.difficulty (find_client id s.server.clients)) id
        (now / second) request s' h)

stored :
    (id : ℕ) (request : Text) (j : Job) (now : Moment) (answer : NodeAnswer) (solution : Solution)
    (s : State) (db : Db)
    → InForce s.server.cfg j.difficulty
    → IsServer s.server
    → (r : Result ℕ)
    → IsServer
        (elim r as (λ _. State) [
          | err e ↦
              fail id request (store_failure e) (on_server count_rejected (record s { db = db }))
          | ok share_id ↦
              share_stored id request j solution now share_id answer (record s { db = db })
        ]).server
stored id request j now answer solution s db f g (err e) =
    fail-IsServer id request (store_failure e) (on_server count_rejected (record s { db = db })) g
stored id request j now answer solution s db f g (ok share_id) =
    share_stored-IsServer id request j solution now share_id answer (record s { db = db }) f g

share_solved-IsServer :
    (id : ℕ) (request : Text) (j : Job) (now : Moment) (answer : NodeAnswer) (solution : Solution)
    (s : State)
    → InForce s.server.cfg j.difficulty
    → IsServer s.server
    → IsServer (share_solved id request j now answer solution s).server
unfolding share_solved
share_solved-IsServer id request j now answer solution s f g =
    let call = record_share (share_of j solution now) s.db in
    stored id request j now answer solution s call.1 f g call.0

module _ (blake2b : Bytes → Bytes) (codec : Codec) where
  judged :
      (c : Client) (request : Text) (j : Job) (now : Moment) (answer : NodeAnswer) (s : State)
      → InForce s.server.cfg j.difficulty
      → IsServer s.server
      → (r : Checked Solution)
      → IsServer
          (elim r as (λ _. State) [
            | bad e ↦ fail c.id request (Failure.bad_share e) (on_server count_rejected s)
            | good solution ↦ share_solved c.id request j now answer solution s
          ]).server
  judged c request j now answer s f g (bad e) =
      fail-IsServer c.id request (Failure.bad_share e) (on_server count_rejected s) g
  judged c request j now answer s f g (good solution) =
      share_solved-IsServer c.id request j now answer solution s f g

  share_read-IsServer :
      (c : Client) (request : Text) (j : Job) (sub : Submission) (now : Moment)
      (answer : NodeAnswer) (s : State)
      → InForce s.server.cfg j.difficulty
      → IsServer s.server
      → IsServer (share_read blake2b codec c request j sub now answer s).server
  unfolding share_read
  share_read-IsServer c request j sub now answer s f g =
      let kept = keep_submission (key_of sub) in
      let s' = on_server (with_client c.id kept) s in
      let h : IsServer s'.server =
        with_client-IsNet c.id kept (λ v. (refl, refl, refl))
          (λ v i. frame-IsGood s.server.cfg v (kept v) refl refl refl refl refl i) g in
      elim (Bool-cases (any (λ k. text_eq k (key_of sub)) c.submits)) [
        | inl known ↦
            rw known
              (fail-IsServer c.id request Failure.duplicate_share (on_server count_rejected s) g)
        | inr new ↦ rw new (
            judged c request j now answer s' f h
              (solve blake2b codec j sub.extra_nonce2 sub.time sub.nonce))
      ]

  on_job-IsServer :
      (c : Client) (request : Text) (o : Option Job) (sub : Submission) (now : Moment)
      (answer : NodeAnswer) (s : State)
      → ((j : Job) → o ≡ some j → IsJob s.server.cfg j)
      → IsServer s.server
      → IsServer (on_job blake2b codec c request o sub now answer s).server
  on_job-IsServer c request none sub now answer s h g =
      fail-IsServer c.id request Failure.stale_job (on_server count_rejected s) g
  on_job-IsServer c request (some j) sub now answer s h g =
      share_read-IsServer c request j sub now answer s (IsJob.in_force (h j refl)) g

  usable :
      (id : ℕ) (parent : Bytes) (o : Option Job) (j : Job)
      → usable_job id parent o ≡ some j
      → o ≡ some j
  usable id parent none j h = absurd (cc)
  usable id parent (some i) j h = ground (arith, h)

  on_params-IsServer :
      (c : Client) (request : Text) (o : Option Submission) (now : Moment) (answer : NodeAnswer)
      (s : State)
      → IsServer s.server
      → IsServer (on_params blake2b codec c request o now answer s).server
  on_params-IsServer c request none now answer s g =
      fail-IsServer c.id request Failure.bad_submit s g
  on_params-IsServer c request (some sub) now answer s g =
      on_job-IsServer c request (usable_job c.id s.server.parent (s.server.jobs sub.job)) sub now
        answer s (λ j h. g.made sub.job j (usable c.id s.server.parent (s.server.jobs sub.job) j h))
        g

  -- A share, whatever becomes of it, keeps the invariant.
  pub submit-IsServer :
      (c : Client) (request : Text) (params : Option (List Text)) (now : Moment)
      (answer : NodeAnswer) (s : State)
      → IsServer s.server
      → IsServer (submit blake2b codec c request params now answer s).server
  unfolding submit
  submit-IsServer c request params now answer s g =
      let o = elim params as (λ _. Option Submission) [
        | none ↦ none
        | some texts ↦ submission texts
      ] in
      let P = λ (v : State). IsServer v.server in
      if_both P (not c.authorized) (fail-IsServer c.id request Failure.unauthorized s g)
        (on_params-IsServer c request o now answer s g)
