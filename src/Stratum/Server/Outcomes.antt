-- ===== src/Stratum/Server/Outcomes.antt =====
-- What `client.submit` does to the database and gives to the node.
use qday_pool.Prelude.{◌≡◌, true, false, Option, none, some, List, Text, text_eq, any}
use qday_pool.Stratum.Bytes.{Bytes}
use qday_pool.Stratum.Clients.{Client, Moment}
use qday_pool.Stratum.Work.{Job, Codec, SolveError, good, bad, Solution, solve}
use qday_pool.Stratum.Server.Submit.{State, Submission, key_of, submission, usable_job}
use qday_pool.Stratum.Server.Stored.{IsSame, Stored}

-- The submission that a request's texts make, as `submit` reads it.
abbrev pub read_params : Option (List Text) → Option Submission
read_params params = elim params [ none ↦ none | some texts ↦ submission texts ]

module _ (blake2b : Bytes → Bytes) (codec : Codec) where
  -- A solved share: the job is the client's, on the current parent, and the submission solves it.
  pub record IsSolved (c : Client) (o : Option Submission) (s : State) (j : Job)
      (solution : Solution) : Type 0 where
    pub submission : Submission
    pub read : o ≡ some submission
    pub authorized : c.authorized ≡ true
    pub remembered : s.server.jobs submission.job ≡ some j
    pub owned : j.owner ≡ c.id
    pub current : text_eq j.template.parent s.server.parent ≡ true
    pub fresh : any (λ k. text_eq k (key_of submission)) c.submits ≡ false
    pub solved :
        solve blake2b codec j submission.extra_nonce2 submission.time submission.nonce
        ≡ good solution

  -- Why a submission is rejected before the store is asked.
  pub data Rejection (c : Client) (o : Option Submission) (s : State) : Type 0 where
    unauthorized : c.authorized ≡ false → Rejection c o s
    malformed : o ≡ none → Rejection c o s
    stale :
        (sub : Submission)
        → o ≡ some sub
        → usable_job c.id s.server.parent (s.server.jobs sub.job) ≡ none
        → Rejection c o s
    repeated :
        (sub : Submission)
        → o ≡ some sub
        → any (λ k. text_eq k (key_of sub)) c.submits ≡ true
        → Rejection c o s
    unsolved :
        (sub : Submission) (j : Job) (e : SolveError)
        → o ≡ some sub
        → s.server.jobs sub.job ≡ some j
        → solve blake2b codec j sub.extra_nonce2 sub.time sub.nonce ≡ bad e
        → Rejection c o s

  -- The outcomes of a submission, from `s` to `t`.
  pub data Outcome (c : Client) (o : Option Submission) (now : Moment) (s t : State) : Type 0 where
    rejected : Rejection c o s → IsSame s t → Outcome c o now s t
    judged :
        (j : Job) (solution : Solution)
        → IsSolved c o s j solution
        → Stored s.server.cfg j solution now s t
        → Outcome c o now s t
