-- ===== src/Stratum/Server/Publish.antt =====
-- The invariant of the server under messages and jobs.
use mathlib.Core.Path.{subst, fun_ext}
use qday_pool.Prelude.{
  ℕ, ◌+◌, ◌%◌, ◌≡◌, refl, Bool, true, false, not, ◌==◌, Option, none, some, List, [], ◌∷◌, leb, ltb,
  Text, if◌then◌else◌, arith, All, Bool-cases, Option-cases, inl, inr,
}
use qday_pool.Float.{Float, eq, le}
use qday_pool.Stratum.Config.{Config}
use qday_pool.Stratum.Clients.{Client, new_job, job_timestamp, u64}
use qday_pool.Stratum.Clients.Jobs.{IsTemplate, new_job_total}
use qday_pool.Stratum.Work.{WorkTemplate, Job, notify_params}
use qday_pool.Stratum.Server.{
  Server, Answer, Failure, Message, set_difficulty, notify, find_client, with_client, can_write,
  send, respond, remember, hex_number, announce, sent_job, send_job, publish_template,
  publish_client, close,
}
use qday_pool.Stratum.Server.Net.{IsGood, HasTemplate, IsServer, Keeps, with_client-IsNet}
use qday_pool.Stratum.Server.Close.{close-IsServer}
use qday_pool.Stratum.Server.Evictions.{remember-IsServer}

send_if :
    (id : ℕ) (m : Message) (s : Server)
    → IsServer s
    → (b : Bool)
    → IsServer
        (if◌then◌else◌ {A = Bool × Server} b
          (true, record s { sent = (id, m) ∷ s.sent })
          (false, close id s)).1
send_if id m s g true = g
send_if id m s g false = close-IsServer id s g

pub send-IsServer : (id : ℕ) (m : Message) (s : Server) → IsServer s → IsServer (send id m s).1
unfolding send
send-IsServer id m s g = send_if id m s g (can_write (find_client id s.clients))

pub respond-IsServer :
    (id : ℕ) (request : Text) (a : Answer) (f : Option Failure) (s : Server)
    → IsServer s
    → IsServer (respond id request a f s)
unfolding respond
respond-IsServer id request a f s g = send-IsServer id (Message.response request a f) s g

new_job-client :
    (t : WorkTemplate) (id : Text) (sequence unix : ℕ) (d : Float) (c : Client)
    → (new_job t id sequence c unix d).1
      ≡ (job_timestamp (if ltb unix t.timestamp then t.timestamp else unix) c).1
unfolding new_job
new_job-client t id sequence unix d c = elim (Bool-cases (le t.network_diff d)) [
  | inl hard ↦ rw hard refl
  | inr easy ↦ rw easy refl
]

stamped-Keeps : (candidate : ℕ) → Keeps (λ c. (job_timestamp candidate c).1)
unfolding job_timestamp
stamped-Keeps candidate c = (refl, refl, refl)

-- A change of a client that leaves its pacing and its template alone.
pub frame-IsGood :
    (cfg : Config) (c d : Client)
    → d.difficulty ≡ c.difficulty
    → d.vardiff_started ≡ c.vardiff_started
    → d.vardiff_difficulty ≡ c.vardiff_difficulty
    → d.vardiff_shares ≡ c.vardiff_shares
    → d.template ≡ c.template
    → IsGood cfg c
    → IsGood cfg d
frame-IsGood cfg c d e₁ e₂ e₃ e₄ e₅ g = record {
  paced = record {
    current = rw e₁ g.paced.current;
    window = rw (e₂, e₃) g.paced.window;
    counted = rw e₄ g.paced.counted;
  };
  template = rw e₅ g.template;
}

new_job-IsServer :
    (t : WorkTemplate) (text : Text) (sequence unix id : ℕ) (d : Float) (s : Server)
    → IsServer s
    → IsServer (with_client id (λ v. (new_job t text sequence v unix d).1) s)
new_job-IsServer t text sequence unix id d s g =
    let candidate = if ltb unix t.timestamp then t.timestamp else unix in
    rw (fun_ext (new_job-client t text sequence unix d)) (
      with_client-IsNet id (λ v. (job_timestamp candidate v).1) (stamped-Keeps candidate)
        (λ c h. unfold job_timestamp in frame-IsGood s.cfg c _ refl refl refl refl refl h) g)

announce-IsServer :
    (id : ℕ) (changed : Bool) (j : Job) (clean : Bool) (s : Server)
    → IsServer s
    → IsServer (announce id changed j clean s)
unfolding announce
announce-IsServer id false j clean s g = send-IsServer id (notify (notify_params j clean)) s g
announce-IsServer id true j clean s g =
    let first = send id (set_difficulty j.difficulty) s in
    let h = send-IsServer id (set_difficulty j.difficulty) s g in
    elim (Bool-cases first.0) [
      | inl sent ↦ rw sent (send-IsServer id (notify (notify_params j clean)) first.1 h)
      | inr unsent ↦ rw unsent h
    ]

send_job-IsServer :
    (c : Client) (j : Job) (clean : Bool) (s : Server)
    → IsServer s
    → IsServer (send_job c j clean s)
unfolding send_job
send_job-IsServer c j clean s g = elim (Bool-cases (leb j.sequence c.last_job)) [
  | inl old ↦ rw old g
  | inr new ↦ rw new (
      announce-IsServer c.id (not (eq c.last_diff j.difficulty)) j clean
        (with_client c.id (sent_job j) s)
        (with_client-IsNet c.id (sent_job j) (λ v. (refl, refl, refl))
          (λ v h. frame-IsGood s.cfg v (sent_job j v) refl refl refl refl refl h) g))
]

found-IsGood :
    (cfg : Config) (id : ℕ) (cs : List Client) (c : Client)
    → All (IsGood cfg) cs
    → find_client id cs ≡ some c
    → IsGood cfg c
found-IsGood cfg id [] c h found = absurd (cc)
found-IsGood cfg id (d ∷ cs) c (p, h) found = elim (Bool-cases (d.id == id)) [
  | inl here ↦ subst (IsGood cfg) (ground (arith, found, here)) p
  | inr other ↦ found-IsGood cfg id cs c h (ground (arith, found, other))
]

publish_template-IsServer :
    (c : Client) (t : WorkTemplate) (unix : ℕ) (clean : Bool) (s : Server)
    → IsGood s.cfg c
    → IsTemplate t
    → IsServer s
    → IsServer (publish_template c t unix clean s)
unfolding publish_template
publish_template-IsServer c t unix clean s good ok g =
    let sequence = (s.sequence + 1) % u64 in
    let text = hex_number 16 sequence in
    let (j, made, job, _, _, _, _) =
      new_job_total s.cfg t ok text sequence unix c c.difficulty good.paced.current in
    let s' : Server =
      with_client c.id (λ v. (new_job t text sequence v unix c.difficulty).1)
        (record s { sequence = sequence }) in
    let h =
      new_job-IsServer t text sequence unix c.id c.difficulty (record s { sequence = sequence })
        g in
    rw (made, publish_template)
      (send_job-IsServer c j clean (remember j s') (remember-IsServer j s' job h))

publish_on :
    (c : Client) (unix : ℕ) (clean : Bool) (s : Server)
    → IsGood s.cfg c
    → IsServer s
    → (o : Option WorkTemplate) → c.template ≡ o
    → IsServer (elim o [ none ↦ s | some t ↦ publish_template c t unix clean s ])
publish_on c unix clean s good g none e = g
publish_on c unix clean s good g (some t) e =
    publish_template-IsServer c t unix clean s good (subst HasTemplate e good.template) g

-- `publishClient` keeps the invariant.
pub publish_client-IsServer :
    (id unix : ℕ) (clean : Bool) (s : Server)
    → IsServer s
    → IsServer (publish_client id unix clean s)
unfolding publish_client
publish_client-IsServer id unix clean s g = elim (Option-cases (find_client id s.clients)) [
  | inl unknown ↦ rw (unknown, publish_client) g
  | inr (c, found) ↦
      let good = found-IsGood s.cfg id s.clients c g.good found in
      rw (found, publish_client) (publish_on c unix clean s good g c.template refl)
]
