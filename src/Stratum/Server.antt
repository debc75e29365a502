-- ===== src/Stratum/Server.antt =====
-- `Server` of internal/stratum/server.go: connections, jobs and messages. A handler runs as one step;
-- what a client is sent is appended to `sent`.
pub mod Submit
pub mod Handlers
pub mod Snapshots
pub mod Rounds
pub mod Net
pub mod Close
pub mod Evictions
pub mod Publish
pub mod Served
pub mod Numbers
pub mod Requests
pub mod Handled
pub mod Looped
pub mod Started
pub mod Reach
pub mod Stored
pub mod Outcomes
use qday_pool.Prelude.{
  ℕ, zero, suc, ◌+◌, ◌-◌, ◌*◌, ◌/◌, ◌%◌, ◌^◌, Bool, true, false, not, ◌&&◌, ◌||◌, ◌==◌, Option,
  none, some, List, [], ◌∷◌, ◌++◌, map, replicate, Text, text_eq, leb, ltb, keep, length,
  if◌then◌else◌,
}
use qday_pool.Prelude.Hex.{hex_digit}
use qday_pool.Prelude.Int.{ℤ, pos, pos_part}
use mathlib.Core.Option
use qday_pool.Float.{Float, eq}
use qday_pool.Stratum.Bytes.{Bytes, little_endian}
use qday_pool.Stratum.Config.{Config, zero_float, checked_config}
use qday_pool.Stratum.Clients.{Client, Moment, new_client, new_job, u64}
use qday_pool.Stratum.Work.{WorkTemplate, Job, Notify, notify_params, SolveError}

-- The failures of a request, one for each message.
pub data Failure : Type 0 where
  parse_error : Failure
  no_method : Failure
  not_started : Failure
  not_subscribed : Failure
  already_authorized : Failure
  bad_username : Failure
  bad_password_difficulty : Failure
  bad_suggestion : Failure
  unauthorized : Failure
  bad_submit : Failure
  stale_job : Failure
  duplicate_share : Failure
  bad_share : SolveError → Failure
  no_accounting : Failure
  block_unaccounted : Failure
  block_unresolved : Failure
  other_block_id : Failure

pub data Answer : Type 0 where
  null : Answer
  flag : Bool → Answer
  empty_map : Answer
  subscription : Bytes → ℕ → Answer

pub data Message : Type 0 where
  response : Text → Answer → Option Failure → Message
  set_difficulty : Float → Message
  notify : Notify → Message

pub record Server : Type 0 where
  pub cfg : Config
  pub clients : List Client
  pub next_id : ℕ
  pub ip_clients : Text → ℕ
  pub jobs : Text → Option Job
  pub job_order : List Text
  pub parent : Bytes
  pub height : ℕ
  pub long_poll_id : Text
  pub ready : Bool
  pub has_error : Bool
  pub tx_count : ℤ
  pub network_diff : Float
  pub network_hash : Float
  pub network_work : ℕ
  pub extra1_size : ℕ
  pub extra2_size : ℕ
  pub sequence : ℕ
  pub work_sequence : ℕ
  pub extra_sequence : ℕ
  pub accepted_shares : ℕ
  pub rejected_shares : ℕ
  pub blocks_found : ℕ
  pub sent : List (ℕ × Message)

abbrev pub started : Option Bytes → Config → Server
started seed cfg = record {
  cfg = cfg;
  clients = [];
  next_id = 0;
  ip_clients = λ ip. 0;
  jobs = λ id. none;
  job_order = [];
  parent = replicate 32 0;
  height = 0;
  long_poll_id = [];
  ready = false;
  has_error = false;
  tx_count = pos 0;
  network_diff = zero_float;
  network_hash = zero_float;
  network_work = 0;
  extra1_size = 0;
  extra2_size = 0;
  sequence = 0;
  work_sequence = 0;
  extra_sequence = elim seed [ none ↦ 0 | some bytes ↦ little_endian bytes ];
  accepted_shares = 0;
  rejected_shares = 0;
  blocks_found = 0;
  sent = [];
}

-- The `Server` of `NewServer`, where `seed` is what `rand.Read` gives.
unfoldable pub new_server : Option Bytes → Config → Option Server
new_server seed given = Option.map (started seed) (checked_config given)

abbrev pub find_client : ℕ → List Client → Option Client
find_client id [] = none
find_client id (c ∷ cs) = if c.id == id then some c else find_client id cs

-- The object at a pointer, changed.
unfoldable pub update_client : ℕ → (Client → Client) → List Client → List Client
update_client id f = map (λ c. if c.id == id then f c else c)

abbrev pub with_client : ℕ → (Client → Client) → Server → Server
with_client id f s = record s { clients = update_client id f s.clients }

abbrev pub is_open_at : Text → Client → Bool
is_open_at ip c = c.is_open && text_eq c.ip ip

-- `len(s.clients)`: the map holds the clients that are open.
abbrev pub connected : Server → ℕ
connected s = length (keep (λ c. c.is_open) s.clients)

abbrev pub set_count : Text → ℕ → (Text → ℕ) → Text → ℕ
set_count ip n counts k = if text_eq ip k then n else counts k

-- The body of `Serve`'s loop: a connection from `host`.
unfoldable pub accept : Text → Bool → Moment → Server → Server
accept host is_writable now s =
    if leb (pos_part s.cfg.max_miners) (connected s)
      || leb (pos_part s.cfg.max_miners_per_ip) (s.ip_clients host)
    then s
    else (let sequence = (s.extra_sequence + 1) % 2 ^ 32 in
        record s {
          clients = new_client s.cfg s.next_id host is_writable sequence now ∷ s.clients;
          next_id = suc s.next_id;
          ip_clients = set_count host (suc (s.ip_clients host)) s.ip_clients;
          extra_sequence = sequence;
        })

-- `remove`, under the client's `once`: a count that falls to 0 is deleted.
abbrev pub close_client : Client → Client
close_client c = record c { is_open = false; is_writable = false }

unfoldable pub close_open : Client → Server → Server
close_open c s = record s {
  clients = update_client c.id close_client s.clients;
  ip_clients = set_count c.ip (s.ip_clients c.ip - 1) s.ip_clients;
}

-- `close`
unfoldable pub close : ℕ → Server → Server
close id s = elim (find_client id s.clients) [
  | none ↦ s
  | some c ↦ if c.is_open then close_open c s else s
]

abbrev pub can_write : Option Client → Bool
can_write none = false
can_write (some c) = c.is_writable

-- `send`, and the `close` of `respond` and `notify` where it fails.
unfoldable pub send : ℕ → Message → Server → Bool × Server
send id message s =
    if can_write (find_client id s.clients)
    then (true, record s { sent = (id, message) ∷ s.sent })
    else (false, close id s)

unfoldable pub respond : ℕ → Text → Answer → Option Failure → Server → Server
respond id request answer failure s = (send id (response request answer failure) s).1

abbrev pub max_remembered_jobs : ℕ
max_remembered_jobs = 8_192

abbrev pub forget : Text → (Text → Option Job) → Text → Option Job
forget id jobs k = if text_eq id k then none else jobs k

abbrev pub set_job : Text → Job → (Text → Option Job) → Text → Option Job
set_job id j jobs k = if text_eq id k then some j else jobs k

-- The loop that deletes the oldest jobs.
unfoldable pub evict : List Text → (Text → Option Job) → List Text × (Text → Option Job)
evict [] jobs = ([], jobs)
evict (id ∷ order) jobs = elim (ltb max_remembered_jobs (length (id ∷ order))) [
  | true ↦ evict order (forget id jobs)
  | false ↦ (id ∷ order, jobs)
]

unfoldable pub remember : Job → Server → Server
remember j s =
    let (order, jobs) = evict (s.job_order ++ j.id ∷ []) (set_job j.id j s.jobs) in
    record s { jobs = jobs; job_order = order }

-- `fmt.Sprintf("%x")` of a number of at most `n` digits.
unfoldable pub hex_number : ℕ → ℕ → Text
hex_number zero n = []
hex_number (suc digits) n = elim (ltb n 16) [
  | true ↦ hex_digit n ∷ []
  | false ↦ hex_number digits (n / 16) ++ hex_digit (n % 16) ∷ []
]

-- The messages of `sendJob`.
unfoldable pub announce : ℕ → Bool → Job → Bool → Server → Server
announce id changed j clean s = elim changed [
  | true ↦
      let (sent, s') = send id (set_difficulty j.difficulty) s in
      if sent then (send id (notify (notify_params j clean)) s').1 else s'
  | false ↦ (send id (notify (notify_params j clean)) s).1
]

abbrev pub sent_job : Job → Client → Client
sent_job j c = record c {
  last_diff = if eq c.last_diff j.difficulty then c.last_diff else j.difficulty;
  last_job = j.sequence;
}

-- `sendJob` to the client as it stands.
unfoldable pub send_job : Client → Job → Bool → Server → Server
send_job c j clean s =
    if leb j.sequence c.last_job
    then s
    else announce c.id (not (eq c.last_diff j.difficulty)) j clean (with_client c.id (sent_job j) s)

-- `publishClient` for a client that has a template.
unfoldable pub publish_template : Client → WorkTemplate → ℕ → Bool → Server → Server
publish_template c t unix clean s =
    let sequence = (s.sequence + 1) % u64 in
    let made = λ (v : Client). new_job t (hex_number 16 sequence) sequence v unix c.difficulty in
    let s' : Server = with_client c.id (λ v. (made v).1) (record s { sequence = sequence }) in
    elim (made c).0 [ none ↦ s' | some j ↦ send_job c j clean (remember j s') ]

-- `publishClient`, at the second `unix` of its clock.
unfoldable pub publish_client : ℕ → ℕ → Bool → Server → Server
publish_client id unix clean s = elim (find_client id s.clients) [
  | none ↦ s
  | some c ↦ elim c.template [ none ↦ s | some t ↦ publish_template c t unix clean s ]
]
