-- ===== src/Stratum/Server/Handlers.antt =====
-- `client.run` and `client.handle`, one request at a time. JSON is decoded by Go's library: a
-- request's parameters are absent, a list of texts, numbers and others, or something else.
use qday_pool.Prelude.{
  ℕ, ◌+◌, ◌/◌, ◌%◌, Bool, true, false, not, ◌||◌, ◌==◌, Option, none, some, List, [], ◌∷◌, Text,
  codes, text_eq, leb, ltb, if◌then◌else◌,
}
use qday_pool.Float.{Float, lt, is_nan, is_inf}
use qday_pool.Stratum.Bytes.{Bytes, little_endian}
use qday_pool.Stratum.Config.{Config, second, zero_float}
use qday_pool.Stratum.Clients.{Client, Moment, u64, extra_nonce_bytes, since}
use qday_pool.Stratum.Login.{parse_worker_login, password_difficulty}
use qday_pool.Stratum.Work.{WorkTemplate, Codec}
use qday_pool.Stratum.Work.Templates.{Template, BlockCodec, new_work_template}
use qday_pool.Stratum.Server.{
  Server, null, flag, empty_map, subscription, parse_error, no_method, not_started, not_subscribed,
  already_authorized, bad_username, bad_password_difficulty, bad_suggestion, with_client, close,
  respond, publish_client,
}
use qday_pool.Stratum.Server.Submit.{State, NodeAnswer, on_server, submit}

pub data Item : Type 0 where
  text : Text → Item
  number : Float → Item
  nothing : Item
  other : Item

pub data Params : Type 0 where
  absent : Params
  items : List Item → Params
  unusable : Params

-- An element of a `[]string`: null leaves the empty string.
abbrev pub text_of : Item → Option Text
text_of (text s) = some s
text_of nothing = some []
text_of (number x) = none
text_of other = none

-- An element of a `[]float64`: null leaves 0.
abbrev pub float_of : Item → Option Float
float_of (number x) = some x
float_of nothing = some zero_float
float_of (text s) = none
float_of other = none

abbrev pub cons_option {ℓ} : {A : Type ℓ} → Option A → Option (List A) → Option (List A)
cons_option (some a) (some rest) = some (a ∷ rest)
cons_option _ _ = none

abbrev pub all_of {ℓ} : {A : Type ℓ} → (Item → Option A) → List Item → Option (List A)
all_of f [] = some []
all_of f (i ∷ is) = cons_option (f i) (all_of f is)

-- `decodeParams`: absent parameters, and null, are the empty list. `none` is its error.
abbrev pub decode_params {ℓ} : {A : Type ℓ} → (Item → Option A) → Params → Option (List A)
decode_params f absent = some []
decode_params f (items is) = all_of f is
decode_params f unusable = none

pub record Request : Type 0 where
  pub id : Text
  pub method : Text
  pub params : Params

-- What happens outside while a request is handled: the clock, entropy, and the node's answers.
pub record Outside : Type 0 where
  pub now : Moment
  pub entropy : Option Bytes
  pub template : Option Template
  pub block : NodeAnswer

abbrev pub unix_of : Moment → ℕ
unix_of now = now / second

-- `nextWorkNonce`; the number is a uint64.
unfoldable pub next_work_nonce : Option Bytes → Server → ℕ × Server
next_work_nonce entropy s =
    let drawn : ℕ = elim entropy [ none ↦ 0 | some bytes ↦ little_endian bytes ] in
    let counted = (s.work_sequence + 1) % u64 in
    if drawn == 0 then (counted, record s { work_sequence = counted }) else (drawn, s)

abbrev pub use_template : WorkTemplate → Client → Client
use_template t c = record c { template = some t }

abbrev pub drop_template : Client → Client
drop_template c = record c { template = none }

abbrev pub too_fast : Client → Bool
too_fast c = ltb 64 c.rate_n

-- The count of `run`: a second after its start a new one starts.
unfoldable pub count_request : Moment → Client → Client
count_request now c =
    if leb second (since now c.rate_at)
    then record c { rate_at = now; rate_n = 1 }
    else record c { rate_n = c.rate_n + 1 }

abbrev pub log_in : Text → Text → Float → Client → Client
log_in address worker difficulty c = record c {
  address = address;
  worker = worker;
  difficulty = difficulty;
  template = none;
  vardiff_started = none;
  vardiff_difficulty = zero_float;
  vardiff_shares = 0;
  last_share = none;
  authorized = true;
}

abbrev pub suggest : Float → Client → Client
suggest difficulty c = record c {
  difficulty = difficulty;
  vardiff_started = none;
  vardiff_difficulty = zero_float;
  vardiff_shares = 0;
}

-- Outside the pool's limits, as each caller asks.
abbrev pub out_of_range : Config → Float → Bool
out_of_range cfg d = lt d cfg.minimum_difficulty || lt cfg.maximum_difficulty d

-- One number, within the limits and no NaN or infinity.
abbrev pub suggestion : Config → Option (List Float) → Option Float
suggestion cfg (some (d ∷ [])) =
    if out_of_range cfg d || (is_nan d || is_inf d) then none else some d
suggestion cfg _ = none

-- The difficulty of a login: none where the password asks for one outside the limits.
abbrev pub login_difficulty : Config → Option Float → Option Float
login_difficulty cfg none = some cfg.initial_difficulty
login_difficulty cfg (some d) = if out_of_range cfg d then none else some d

abbrev pub password_of : (Text → Option Float) → List Text → Option Float
password_of parse_float [] = none
password_of parse_float (password ∷ rest) = password_difficulty parse_float password

abbrev pub on_parent : Bytes → Option WorkTemplate → Option WorkTemplate
on_parent parent none = none
on_parent parent (some parsed) = if text_eq parsed.parent parent then some parsed else none

module _ (blake2b : Bytes → Bytes) (blocks : BlockCodec) where
  -- The template that the node answers, parsed, on the current parent.
  abbrev pub usable_template : Option Template → Bytes → Option WorkTemplate
  usable_template none parent = none
  usable_template (some t) parent = on_parent parent (new_work_template blake2b blocks t)

  -- `assignTemplate`, its error ignored.
  unfoldable pub assign_template : ℕ → Outside → Bool → Server → Server
  assign_template id outside clean s =
      let (nonce, s') = next_work_nonce outside.entropy s in
      elim (usable_template outside.template s'.parent) [
        | none ↦ s'
        | some t ↦
            publish_client id (unix_of outside.now) clean (with_client id (use_template t) s')
      ]

  module _ (canonical : Text → Option Text) (parse_float : Text → Option Float) where
    unfoldable pub subscribe : Client → Request → Server → Server
    subscribe c request s =
        let s' = with_client c.id (λ v. record v { subscribed = true }) s in
        if not s.ready
        then respond c.id request.id null (some not_started) s'
        else respond c.id request.id
            (subscription (extra_nonce_bytes s.extra1_size c) s.extra2_size) none s'

    abbrev pub logged_in : Client → Request → Outside → Text → Text → Option Float → Server → Server
    logged_in c request outside address worker none s =
        respond c.id request.id (flag false) (some bad_password_difficulty) s
    logged_in c request outside address worker (some difficulty) s =
        assign_template c.id outside true (
          respond c.id request.id (flag true) none
            (with_client c.id (log_in address worker difficulty) s))

    abbrev pub with_login :
        Client → Request → Outside → List Text → Option (Text × Text) → Server → Server
    with_login c request outside rest none s =
        respond c.id request.id (flag false) (some bad_username) s
    with_login c request outside rest (some (address, worker)) s =
        logged_in c request outside address worker
          (login_difficulty s.cfg (password_of parse_float rest)) s

    abbrev pub with_username : Client → Request → Outside → Option (List Text) → Server → Server
    with_username c request outside (some (username ∷ rest)) s =
        with_login c request outside rest (parse_worker_login canonical username) s
    with_username c request outside (some []) s =
        respond c.id request.id (flag false) (some bad_username) s
    with_username c request outside none s =
        respond c.id request.id (flag false) (some bad_username) s

    unfoldable pub authorize : Client → Request → Outside → Server → Server
    authorize c request outside s =
        if not c.subscribed
        then respond c.id request.id (flag false) (some not_subscribed) s
        else if c.authorized
        then respond c.id request.id (flag false) (some already_authorized) s
        else with_username c request outside (decode_params text_of request.params) s

    abbrev pub suggested : Client → Request → Moment → Option Float → Server → Server
    suggested c request now none s = respond c.id request.id (flag false) (some bad_suggestion) s
    suggested c request now (some d) s =
        let s' = respond c.id request.id (flag true) none (with_client c.id (suggest d) s) in
        if c.authorized then publish_client c.id (unix_of now) true s' else s'

    unfoldable pub suggest_difficulty : Client → Request → Moment → Server → Server
    suggest_difficulty c request now s =
        suggested c request now (suggestion s.cfg (decode_params float_of request.params)) s

    module _ (codec : Codec) where
      -- `handle`
      unfoldable pub handle : Client → Request → Outside → State → State
      handle c request outside s =
          if text_eq request.method (codes "mining.subscribe")
          then on_server (subscribe c request) s
          else if text_eq request.method (codes "mining.authorize")
          then on_server (authorize c request outside) s
          else if text_eq request.method (codes "mining.configure")
          then on_server (respond c.id request.id empty_map none) s
          else if text_eq request.method (codes "mining.extranonce.subscribe")
          then on_server (respond c.id request.id (flag true) none) s
          else if text_eq request.method (codes "mining.suggest_difficulty")
          then on_server (suggest_difficulty c request outside.now) s
          else if text_eq request.method (codes "mining.submit")
          then submit blake2b codec c request.id (decode_params text_of request.params) outside.now
              outside.block s
          else on_server (respond c.id request.id null (some no_method)) s

      abbrev pub is_blank : Text → Bool
      is_blank [] = true
      is_blank (c ∷ s) = false

      -- A line that decodes to a request with a method, or does not.
      abbrev pub with_request : Client → Option Request → Outside → State → State
      with_request c none outside s =
          on_server (respond c.id (codes "null") null (some parse_error)) s
      with_request c (some request) outside s =
          if is_blank request.method
          then on_server (respond c.id (codes "null") null (some parse_error)) s
          else handle c request outside s

      abbrev pub received : Client → Option Request → Outside → State → State
      received c request outside s =
          if too_fast c then on_server (close c.id) s else with_request c request outside s

      -- One round of `run`'s loop, for a client that is open.
      unfoldable pub receive : Client → Option Request → Outside → State → State
      receive c request outside s =
          received (count_request outside.now c) request outside
            (on_server (with_client c.id (count_request outside.now)) s)
