-- ===== src/Stratum/Examples/Sessions.antt =====
-- A job, a submission and a server, at small inputs.
use qday_pool.Prelude.{
  ◌^◌, ◌≡◌, refl, true, false, Option, none, some, List, [], ◌∷◌, Text, codes, replicate, arith,
  text_eq, if◌then◌else◌,
}
use qday_pool.Float.{Float, finite, unit, top, double, wide, round_to, nearest, lt, le}
use qday_pool.Store.Ledger.Reach.{empty}
use qday_pool.Store.Sql.{healthy}
use qday_pool.Stratum.Bytes.{big_endian, bytes_le}
use qday_pool.Stratum.Config.{Config, with_defaults}
use qday_pool.Stratum.Clients.{Client, new_client, new_job}
use qday_pool.Stratum.Clients.Vardiff.{InForce, power-IsFinite}
use qday_pool.Stratum.Clients.Jobs.{IsTemplate, IsJob, new_job_total, judge-network}
use qday_pool.Stratum.Work.{Job, judge, solved_block, with_block}
use qday_pool.Stratum.Work.Difficulty.{
  target_difficulty, ratio_of, round_up, difficulty_one_target, next_up,
}
use qday_pool.Stratum.Server.{Server, new_server, started, find_client, accept}
use qday_pool.Stratum.Server.Submit.{State, on_server}
use qday_pool.Stratum.Server.Handlers.{Request, Outside, Params, receive}
use qday_pool.Stratum.Server.Rounds.{refresh_round}
use qday_pool.Stratum.Server.Net.{IsServer}
use qday_pool.Stratum.Server.Numbers.{IsParser}
use qday_pool.Stratum.Server.Numbers.{zero-IsFloat}
use qday_pool.Stratum.Server.Started.{IsSettings}
use qday_pool.Stratum.Server.Reach.{start, connection, line, refresh, Reach-IsServer}
use qday_pool.Stratum.Examples.{
  some_hash, hash_of, plain, easy_job, accepted_template, header_codec, repeated-IsBytes,
}
use qday_pool.Stratum.Examples.Logins.{given, config_run, any_address}

abbrev cfg : Config
cfg = record given {
  initial_difficulty = finite false (2 ^ 1_070);
  minimum_difficulty = finite false (2 ^ 1_060);
  maximum_difficulty = finite false (2 ^ 1_090);
}

accepted-IsTemplate : IsTemplate accepted_template
unfolding target_difficulty ratio_of round_up round_to nearest difficulty_one_target unit top double
    wide next_up big_endian
accepted-IsTemplate = record {
  bytes = repeated-IsBytes 32 3 (omega arith);
  size = refl;
  difficulty = refl;
}

easy-InForce : InForce cfg (finite false (2 ^ 1_064))
unfolding lt le top
easy-InForce = record {
  number = power-IsFinite 1_064 (omega arith);
  positive = refl;
  limited = refl;
}

abbrev fresh_client : Client
unfolding new_client
fresh_client = new_client cfg 0 (codes "10.0.0.1") true 7 0

new_job_total_example :
    (j : Job) × ((new_job accepted_template
        (codes "1")
        1
        fresh_client
        300
        (finite false (2 ^ 1_064))).0
      ≡ some j)
    × IsJob cfg j
    × (j.owner ≡ fresh_client.id)
    × (j.sequence ≡ 1)
    × (j.address ≡ fresh_client.address)
    × (j.worker ≡ fresh_client.worker)
new_job_total_example =
    new_job_total cfg accepted_template accepted-IsTemplate (codes "1") 1 300 fresh_client
      (finite false (2 ^ 1_064)) easy-InForce

abbrev network_job : Job
network_job = record easy_job { template = accepted_template }

network-IsJob : IsJob cfg network_job
unfolding big_endian
network-IsJob = record {
  template = accepted-IsTemplate;
  bytes = repeated-IsBytes 32 255 (omega arith);
  size = refl;
  covers = omega arith;
  in_force = easy-InForce;
}

meets_run : bytes_le some_hash network_job.template.target ≡ true
unfolding bytes_le
meets_run = refl

judge-network_example :
    judge hash_of plain network_job (replicate 4 0) (replicate 8 0) (replicate 8 0)
    ≡ with_block hash_of plain
        (solved_block hash_of plain network_job (replicate 4 0) (replicate 8 0) (replicate 8 0))
        some_hash
judge-network_example =
    judge-network cfg hash_of plain network_job (replicate 4 0) (replicate 8 0) (replicate 8 0)
      network-IsJob (repeated-IsBytes 32 1 (omega arith)) refl meets_run

-- A miner with the job, on a server that knows it.
abbrev miner : Client
miner = record fresh_client {
  subscribed = true;
  authorized = true;
  template = some accepted_template;
}

abbrev server : Server
server = record (started none cfg) {
  clients = miner ∷ [];
  next_id = 1;
  jobs = λ id. if text_eq id (codes "1") then some network_job else none;
  job_order = codes "1" ∷ [];
  parent = replicate 32 0;
}

abbrev before : State
before = record { server = server; db = healthy empty; submitted = [] }

abbrev texts : Option (List Text)
texts = some (
    codes "rig"
    ∷ codes "1"
    ∷ codes "0000000a"
    ∷ codes "0201000000000000"
    ∷ codes "00000000000000ff"
    ∷ [])

-- The server of a new pool: a miner connects and subscribes, and a tick passes.
abbrev begun : State
begun = record { server = started none (with_defaults given); db = healthy empty; submitted = [] }

begun_run : new_server none given ≡ some begun.server
unfolding new_server
begun_run = rw config_run refl

abbrev joined : State
joined = on_server (accept (codes "10.0.0.1") true 7) begun

abbrev first_client : Client
unfolding new_client
first_client = new_client (with_defaults given) 0 (codes "10.0.0.1") true 1 7

found_run : find_client first_client.id joined.server.clients ≡ some first_client
unfolding accept new_client with_defaults first_client
found_run = refl

abbrev greeting : Option Request
greeting =
    some (record { id = codes "1"; method = codes "mining.subscribe"; params = Params.items [] })

abbrev surroundings : Outside
surroundings = record { now = 8; entropy = none; template = none; block = none }

no_number : Text → Option Float
no_number s = none

no_number-IsParser : IsParser no_number
unfolding no_number
no_number-IsParser s d h = absurd (cc)

abbrev subscribed : State
subscribed =
    receive hash_of header_codec any_address no_number plain first_client greeting surroundings
      joined

given-IsSettings : IsSettings given
given-IsSettings = record { initial = zero-IsFloat; minimum = zero-IsFloat; maximum = zero-IsFloat }

Reach-IsServer_example : IsServer (refresh_round 9 subscribed.server)
Reach-IsServer_example =
    Reach-IsServer hash_of header_codec any_address no_number plain no_number-IsParser none given
      begun (on_server (refresh_round 9) subscribed) given-IsSettings begun_run
      (refresh 9 (
        line first_client greeting surroundings found_run tt
          (connection (codes "10.0.0.1") true 7 start)))
