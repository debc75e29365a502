-- ===== src/Stratum/Server/Rounds.antt =====
-- The server's two loops, one round at a time: `templateLoop` with `assignTemplates`, and
-- `refreshLoop`. The clients of a round are served in the list's order.
use qday_pool.Prelude.{
  ℕ, ◌*◌, ◌%◌, Bool, true, false, not, ◌&&◌, ◌==◌, Option, none, some, List, [], ◌∷◌, map, text_eq,
  leb, keep, length, if◌then◌else◌,
}
use qday_pool.Prelude.Int.{ℤ, pos}
use qday_pool.Float.{Float}
use qday_pool.Store.Shares.{prune_shares}
use qday_pool.Stratum.Bytes.{Bytes}
use qday_pool.Stratum.Config.{Config, zero_float}
use qday_pool.Stratum.Clients.{Client, Moment, lower_idle_difficulty, u64}
use qday_pool.Stratum.Work.{decode32, mempool_transaction_count, target_work}
use qday_pool.Stratum.Work.Difficulty.{target_difficulty}
use qday_pool.Stratum.Work.Templates.{Template, BlockCodec, activation_height, is_blank}
use qday_pool.Stratum.Server.{Server, with_client, close, publish_client}
use qday_pool.Stratum.Server.Submit.{State, on_server}
use qday_pool.Stratum.Server.Snapshots.{hashrate}
use qday_pool.Stratum.Server.Handlers.{Outside, assign_template, drop_template, unix_of}

-- A step for each of the clients.
unfoldable pub each : (ℕ → Server → Server) → List Client → Server → Server
each f [] s = s
each f (c ∷ cs) s = each f cs (f c.id s)

-- `clearTemplate` of every client that is open.
abbrev pub drop_open : Client → Client
drop_open c = if c.is_open then drop_template c else c

-- `setTemplateError`
unfoldable pub set_template_error : Server → Server
set_template_error s = record s {
  ready = false;
  has_error = true;
  clients = map drop_open s.clients;
}

-- What the loop reads of a template: the parent, the target and the number of transactions.
pub record Tip : Type 0 where
  pub parent : Bytes
  pub target : Bytes
  pub transactions : ℤ

abbrev pub transactions_of : Template → Option ℤ
transactions_of t =
    if leb activation_height t.height
    then elim (mempool_transaction_count (length t.transactions)) [
      | none ↦ none
      | some n ↦ some (pos n)
    ]
    else some t.mempool_transactions

abbrev pub tip_of : Option Bytes → Option Bytes → Option ℤ → Option Tip
tip_of (some parent) (some target) (some n) =
    some (record { parent = parent; target = target; transactions = n })
tip_of _ _ _ = none

-- `none` is any of the errors.
unfoldable pub read_tip : Template → Option Tip
read_tip t =
    if is_blank t.long_poll_id
    then none
    else tip_of (decode32 t.previous_block_hash) (decode32 t.target) (transactions_of t)

abbrev pub is_active : Template → Bool
is_active t = leb activation_height t.height && (t.extra1_size == 4 && t.extra2_size == 4)

abbrev pub or_zero : Option Float → Float
or_zero none = zero_float
or_zero (some x) = x

-- The state of a new tip.
unfoldable pub set_tip : Template → Tip → Server → Server
set_tip t tip s = record s {
  parent = tip.parent;
  height = t.height;
  long_poll_id = t.long_poll_id;
  tx_count = tip.transactions;
  extra1_size = t.extra1_size;
  extra2_size = t.extra2_size;
  network_diff = or_zero (target_difficulty tip.target);
  network_hash = hashrate (target_work tip.target);
  network_work = target_work tip.target;
  ready = is_active t;
  has_error = not (is_active t);
}

-- The work that the store keeps behind a new tip: a hundred PPLNS windows.
abbrev pub retention : Config → Tip → Option ℤ
retention cfg tip = some (pos (target_work tip.target * ((cfg.pplns_window * 100) % u64)))

abbrev pub authorized_of : Server → List Client
authorized_of s = keep (λ c. c.is_open && c.authorized) s.clients

abbrev pub open_of : Server → List Client
open_of s = keep (λ c. c.is_open) s.clients

-- `PruneShares`; an error is only logged.
unfoldable pub prune_round : Config → Tip → State → State
prune_round cfg tip s = record s { db = (prune_shares (retention cfg tip) s.db).1 }

module _ (blake2b : Bytes → Bytes) (blocks : BlockCodec) where
  -- Every miner is given work, or where mining is not active, disconnected.
  unfoldable pub serve_tip : (ℕ → Outside) → Template → Server → Server
  serve_tip outside t s =
      if is_active t
      then each (λ id. assign_template blake2b blocks id (outside id) true) (authorized_of s) s
      else each close (open_of s) s

  abbrev pub with_tip : (ℕ → Outside) → Template → Option Tip → State → State
  with_tip outside t none s = on_server set_template_error s
  with_tip outside t (some tip) s =
      let s' = on_server (λ v. serve_tip outside t (set_tip t tip v)) s in
      if text_eq s.server.parent tip.parent then s' else prune_round s.server.cfg tip s'

  -- A round of `templateLoop`, on the node's answer; `outside` is what each miner's work meets.
  unfoldable pub template_round : (ℕ → Outside) → Option Template → State → State
  template_round outside none s = on_server set_template_error s
  template_round outside (some t) s = with_tip outside t (read_tip t) s

abbrev pub refresh_client : Moment → ℕ → Server → Server
refresh_client now id s =
    publish_client id (unix_of now) true (with_client id (lower_idle_difficulty s.cfg now) s)

-- A tick of `refreshLoop`.
unfoldable pub refresh_round : Moment → Server → Server
refresh_round now s = each (refresh_client now) (authorized_of s) s
