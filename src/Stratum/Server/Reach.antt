-- ===== src/Stratum/Server/Reach.antt =====
-- The server from its start over any sequence of connections, lines, rounds and failures.
use qday_pool.Prelude.{ℕ, ◌≡◌, Bool, Option, some, Text}
use qday_pool.Float.{Float}
use qday_pool.Stratum.Bytes.{Bytes}
use qday_pool.Stratum.Config.{Config}
use qday_pool.Stratum.Clients.{Client, Moment}
use qday_pool.Stratum.Work.{Codec}
use qday_pool.Stratum.Work.Templates.{Template, BlockCodec}
use qday_pool.Stratum.Server.{new_server, find_client, with_client, accept, close}
use qday_pool.Stratum.Server.Submit.{State, on_server}
use qday_pool.Stratum.Server.Handlers.{Request, Outside, receive}
use qday_pool.Stratum.Server.Rounds.{template_round, refresh_round}
use qday_pool.Stratum.Server.Net.{IsServer}
use qday_pool.Stratum.Server.Close.{accept-IsServer, close-IsServer}
use qday_pool.Stratum.Server.Numbers.{IsParser}
use qday_pool.Stratum.Server.Handled.{IsLine, receive-IsServer}
use qday_pool.Stratum.Server.Looped.{
  lose, broken-IsServer, template_round-IsServer, refresh_round-IsServer,
}
use qday_pool.Stratum.Server.Started.{IsSettings, new_server-IsServer}

module _ (blake2b : Bytes → Bytes) (blocks : BlockCodec) (canonical : Text → Option Text)
    (parse_float : Text → Option Float) (codec : Codec) where
  -- What happens to the server: a connection, a line from a client that is connected or was, a round
  -- of `templateLoop`, a tick of `refreshLoop`, the end of a client's `run`, a connection that breaks.
  pub data Reach (s : State) : State → Type 0 where
    start : Reach s s
    connection :
        {t : State} (host : Text) (is_writable : Bool) (now : Moment)
        → Reach s t
        → Reach s (on_server (accept host is_writable now) t)
    line :
        {t : State} (c : Client) (o : Option Request) (outside : Outside)
        → find_client c.id t.server.clients ≡ some c
        → IsLine o
        → Reach s t
        → Reach s (receive blake2b blocks canonical parse_float codec c o outside t)
    template :
        {t : State} (outside : ℕ → Outside) (o : Option Template)
        → Reach s t
        → Reach s (template_round blake2b blocks outside o t)
    refresh : {t : State} (now : Moment) → Reach s t → Reach s (on_server (refresh_round now) t)
    ended : {t : State} (id : ℕ) → Reach s t → Reach s (on_server (close id) t)
    broken : {t : State} (id : ℕ) → Reach s t → Reach s (on_server (with_client id lose) t)

  module _ (parser : IsParser parse_float) where
    kept : {s t : State} → IsServer s.server → Reach s t → IsServer t.server
    kept g start = g
    kept g (connection {t} host is_writable now r) =
        accept-IsServer host is_writable now t.server (kept g r)
    kept g (line {t} c o outside found p r) =
        receive-IsServer blake2b blocks canonical parse_float parser codec c o outside t p
          (kept g r)
    kept g (template {t} outside o r) =
        template_round-IsServer blake2b blocks outside o t (kept g r)
    kept g (refresh {t} now r) = refresh_round-IsServer now t.server (kept g r)
    kept g (ended {t} id r) = close-IsServer id t.server (kept g r)
    kept g (broken {t} id r) = broken-IsServer id t.server (kept g r)

    -- Whatever connections, lines, rounds and failures the server of an accepted configuration meets,
    -- the difficulties of every client stay positive, finite and at most the maximum; every job's
    -- share target is at least the network's; at most `max_remembered_jobs` jobs are kept, each listed;
    -- the counts by IP are those of the open clients, and no more clients than the limits are open, in
    -- all and by IP. The configuration's numbers and those that are parsed are float64.
    pub Reach-IsServer :
        (seed : Option Bytes) (given : Config) (s t : State)
        → IsSettings given
        → new_server seed given ≡ some s.server
        → Reach s t
        → IsServer t.server
    Reach-IsServer seed given s t f h r = kept (new_server-IsServer seed given s.server f h) r
