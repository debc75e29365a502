-- ===== src/Stratum/Server/Looped.antt =====
-- The invariant of the server under rounds of its two loops, and where a connection breaks.
use qday_pool.Prelude.{
  ℕ, ◌≡◌, refl, true, false, ◌||◌, Option, none, some, List, [], ◌∷◌, text_eq, if_both,
}
use qday_pool.Float.{le}
use qday_pool.Stratum.Bytes.{Bytes}
use qday_pool.Stratum.Config.{Config}
use qday_pool.Stratum.Clients.{Client, Moment, is_busy, lower_idle_difficulty}
use qday_pool.Stratum.Clients.Paced.{lower_idle_difficulty-IsPaced}
use qday_pool.Stratum.Work.Templates.{Template, BlockCodec}
use qday_pool.Stratum.Server.{Server, with_client, close}
use qday_pool.Stratum.Server.Submit.{State}
use qday_pool.Stratum.Server.Handlers.{Outside, unix_of, drop_template, assign_template}
use qday_pool.Stratum.Server.Rounds.{
  each, drop_open, set_template_error, Tip, read_tip, set_tip, prune_round, serve_tip, with_tip,
  template_round, refresh_client, refresh_round, is_active, open_of, authorized_of,
}
use qday_pool.Stratum.Server.Net.{IsGood, IsServer, Keeps, map-IsNet, with_client-IsNet}
use qday_pool.Stratum.Clients.Frame.{IsFrame}
use qday_pool.Stratum.Server.Close.{close-IsServer}
use qday_pool.Stratum.Server.Publish.{publish_client-IsServer}
use qday_pool.Stratum.Server.Requests.{assign_template-IsServer}

each-IsServer :
    (f : ℕ → Server → Server) (cs : List Client) (s : Server)
    → ((id : ℕ) (v : Server) → IsServer v → IsServer (f id v))
    → IsServer s
    → IsServer (each f cs s)
unfolding each
each-IsServer f [] s k g = g
each-IsServer f (c ∷ cs) s k g = each-IsServer f cs (f c.id s) k (k c.id s g)

lowered-IsFrame :
    (cfg : Config) (now : Moment) (c : Client) → IsFrame c (lower_idle_difficulty cfg now c)
unfolding lower_idle_difficulty
lowered-IsFrame cfg now c =
    if_both (IsFrame c) (is_busy cfg now c.last_share || le c.difficulty cfg.minimum_difficulty)
      (refl, refl, refl, refl) (refl, refl, refl, refl)

lowered_Keeps : (cfg : Config) (now : Moment) → Keeps (lower_idle_difficulty cfg now)
lowered_Keeps cfg now c = let (i, ip, o, _) = lowered-IsFrame cfg now c in (i, ip, o)

refresh_client-IsServer :
    (now : Moment) (id : ℕ) (s : Server) → IsServer s → IsServer (refresh_client now id s)
refresh_client-IsServer now id s g =
    let f = lower_idle_difficulty s.cfg now in
    publish_client-IsServer id (unix_of now) true (with_client id f s) (
      with_client-IsNet id f (lowered_Keeps s.cfg now)
        (λ c i. record {
          paced = lower_idle_difficulty-IsPaced s.cfg g.range now c i.paced;
          template = rw ((lowered-IsFrame s.cfg now c).3) i.template;
        })
        g)

pub refresh_round-IsServer :
    (now : Moment) (s : Server) → IsServer s → IsServer (refresh_round now s)
unfolding refresh_round
refresh_round-IsServer now s g =
    each-IsServer (refresh_client now) (authorized_of s) s (refresh_client-IsServer now) g

-- A connection that breaks.
abbrev pub lose : Client → Client
lose c = record c { is_writable = false }

dropped_Keeps : Keeps drop_open
dropped_Keeps c =
    if_both (λ (v : Client). (v.id ≡ c.id) × (v.ip ≡ c.ip) × (v.is_open ≡ c.is_open)) c.is_open
      (refl, refl, refl) (refl, refl, refl)

set_template_error-IsServer : (s : Server) → IsServer s → IsServer (set_template_error s)
unfolding set_template_error
set_template_error-IsServer s g =
    map-IsNet drop_open dropped_Keeps
      (λ c i.
        let dropped : IsGood s.cfg (drop_template c) = record {
          paced = record {
            current = i.paced.current;
            window = i.paced.window;
            counted = i.paced.counted;
          };
          template = tt;
        } in
        if_both (IsGood s.cfg) c.is_open dropped i)
      g

set_tip-IsServer : (t : Template) (tip : Tip) (s : Server) → IsServer s → IsServer (set_tip t tip s)
unfolding set_tip
set_tip-IsServer t tip s g = record {
  range = g.range;
  initial = g.initial;
  good = g.good;
  made = g.made;
  listed = g.listed;
  remembered = g.remembered;
  numbered = g.numbered;
  counted = g.counted;
  limited = g.limited;
  shared = g.shared;
}

pub broken-IsServer : (id : ℕ) (s : Server) → IsServer s → IsServer (with_client id lose s)
broken-IsServer id s g =
    with_client-IsNet id lose (λ c. (refl, refl, refl))
      (λ c i. record {
        paced = record {
          current = i.paced.current;
          window = i.paced.window;
          counted = i.paced.counted;
        };
        template = i.template;
      })
      g

module _ (blake2b : Bytes → Bytes) (blocks : BlockCodec) where
  serve_tip-IsServer :
      (outside : ℕ → Outside) (t : Template) (s : Server)
      → IsServer s
      → IsServer (serve_tip blake2b blocks outside t s)
  unfolding serve_tip
  serve_tip-IsServer outside t s g =
      if_both IsServer (is_active t)
        (each-IsServer (λ id. assign_template blake2b blocks id (outside id) true) (authorized_of s)
          s (λ id v h. assign_template-IsServer blake2b blocks id (outside id) true v h) g)
        (each-IsServer close (open_of s) s (λ id v h. close-IsServer id v h) g)

  with_tip-IsServer :
      (outside : ℕ → Outside) (t : Template) (o : Option Tip) (s : State)
      → IsServer s.server
      → IsServer (with_tip blake2b blocks outside t o s).server
  unfolding prune_round
  with_tip-IsServer outside t none s g = set_template_error-IsServer s.server g
  with_tip-IsServer outside t (some tip) s g =
      let h =
        serve_tip-IsServer outside t (set_tip t tip s.server) (set_tip-IsServer t tip s.server g) in
      if_both (λ (v : State). IsServer v.server) (text_eq s.server.parent tip.parent) h h

  pub template_round-IsServer :
      (outside : ℕ → Outside) (o : Option Template) (s : State)
      → IsServer s.server
      → IsServer (template_round blake2b blocks outside o s).server
  unfolding template_round
  template_round-IsServer outside none s g = set_template_error-IsServer s.server g
  template_round-IsServer outside (some t) s g = with_tip-IsServer outside t (read_tip t) s g
