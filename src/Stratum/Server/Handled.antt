-- ===== src/Stratum/Server/Handled.antt =====
-- The invariant of the server under a round of a client's loop.
use qday_pool.Prelude.{
  ◌≡◌, refl, Bool, true, false, Option, none, some, Text, codes, text_eq, if◌then◌else◌, if_both,
  arith, inl, leb,
}
use qday_pool.Float.{Float}
use qday_pool.Stratum.Bytes.{Bytes}
use qday_pool.Stratum.Config.{Config, second}
use qday_pool.Stratum.Clients.{Client, Moment, since}
use qday_pool.Stratum.Clients.Vardiff.{InForce}
use qday_pool.Stratum.Work.{Codec}
use qday_pool.Stratum.Work.Templates.{BlockCodec}
use qday_pool.Stratum.Server.{Server, Answer, Failure, with_client, close, respond}
use qday_pool.Stratum.Server.Submit.{State, on_server}
use qday_pool.Stratum.Server.Handlers.{
  float_of, text_of, decode_params, Request, Outside, unix_of, count_request, too_fast, suggest,
  suggestion, suggested, suggest_difficulty, handle, is_blank, with_request, receive,
}
use qday_pool.Stratum.Server.Net.{IsGood, IsServer, Keeps, with_client-IsNet}
use qday_pool.Stratum.Server.Close.{close-IsServer}
use qday_pool.Stratum.Server.Publish.{respond-IsServer, publish_client-IsServer, frame-IsGood}
use qday_pool.Stratum.Server.Served.{submit-IsServer}
use qday_pool.Stratum.Server.Requests.{subscribe-IsServer, authorize-IsServer}
use qday_pool.Stratum.Server.Numbers.{IsParams, IsParser, suggestion-InForce, decoded-IsFloat}

counted_Keeps : (now : Moment) → Keeps (count_request now)
unfolding count_request
counted_Keeps now c =
    let P = λ (d : Client). (d.id ≡ c.id) × (d.ip ≡ c.ip) × (d.is_open ≡ c.is_open) in
    if_both P (leb second (since now c.rate_at)) (refl, refl, refl) (refl, refl, refl)

counted-IsGood :
    (cfg : Config) (now : Moment) (c : Client) → IsGood cfg c → IsGood cfg (count_request now c)
unfolding count_request
counted-IsGood cfg now c g =
    if_both (IsGood cfg) (leb second (since now c.rate_at))
      (frame-IsGood cfg c _ refl refl refl refl refl g)
      (frame-IsGood cfg c _ refl refl refl refl refl g)

-- What JSON decoding gives of a line: `none` where it is none of a request.
abbrev pub IsLine : Option Request → Type 0
IsLine none = Unit
IsLine (some r) = IsParams r.params

module _ (blake2b : Bytes → Bytes) (blocks : BlockCodec) (canonical : Text → Option Text)
    (parse_float : Text → Option Float) where
  suggested-IsServer :
      (c : Client) (request : Request) (now : Moment) (o : Option Float) (s : Server)
      → ((d : Float) → o ≡ some d → InForce s.cfg d)
      → IsServer s
      → IsServer (suggested blake2b blocks canonical parse_float c request now o s)
  suggested-IsServer c request now none s k g =
      respond-IsServer c.id request.id (Answer.flag false) (some Failure.bad_suggestion) s g
  suggested-IsServer c request now (some d) s k g =
      let h : IsServer (with_client c.id (suggest d) s) =
        with_client-IsNet c.id (suggest d) (λ v. (refl, refl, refl))
          (λ v i. record {
            paced = record { current = k d refl; window = inl refl; counted = omega arith };
            template = i.template;
          })
          g in
      let s' = respond c.id request.id (Answer.flag true) none (with_client c.id (suggest d) s) in
      let h' =
        respond-IsServer c.id request.id (Answer.flag true) none (with_client c.id (suggest d) s)
          h in
      if_both IsServer c.authorized (publish_client-IsServer c.id (unix_of now) true s' h') h'

  suggest_difficulty-IsServer :
      (c : Client) (request : Request) (now : Moment) (s : Server)
      → IsParams request.params
      → IsServer s
      → IsServer (suggest_difficulty blake2b blocks canonical parse_float c request now s)
  unfolding suggest_difficulty
  suggest_difficulty-IsServer c request now s p g =
      let o = decode_params float_of request.params in
      suggested-IsServer c request now (suggestion s.cfg o) s
        (λ d h.
          suggestion-InForce s.cfg o d g.range (λ x k. decoded-IsFloat request.params x p k) h)
        g

  module _ (parser : IsParser parse_float) (codec : Codec) where
    abbrev Good : State → Type 0
    Good s = IsServer s.server

    answered :
        (c : Client) (id : Text) (a : Answer) (f : Option Failure) (s : State)
        → Good s
        → Good (on_server (respond c.id id a f) s)
    answered c id a f s g = respond-IsServer c.id id a f s.server g

    -- A request of any method.
    handle-IsServer :
        (c : Client) (request : Request) (outside : Outside) (s : State)
        → IsParams request.params
        → Good s
        → Good (handle blake2b blocks canonical parse_float codec c request outside s)
    unfolding handle
    handle-IsServer c request outside s p g =
        let method = λ (m : Text). text_eq request.method m in
        if_both Good (method (codes "mining.subscribe"))
          (subscribe-IsServer blake2b blocks canonical parse_float parser c request s.server g)
          (if_both Good (method (codes "mining.authorize"))
            (authorize-IsServer blake2b blocks canonical parse_float parser c request outside
              s.server g)
            (if_both Good (method (codes "mining.configure"))
              (answered c request.id Answer.empty_map none s g)
              (if_both Good (method (codes "mining.extranonce.subscribe"))
                (answered c request.id (Answer.flag true) none s g)
                (if_both Good (method (codes "mining.suggest_difficulty"))
                  (suggest_difficulty-IsServer c request outside.now s.server p g)
                  (if_both Good (method (codes "mining.submit"))
                    (submit-IsServer blake2b codec c request.id
                      (decode_params text_of request.params) outside.now outside.block s g)
                    (answered c request.id Answer.null (some Failure.no_method) s g))))))

    with_request-IsServer :
        (c : Client) (o : Option Request) (outside : Outside) (s : State)
        → IsLine o
        → Good s
        → Good (with_request blake2b blocks canonical parse_float codec c o outside s)
    with_request-IsServer c none outside s p g =
        answered c (codes "null") Answer.null (some Failure.parse_error) s g
    with_request-IsServer c (some request) outside s p g =
        if_both Good (is_blank blake2b blocks canonical parse_float codec request.method)
          (answered c (codes "null") Answer.null (some Failure.parse_error) s g)
          (handle-IsServer c request outside s p g)

    received_if :
        (b : Bool) (c : Client) (o : Option Request) (outside : Outside) (s : State)
        → IsLine o
        → Good s
        → Good (
            if b
            then on_server (close c.id) s
            else with_request blake2b blocks canonical parse_float codec c o outside s)
    received_if true c o outside s p g = close-IsServer c.id s.server g
    received_if false c o outside s p g = with_request-IsServer c o outside s p g

    -- A line that a client sends, whatever it is, keeps the invariant.
    pub receive-IsServer :
        (c : Client) (o : Option Request) (outside : Outside) (s : State)
        → IsLine o
        → Good s
        → Good (receive blake2b blocks canonical parse_float codec c o outside s)
    unfolding receive
    receive-IsServer c o outside s p g =
        let f = count_request outside.now in
        let s' = on_server (with_client c.id f) s in
        let h : Good s' =
          with_client-IsNet c.id f (counted_Keeps outside.now)
            (λ v i. counted-IsGood s.server.cfg outside.now v i) g in
        received_if (too_fast (f c)) (f c) o outside s' p h
