-- ===== src/Stratum/Server/Requests.antt =====
-- The invariant of the server under subscriptions, authorizations and the assignment of work.
use qday_pool.Prelude.{
  ℕ, ◌≡◌, refl, Bool, true, false, not, ◌==◌, Option, none, some, List, [], ◌∷◌, Text, text_eq,
  if◌then◌else◌, if_both, arith, inl, ap,
}
use qday_pool.Float.{Float}
use qday_pool.Stratum.Bytes.{Bytes, little_endian}
use qday_pool.Stratum.Clients.{Client}
use qday_pool.Stratum.Clients.Vardiff.{InForce}
use qday_pool.Stratum.Clients.Jobs.{IsTemplate}
use qday_pool.Stratum.Login.{parse_worker_login}
use qday_pool.Stratum.Work.{WorkTemplate}
use qday_pool.Stratum.Work.Templates.{Template, BlockCodec, new_work_template}
use qday_pool.Stratum.Work.Templates.Target.{new_work_template-IsTemplate}
use qday_pool.Stratum.Server.{Server, Answer, Failure, with_client, respond, publish_client}
use qday_pool.Stratum.Server.Handlers.{
  text_of, decode_params, Request, Outside, unix_of, next_work_nonce, use_template, log_in,
  login_difficulty, password_of, usable_template, on_parent, assign_template, subscribe, logged_in,
  with_login, with_username, authorize,
}
use qday_pool.Stratum.Server.Net.{IsServer, with_client-IsNet}
use qday_pool.Stratum.Server.Publish.{respond-IsServer, publish_client-IsServer, frame-IsGood}
use qday_pool.Stratum.Server.Numbers.{IsParser, login_difficulty-InForce, password_of-IsFinite}

template_or : WorkTemplate → Option WorkTemplate → WorkTemplate
template_or v none = v
template_or v (some w) = w

template_eq : (v w : WorkTemplate) → some v ≡ some w → v ≡ w
unfolding template_or
template_eq v w h = ap (template_or v) h

chosen_parsed :
    (v w : WorkTemplate) (b : Bool) → (if b then some v else none) ≡ some w → (v ≡ w) × (b ≡ true)
chosen_parsed v w true h = (template_eq v w h, refl)
chosen_parsed v w false h = cc

on_parent-some :
    (parent : Bytes) (o : Option WorkTemplate) (w : WorkTemplate)
    → on_parent parent o ≡ some w
    → o ≡ some w
on_parent-some parent none w h = absurd (cc)
on_parent-some parent (some v) w h = ap some (chosen_parsed v w (text_eq v.parent parent) h).0

pub next_work_nonce-IsServer :
    (entropy : Option Bytes) (s : Server) → IsServer s → IsServer (next_work_nonce entropy s).1
unfolding next_work_nonce
next_work_nonce-IsServer entropy s g =
    let P = λ (r : ℕ × Server). IsServer r.1 in
    if_both P ((elim entropy as (λ _. ℕ) [ none ↦ 0 | some bytes ↦ little_endian bytes ]) == 0) g g

module _ (blake2b : Bytes → Bytes) (blocks : BlockCodec) where
  usable_template-IsTemplate :
      (o : Option Template) (parent : Bytes) (w : WorkTemplate)
      → usable_template blake2b blocks o parent ≡ some w
      → IsTemplate w
  usable_template-IsTemplate none parent w h = absurd (cc)
  usable_template-IsTemplate (some t) parent w h =
      new_work_template-IsTemplate blake2b blocks t w
        (on_parent-some parent (new_work_template blake2b blocks t) w h)

  work_IsServer :
      (o : Option WorkTemplate) (id : ℕ) (outside : Outside) (clean : Bool) (s : Server)
      → ((w : WorkTemplate) → o ≡ some w → IsTemplate w)
      → IsServer s
      → IsServer (elim o as (λ _. Server) [
        | none ↦ s
        | some t ↦ publish_client id (unix_of outside.now) clean (with_client id (use_template t) s)
      ])
  work_IsServer none id outside clean s k g = g
  work_IsServer (some t) id outside clean s k g =
      publish_client-IsServer id (unix_of outside.now) clean (with_client id (use_template t) s) (
        with_client-IsNet id (use_template t) (λ c. (refl, refl, refl))
          (λ c h. record {
            paced = record {
              current = h.paced.current;
              window = h.paced.window;
              counted = h.paced.counted;
            };
            template = k t refl;
          })
          g)

  -- Work that is assigned to a client keeps the invariant.
  pub assign_template-IsServer :
      (id : ℕ) (outside : Outside) (clean : Bool) (s : Server)
      → IsServer s
      → IsServer (assign_template blake2b blocks id outside clean s)
  unfolding assign_template
  assign_template-IsServer id outside clean s g =
      let s' = (next_work_nonce outside.entropy s).1 in
      work_IsServer (usable_template blake2b blocks outside.template s'.parent) id outside clean s'
        (usable_template-IsTemplate outside.template s'.parent)
        (next_work_nonce-IsServer outside.entropy s g)

  module _ (canonical : Text → Option Text) (parse_float : Text → Option Float)
      (parser : IsParser parse_float) where
    pub subscribe-IsServer :
        (c : Client) (request : Request) (s : Server)
        → IsServer s
        → IsServer (subscribe blake2b blocks canonical parse_float c request s)
    unfolding subscribe
    subscribe-IsServer c request s g =
        let f = λ (v : Client). let w : Client = record v { subscribed = true } in w in
        let h : IsServer (with_client c.id f s) =
          with_client-IsNet c.id f (λ v. (refl, refl, refl))
            (λ v i. frame-IsGood s.cfg v (f v) refl refl refl refl refl i) g in
        if_both IsServer (not s.ready)
          (respond-IsServer c.id request.id _ _ (with_client c.id f s) h)
          (respond-IsServer c.id request.id _ _ (with_client c.id f s) h)

    refused :
        (c : Client) (request : Request) (f : Failure) (s : Server)
        → IsServer s
        → IsServer (respond c.id request.id (Answer.flag false) (some f) s)
    refused c request f s g = respond-IsServer c.id request.id (Answer.flag false) (some f) s g

    logged_in-IsServer :
        (c : Client) (request : Request) (outside : Outside) (address worker : Text)
        (o : Option Float) (s : Server)
        → ((d : Float) → o ≡ some d → InForce s.cfg d)
        → IsServer s
        → IsServer
            (logged_in blake2b blocks canonical parse_float c request outside address worker o s)
    logged_in-IsServer c request outside address worker none s k g =
        refused c request Failure.bad_password_difficulty s g
    logged_in-IsServer c request outside address worker (some d) s k g =
        let f = log_in address worker d in
        let h : IsServer (with_client c.id f s) =
          with_client-IsNet c.id f (λ v. (refl, refl, refl))
            (λ v i. record {
              paced = record { current = k d refl; window = inl refl; counted = omega arith };
              template = tt;
            })
            g in
        let s' = respond c.id request.id (Answer.flag true) none (with_client c.id f s) in
        assign_template-IsServer c.id outside true s'
          (respond-IsServer c.id request.id (Answer.flag true) none (with_client c.id f s) h)

    with_username-IsServer :
        (c : Client) (request : Request) (outside : Outside) (o : Option (List Text)) (s : Server)
        → IsServer s
        → IsServer (with_username blake2b blocks canonical parse_float c request outside o s)
    with_username-IsServer c request outside none s g = refused c request Failure.bad_username s g
    with_username-IsServer c request outside (some []) s g =
        refused c request Failure.bad_username s g
    with_username-IsServer c request outside (some (username ∷ rest)) s g =
        login_IsServer (parse_worker_login canonical username)
      where
        difficulty : Option Float
        difficulty = login_difficulty s.cfg (password_of parse_float rest)

        login_IsServer :
            (o : Option (Text × Text))
            → IsServer (with_login blake2b blocks canonical parse_float c request outside rest o s)
        login_IsServer none = refused c request Failure.bad_username s g
        login_IsServer (some (address, worker)) =
            logged_in-IsServer c request outside address worker difficulty s
              (λ d h.
                login_difficulty-InForce s.cfg (password_of parse_float rest) d g.range g.initial
                  (password_of-IsFinite parse_float parser rest) h)
              g

    pub authorize-IsServer :
        (c : Client) (request : Request) (outside : Outside) (s : Server)
        → IsServer s
        → IsServer (authorize blake2b blocks canonical parse_float c request outside s)
    unfolding authorize
    authorize-IsServer c request outside s g =
        if_both IsServer (not c.subscribed) (refused c request Failure.not_subscribed s g) (
          if_both IsServer c.authorized (refused c request Failure.already_authorized s g)
            (with_username-IsServer c request outside (decode_params text_of request.params) s g))
