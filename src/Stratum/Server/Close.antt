-- ===== src/Stratum/Server/Close.antt =====
-- The invariant of the server under connections that open and close.
use mathlib.Core.Path.{subst}
use qday_pool.Prelude.{
  ℕ, suc, ◌+◌, ◌-◌, ◌%◌, ◌^◌, ◌≤◌, ◌≡◌, refl, Bool, true, false, ◌||◌, ◌==◌, some, List, [], ◌∷◌,
  leb, Text, text_eq, text_eq_sound, keep, length, if◌then◌else◌, arith, Bool-cases, Option-cases,
  inl, inr, ap, sym,
}
use qday_pool.Prelude.Int.{pos_part}
use qday_pool.Stratum.Config.{Config}
use qday_pool.Stratum.Clients.{Client, Moment, new_client}
use qday_pool.Stratum.Clients.Vardiff.{InForce}
use qday_pool.Stratum.Server.{
  Server, find_client, update_client, is_open_at, close_client, close_open, close, set_count,
  accept, connected,
}
use qday_pool.Stratum.Server.Net.{
  IsGood, IsNumbered, open_at, IsServer, All-update, update-IsNumbered,
}

find_client-id : (id : ℕ) (cs : List Client) (c : Client) → find_client id cs ≡ some c → c.id ≡ id
find_client-id id [] c h = absurd (cc)
find_client-id id (d ∷ cs) c h = elim (Bool-cases (d.id == id)) [
  | inl here ↦ ground (arith, h, here)
  | inr other ↦ find_client-id id cs c (ground (arith, h, other))
]

update_absent :
    (n id : ℕ) (f : Client → Client) (cs : List Client)
    → n ≤ id
    → IsNumbered n cs
    → update_client id f cs ≡ cs
unfolding update_client
update_absent n id f [] h k = refl
update_absent n id f (c ∷ cs) h (p, k) =
    let other : (c.id == id) ≡ false = ground arith in
    rw (other, update_absent c.id id f cs (omega arith) k) refl

-- One client less counts, where the one that closes counted.
update_here :
    (id : ℕ) (f : Client → Client) (d : Client) (cs : List Client)
    → (d.id == id) ≡ true
    → update_client id f (d ∷ cs) ≡ f d ∷ update_client id f cs
unfolding update_client
update_here id f d cs here = rw here refl

closed_here :
    (test : Client → Bool) (id : ℕ) (cs : List Client) (d c : Client)
    → (d.id == id) ≡ true
    → d ≡ c
    → test (close_client d) ≡ false
    → update_client id close_client cs ≡ cs
    → length (keep test (update_client id close_client (d ∷ cs))) + (if test c then 1 else 0)
      ≡ length (keep test (d ∷ cs))
closed_here test id cs d c here e gone same =
    let t : test c ≡ test d = ap test (sym e) in
    rw (update_here id close_client d cs here, same, gone, t)
      (elim (Bool-cases (test d)) [
        | inl counted ↦ rw counted (omega arith)
        | inr uncounted ↦ rw uncounted (omega arith)
      ])

module _ (test : Client → Bool) (shut : (c : Client) → test (close_client c) ≡ false) where
  count-close :
      (n id : ℕ) (cs : List Client) (c : Client)
      → IsNumbered n cs
      → find_client id cs ≡ some c
      → length (keep test (update_client id close_client cs)) + (if test c then 1 else 0)
        ≡ length (keep test cs)
  unfolding update_client
  count-close n id [] c k h = absurd (cc)
  count-close n id (d ∷ cs) c (p, k) h = elim (Bool-cases (d.id == id)) [
    | inl here ↦
        let e : d ≡ c = ground (arith, h, here) in
        let same : update_client id close_client cs ≡ cs =
          update_absent d.id id close_client cs (ground (arith, here)) k in
        let gone : test (close_client d) ≡ false = shut d in
        closed_here test id cs d c here e gone same
    | inr other ↦ rw other (ground (arith, count-close d.id id cs c k (ground (arith, h, other))))
  ]

shut_at : (ip : Text) (c : Client) → is_open_at ip (close_client c) ≡ false
shut_at ip c = refl

closed_count :
    (ip : Text) (c : Client) (s : Server)
    → c.is_open ≡ true
    → ((k : Text) → s.ip_clients k ≡ open_at k s.clients)
    → open_at ip (update_client c.id close_client s.clients) + (if is_open_at ip c then 1 else 0)
      ≡ open_at ip s.clients
    → set_count c.ip (s.ip_clients c.ip - 1) s.ip_clients ip
      ≡ open_at ip (update_client c.id close_client s.clients)
closed_count ip c s is_open counts h = elim (Bool-cases (text_eq c.ip ip)) [
  | inl here ↦
      let e : c.ip ≡ ip = text_eq_sound c.ip ip here in
      let n : s.ip_clients c.ip ≡ s.ip_clients ip = ap s.ip_clients e in
      rw here (ground (arith, h, counts ip, is_open, here, n))
  | inr other ↦ rw other (ground (arith, h, counts ip, is_open, other))
]

closed_shared :
    (ip : Text) (c : Client) (s : Server) {n : ℕ}
    → s.ip_clients ip ≤ n
    → s.ip_clients c.ip ≤ n
    → set_count c.ip (s.ip_clients c.ip - 1) s.ip_clients ip ≤ n
closed_shared ip c s h k = ground arith

close_open-IsServer :
    (id : ℕ) (c : Client) (s : Server)
    → find_client id s.clients ≡ some c
    → c.is_open ≡ true
    → IsServer s
    → IsServer (close_open c s)
unfolding close_open
close_open-IsServer id c s found is_open g =
    let cs = s.clients in
    let same = find_client-id id cs c found in
    let found' = subst (λ i. find_client i cs ≡ some c) (sym same) found in
    record {
      range = g.range;
      initial = g.initial;
      good =
          All-update (IsGood s.cfg) c.id close_client cs
            (λ d h. record {
              paced = record {
                current = h.paced.current;
                window = h.paced.window;
                counted = h.paced.counted;
              };
              template = h.template;
            })
            g.good;
      made = g.made;
      listed = g.listed;
      remembered = g.remembered;
      numbered = update-IsNumbered s.next_id c.id close_client cs (λ d. refl) g.numbered;
      counted = λ ip.
          closed_count ip c s is_open g.counted
            (count-close (is_open_at ip) (shut_at ip) s.next_id c.id cs c g.numbered found');
      limited = omega (
        arith,
        g.limited,
        count-close (λ d. d.is_open) (λ d. refl) s.next_id c.id cs c g.numbered found',
      );
      shared = λ ip. closed_shared ip c s (g.shared ip) (g.shared c.ip);
    }

close_if :
    (id : ℕ) (c : Client) (s : Server)
    → find_client id s.clients ≡ some c
    → IsServer s
    → (b : Bool) → c.is_open ≡ b
    → IsServer (if b then close_open c s else s)
close_if id c s found g true is_open = close_open-IsServer id c s found is_open g
close_if id c s found g false closed = g

-- A client that closes leaves the maps; one that is closed already, or unknown, changes nothing.
pub close-IsServer : (id : ℕ) (s : Server) → IsServer s → IsServer (close id s)
unfolding close
close-IsServer id s g = elim (Option-cases (find_client id s.clients)) [
  | inl unknown ↦ rw (unknown, close) g
  | inr (c, found) ↦ rw (found, close) (close_if id c s found g c.is_open refl)
]

-- A new client starts with the pool's initial difficulty.
new_client-IsGood :
    (cfg : Config) (id : ℕ) (ip : Text) (w : Bool) (sequence : ℕ) (now : Moment)
    → InForce cfg cfg.initial_difficulty
    → IsGood cfg (new_client cfg id ip w sequence now)
unfolding new_client
new_client-IsGood cfg id ip w sequence now f = record {
  paced = record { current = f; window = inl refl; counted = omega arith };
  template = tt;
}

accepted_count :
    (host ip : Text) (c : Client) (s : Server)
    → c.ip ≡ host
    → c.is_open ≡ true
    → ((k : Text) → s.ip_clients k ≡ open_at k s.clients)
    → set_count host (suc (s.ip_clients host)) s.ip_clients ip ≡ open_at ip (c ∷ s.clients)
accepted_count host ip c s from is_open counts = elim (Bool-cases (text_eq host ip)) [
  | inl here ↦
      let n : s.ip_clients host ≡ s.ip_clients ip = ap s.ip_clients (text_eq_sound host ip here) in
      rw (from, is_open, here) (omega (arith, counts ip, n))
  | inr other ↦ rw (from, is_open, other) (counts ip)
]

-- A connection is accepted where neither limit is reached.
pub accept-IsServer :
    (host : Text) (w : Bool) (now : Moment) (s : Server)
    → IsServer s
    → IsServer (accept host w now s)
unfolding accept
accept-IsServer host w now s g =
    elim (Bool-cases (
      leb (pos_part s.cfg.max_miners) (connected s)
      || leb (pos_part s.cfg.max_miners_per_ip) (s.ip_clients host))) [
        | inl full ↦ rw full g
        | inr free ↦ rw free (record {
          range = g.range;
          initial = g.initial;
          good = (
            new_client-IsGood s.cfg s.next_id host w ((s.extra_sequence + 1) % 2 ^ 32) now
                g.initial,
            g.good,
          );
          made = g.made;
          listed = g.listed;
          remembered = g.remembered;
          numbered = unfold new_client in (omega arith, g.numbered);
          counted = λ ip. unfold new_client in accepted_count host ip _ s refl refl g.counted;
          limited = unfold new_client in ground (arith, free);
          shared = λ ip. ground (arith, free, g.shared ip);
        })
      ]
