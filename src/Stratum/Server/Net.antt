-- ===== src/Stratum/Server/Net.antt =====
-- The invariant of the server: its connections, its clients' difficulties and its jobs.
use qday_pool.Prelude.{
  ℕ, ◌≤◌, ◌<◌, ◌≡◌, refl, Bool, false, ◌==◌, Option, none, some, List, [], ◌∷◌, Text, text_eq, any,
  keep, length, map, if◌then◌else◌, if_both, arith, All, sym, ◌∙◌,
}
use qday_pool.Prelude.Int.{pos_part}
use qday_pool.Stratum.Config.{Config}
use qday_pool.Stratum.Clients.{Client}
use qday_pool.Stratum.Clients.Vardiff.{IsRange, IsPaced, InForce}
use qday_pool.Stratum.Clients.Jobs.{IsTemplate, IsJob}
use qday_pool.Stratum.Work.{WorkTemplate, Job}
use qday_pool.Stratum.Server.{Server, update_client, is_open_at, max_remembered_jobs}

abbrev pub HasTemplate : Option WorkTemplate → Type 0
HasTemplate none = Unit
HasTemplate (some t) = IsTemplate t

pub record IsGood (cfg : Config) (c : Client) : Type 0 where
  pub paced : IsPaced cfg c
  pub template : HasTemplate c.template

-- Newer clients have higher numbers, so no two have the same.
abbrev pub IsNumbered : ℕ → List Client → Type 0
IsNumbered n [] = Unit
IsNumbered n (c ∷ cs) = (c.id < n) × IsNumbered c.id cs

abbrev pub open_at : Text → List Client → ℕ
open_at ip cs = length (keep (is_open_at ip) cs)

abbrev pub open_count : List Client → ℕ
open_count cs = length (keep (λ c. c.is_open) cs)

-- The initial difficulty and every client's difficulties may be in force and its template is a template; every job that is
-- remembered is a job, and is listed, and so at most `max_remembered_jobs` are; and the counts by IP
-- are those of the open clients, of which there are no more than is allowed.
pub record IsNet (cfg : Config) (clients : List Client) (next_id : ℕ) (ip_clients : Text → ℕ)
    (jobs : Text → Option Job) (order : List Text) : Type 0 where
  pub range : IsRange cfg
  pub initial : InForce cfg cfg.initial_difficulty
  pub good : All (IsGood cfg) clients
  pub made : (k : Text) (j : Job) → jobs k ≡ some j → IsJob cfg j
  pub listed : (k : Text) → any (λ x. text_eq x k) order ≡ false → jobs k ≡ none
  pub remembered : length order ≤ max_remembered_jobs
  pub numbered : IsNumbered next_id clients
  pub counted : (ip : Text) → ip_clients ip ≡ open_at ip clients
  pub limited : open_count clients ≤ pos_part cfg.max_miners
  pub shared : (ip : Text) → ip_clients ip ≤ pos_part cfg.max_miners_per_ip

abbrev pub IsServer : Server → Type 0
IsServer s = IsNet s.cfg s.clients s.next_id s.ip_clients s.jobs s.job_order

-- A change of a client that leaves its number, IP and connection alone.
abbrev pub Keeps : (Client → Client) → Type 0
Keeps f = (c : Client) → ((f c).id ≡ c.id) × ((f c).ip ≡ c.ip) × ((f c).is_open ≡ c.is_open)

pub All-map_clients {κ} :
    (P : Client → Type κ) (f : Client → Client) (cs : List Client)
    → ((c : Client) → P c → P (f c))
    → All P cs
    → All P (map f cs)
All-map_clients P f [] k h = tt
All-map_clients P f (c ∷ cs) k (p, h) = (k c p, All-map_clients P f cs k h)

map-IsNumbered :
    (n : ℕ) (f : Client → Client) (cs : List Client)
    → ((c : Client) → (f c).id ≡ c.id)
    → IsNumbered n cs
    → IsNumbered n (map f cs)
map-IsNumbered n f [] k h = tt
map-IsNumbered n f (c ∷ cs) k (p, h) = rw (k c) (p, map-IsNumbered c.id f cs k h)

-- A test that the change leaves alone counts as many.
keep-map :
    (test : Client → Bool) (f : Client → Client) (cs : List Client)
    → ((c : Client) → test (f c) ≡ test c)
    → length (keep test (map f cs)) ≡ length (keep test cs)
keep-map test f [] k = refl
keep-map test f (c ∷ cs) k = ground (arith, k c, keep-map test f cs k)

open_same :
    (ip : Text) (f : Client → Client) (c : Client)
    → ((f c).id ≡ c.id) × ((f c).ip ≡ c.ip) × ((f c).is_open ≡ c.is_open)
    → is_open_at ip (f c) ≡ is_open_at ip c
open_same ip f c (_, p, q) = rw (p, q) refl

-- What a change of the clients keeps.
pub map-IsNet :
    {cfg : Config} {cs : List Client} {n : ℕ} {ips : Text → ℕ} {jobs : Text → Option Job}
    {order : List Text} (f : Client → Client)
    → Keeps f
    → ((c : Client) → IsGood cfg c → IsGood cfg (f c))
    → IsNet cfg cs n ips jobs order
    → IsNet cfg (map f cs) n ips jobs order
map-IsNet {cfg} {cs} {n} f same good g = record {
  range = g.range;
  initial = g.initial;
  good = All-map_clients (IsGood cfg) f cs good g.good;
  made = g.made;
  listed = g.listed;
  remembered = g.remembered;
  numbered = map-IsNumbered n f cs (λ c. (same c).0) g.numbered;
  counted =
      λ ip. g.counted ip ∙ sym (keep-map (is_open_at ip) f cs (λ c. open_same ip f c (same c)));
  limited = omega (arith, g.limited, keep-map (λ c. c.is_open) f cs (λ c. (same c).2));
  shared = g.shared;
}

pub All-update {κ} :
    (P : Client → Type κ) (id : ℕ) (f : Client → Client) (cs : List Client)
    → ((c : Client) → P c → P (f c))
    → All P cs
    → All P (update_client id f cs)
unfolding update_client
All-update P id f cs k h =
    All-map_clients P (λ c. if c.id == id then f c else c) cs
      (λ c p. if_both P (c.id == id) (k c p) p) h

pub update-IsNumbered :
    (n id : ℕ) (f : Client → Client) (cs : List Client)
    → ((c : Client) → (f c).id ≡ c.id)
    → IsNumbered n cs
    → IsNumbered n (update_client id f cs)
unfolding update_client
update-IsNumbered n id f cs k h =
    map-IsNumbered n (λ c. if c.id == id then f c else c) cs
      (λ c. if_both (λ (v : Client). v.id ≡ c.id) (c.id == id) (k c) refl) h

-- What a change of one client keeps.
pub with_client-IsNet :
    {cfg : Config} {cs : List Client} {n : ℕ} {ips : Text → ℕ} {jobs : Text → Option Job}
    {order : List Text} (id : ℕ) (f : Client → Client)
    → Keeps f
    → ((c : Client) → IsGood cfg c → IsGood cfg (f c))
    → IsNet cfg cs n ips jobs order
    → IsNet cfg (update_client id f cs) n ips jobs order
unfolding update_client
with_client-IsNet {cfg} {cs} {n} id f same good g =
    map-IsNet (λ c. if c.id == id then f c else c)
      (λ c.
        if_both (λ (v : Client). (v.id ≡ c.id) × (v.ip ≡ c.ip) × (v.is_open ≡ c.is_open))
          (c.id == id) (same c) (refl, refl, refl))
      (λ c i. if_both (IsGood cfg) (c.id == id) (good c i) i) g
