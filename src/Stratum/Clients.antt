-- ===== src/Stratum/Clients.antt =====
-- `client` of internal/stratum/server.go: what the server keeps of a connection, and what changes
-- its difficulty. A moment is a number of nanoseconds; a `time.Time` that is zero is `none`.
pub mod Durations
pub mod Jobs
pub mod Vardiff
pub mod Paced
pub mod Frame
use qday_pool.Prelude.{
  ℕ, suc, ◌+◌, ◌-◌, ◌*◌, ◌/◌, ◌%◌, ◌^◌, Bool, true, false, not, ◌&&◌, ◌||◌, ◌==◌, Option, none,
  some, List, [], ◌∷◌, Text, codes, leb, ltb, take, min, if◌then◌else◌,
}
use qday_pool.Prelude.Int.{pos_part}
use mathlib.Core.Option
use qday_pool.Float.{Float, finite, constant, lt, le, eq, abs, add, sub, mul, div, fmax, fmin}
use qday_pool.Stratum.Bytes.{Bytes, put_little_endian}
use qday_pool.Stratum.Config.{Config, second, zero_float}
use qday_pool.Stratum.Work.{WorkTemplate, Job}
use qday_pool.Stratum.Work.Difficulty.{target_for_difficulty}

abbrev pub Moment : Type 0
Moment = ℕ

abbrev pub u64 : ℕ
u64 = 2 ^ 64

-- `id` stands for the pointer. Of the connection the model keeps whether writes to it succeed, and
-- whether the client is still open, which is what its `once` says.
pub record Client : Type 0 where
  pub id : ℕ
  pub ip : Text
  pub is_writable : Bool
  pub is_open : Bool
  pub subscribed : Bool
  pub authorized : Bool
  pub address : Text
  pub worker : Text
  pub template : Option WorkTemplate
  pub difficulty : Float
  pub last_diff : Float
  pub last_job : ℕ
  pub last_time : ℕ
  pub vardiff_started : Option Moment
  pub vardiff_difficulty : Float
  pub vardiff_shares : ℕ
  pub last_share : Option Moment
  pub extra_nonce : Bytes
  pub submits : List Text
  pub rate_at : Moment
  pub rate_n : ℕ

-- `newClient`: `sequence` is the server's sequence of extranonces, counted up.
unfoldable pub new_client : Config → ℕ → Text → Bool → ℕ → Moment → Client
new_client cfg id ip is_writable sequence now = record {
  id = id;
  ip = ip;
  is_writable = is_writable;
  is_open = true;
  subscribed = false;
  authorized = false;
  address = [];
  worker = [];
  template = none;
  difficulty = cfg.initial_difficulty;
  last_diff = zero_float;
  last_job = 0;
  last_time = 0;
  vardiff_started = none;
  vardiff_difficulty = zero_float;
  vardiff_shares = 0;
  last_share = none;
  extra_nonce = put_little_endian 4 sequence;
  submits = [];
  rate_at = now;
  rate_n = 0;
}

-- `extraNonceBytes`; nil is the empty list.
unfoldable pub extra_nonce_bytes : ℕ → Client → Bytes
extra_nonce_bytes size c =
    if size == 0 then [] else if ltb 4 size then [] else take size c.extra_nonce

-- `jobTimestamp`: the lock is held, so this is one step. The sum is a uint64.
unfoldable pub job_timestamp : ℕ → Client → ℕ × Client
job_timestamp candidate c =
    let t = if leb candidate c.last_time then (c.last_time + 1) % u64 else candidate in
    (t, record c { last_time = t })

-- `newJob`, at the second `unix` of its clock; `none` is its error.
unfoldable pub new_job : WorkTemplate → Text → ℕ → Client → ℕ → Float → Option Job × Client
new_job t id sequence owner unix difficulty =
    let (time, owner') = job_timestamp (if ltb unix t.timestamp then t.timestamp else unix) owner in
    let job_at = λ (d : Float) (share_target : Bytes).
      let j : Job = record {
        template = t;
        id = id;
        owner = owner'.id;
        address = owner'.address;
        worker = owner'.worker;
        sequence = sequence;
        timestamp = time;
        extra_nonce1 = extra_nonce_bytes t.extra1_size owner';
        difficulty = d;
        share_target = share_target;
      } in
      j in
    if le t.network_diff difficulty
    then (some (job_at t.network_diff t.target), owner')
    else (Option.map (job_at difficulty) (target_for_difficulty difficulty), owner')

-- `Duration.Seconds`
unfoldable pub seconds : ℕ → Float
seconds d = add (constant (d / second) 1) (div (constant (d % second) 1) (constant second 1))

-- `sameDifficulty`
unfoldable pub same_difficulty : Float → Float → Bool
same_difficulty a b =
    eq a b || le (abs (sub a b)) (mul (fmax (abs a) (abs b)) (constant 1 1_000_000_000))

unfoldable pub reset_vardiff : Moment → Float → Client → Client
reset_vardiff now difficulty c = record c {
  vardiff_started = some now;
  vardiff_difficulty = difficulty;
  vardiff_shares = 0;
}

-- The longest `time.Duration`, at which `Sub` saturates.
abbrev pub longest : ℕ
longest = 2 ^ 63 - 1

-- `now.Sub(started)`; a negative one counts as zero, since the code asks only whether it is positive
-- and compares it with positive durations.
abbrev pub since : Moment → Moment → ℕ
since now started = min (now - started) longest

abbrev pub is_fast : ℕ → ℕ → Bool
is_fast shares elapsed = leb 3 shares && (ltb 0 elapsed && leb elapsed (5 * second))

-- The factor of a window, within its limits.
unfoldable pub window_factor : Config → ℕ → ℕ → Float
window_factor cfg shares elapsed = fmax (constant 1 2) (
    fmin (if is_fast shares elapsed then constant 4 1 else constant 2 1) (
      div (mul (constant shares 1) (seconds (pos_part cfg.share_target)))
        (seconds (if elapsed == 0 then 1_000_000 else elapsed))))

-- The difficulty for the next window, within the pool's limits.
unfoldable pub next_difficulty : Config → Float → ℕ → ℕ → Float
next_difficulty cfg difficulty shares elapsed =
    fmax cfg.minimum_difficulty
      (fmin cfg.maximum_difficulty (mul difficulty (window_factor cfg shares elapsed)))

abbrev pub is_small_change : Float → Float → Bool
is_small_change next previous = lt (abs (sub (div next previous) (constant 1 1))) (constant 15 100)

-- The end of a window of `acceptedAt`.
unfoldable pub end_window : Config → Moment → ℕ → ℕ → Client → Bool × Client
end_window cfg now shares elapsed c =
    let next = next_difficulty cfg c.vardiff_difficulty shares elapsed in
    let c' = reset_vardiff now next c in
    if is_small_change next c.difficulty
    then (false, record c' { vardiff_difficulty = c.difficulty })
    else (true, record c' { difficulty = next })

-- `acceptedAt` in a window that started.
unfoldable pub in_window : Config → Moment → Moment → Client → Bool × Client
in_window cfg now started c =
    let shares = (c.vardiff_shares + 1) % u64 in
    let elapsed = since now started in
    let c' : Client = record c { vardiff_shares = shares } in
    if ltb elapsed (90 * second) && not (is_fast shares elapsed)
    then (false, c')
    else end_window cfg now shares elapsed c'

unfoldable pub start_window : Moment → Float → Client → Bool × Client
unfolding reset_vardiff
start_window now share_difficulty c =
    (false, reset_vardiff now share_difficulty (record c { difficulty = share_difficulty }))

-- `acceptedAt`
unfoldable pub accepted_at : Config → Moment → Float → Client → Bool × Client
accepted_at cfg now share_difficulty c =
    let c' : Client = record c { last_share = some now } in
    if not (same_difficulty share_difficulty c.last_diff)
    then (false, c')
    else elim c.vardiff_started [
      | none ↦ start_window now share_difficulty c'
      | some started ↦
          if not (same_difficulty c.vardiff_difficulty share_difficulty)
          then start_window now share_difficulty c'
          else in_window cfg now started c'
    ]

abbrev pub is_busy : Config → Moment → Option Moment → Bool
is_busy cfg now none = true
is_busy cfg now (some last) = ltb (since now last) (4 * pos_part cfg.share_target)

-- `lowerIdleDifficulty`
unfoldable pub lower_idle_difficulty : Config → Moment → Client → Client
lower_idle_difficulty cfg now c =
    if is_busy cfg now c.last_share || le c.difficulty cfg.minimum_difficulty then c else record c {
      difficulty = fmax cfg.minimum_difficulty (div c.difficulty (constant 2 1));
      last_share = some now;
      vardiff_started = none;
      vardiff_difficulty = zero_float;
      vardiff_shares = 0;
    }
