-- ===== src/Stratum/Clients/Jobs.antt =====
-- The jobs that `newJob` makes.
use qday_pool.Prelude.{
  ℕ, ◌+◌, ◌≤◌, ◌<◌, ◌≡◌, refl, true, false, ◌==◌, some, arith, Text, Bool-cases, inl, inr, length,
}
use qday_pool.Float.{Float, not_a_number, infinite, finite, lt, le}
use qday_pool.Float.Laws.{IsFinite}
use qday_pool.Stratum.Bytes.{Bytes, big_endian, put_big_endian, bytes_le}
use qday_pool.Stratum.Bytes.Laws.{
  IsBytes, bytes_le-big_endian, put_big_endian-IsBytes, length-put_big_endian,
}
use qday_pool.Stratum.Config.{Config, zero_float}
use qday_pool.Stratum.Work.{WorkTemplate, Job, Codec, header_of, judge, with_block, solved_block}
use qday_pool.Stratum.Work.Difficulty.{target_difficulty, target_for_difficulty}
use qday_pool.Stratum.Work.Difficulty.Targets.{
  target-le-share, target_difficulty-IsFinite, target_difficulty-inv, target_for_difficulty-inv,
  chosen_value,
}
use qday_pool.Stratum.Clients.{Client, job_timestamp, new_job, u64}
use qday_pool.Stratum.Clients.Vardiff.{InForce}

-- The target is 32 bytes, and the network difficulty is the target's.
pub record IsTemplate (t : WorkTemplate) : Type 0 where
  pub bytes : IsBytes t.target
  pub size : length t.target ≡ 32
  pub difficulty : target_difficulty t.target ≡ some t.network_diff

-- A job's share target is 32 bytes that stand for no less than the network's target, and its
-- difficulty may be in force.
pub record IsJob (cfg : Config) (j : Job) : Type 0 where
  pub template : IsTemplate j.template
  pub bytes : IsBytes j.share_target
  pub size : length j.share_target ≡ 32
  pub covers : big_endian j.template.target 0 ≤ big_endian j.share_target 0
  pub in_force : InForce cfg j.difficulty

easy_target :
    (d : Float)
    → IsFinite d
    → lt zero_float d ≡ true
    → (share : Bytes) × (target_for_difficulty d ≡ some share)
unfolding target_for_difficulty lt
easy_target (finite false k) f p =
    let nonzero : (k == 0) ≡ false = ground (arith, p) in
    (put_big_endian 32 (chosen_value k), rw nonzero refl)
easy_target (finite true k) f p = absurd (ground (arith, p))
easy_target not_a_number f p = elim f [ ]
easy_target (infinite s) f p = elim f [ ]

not_le→lt : (x y : Float) → IsFinite x → IsFinite y → le y x ≡ false → lt x y ≡ true
unfolding le lt
not_le→lt (finite s a) (finite t b) f g h = ground arith
not_le→lt not_a_number y f g h = elim f [ ]
not_le→lt (infinite s) y f g h = elim f [ ]
not_le→lt (finite s a) not_a_number f g h = elim g [ ]
not_le→lt (finite s a) (infinite t) f g h = elim g [ ]

positive_number : (k : ℕ) → 0 < k → lt zero_float (finite false k) ≡ true
unfolding lt
positive_number k h = ground arith

le_trans : (x y z : Float) → le x y ≡ true → le y z ≡ true → le x z ≡ true
unfolding le
le_trans x y z p q = ground arith

positive_target :
    (target share : Bytes) (d : Float) (nd : Float)
    → IsBytes target
    → length target ≡ 32
    → target_difficulty target ≡ some nd
    → target_for_difficulty d ≡ some share
    → IsFinite d
    → lt d nd ≡ true
    → IsBytes share × (length share ≡ 32) × (big_endian target 0 ≤ big_endian share 0)
positive_target target share (finite false k) nd bytes size read chosen (fits, _) easier =
    let (is_share, _) = target_for_difficulty-inv k share chosen in
    (
      rw is_share (put_big_endian-IsBytes 32 (chosen_value k)),
      rw is_share (length-put_big_endian 32 (chosen_value k)),
      target-le-share target share k nd bytes size read chosen fits easier,
    )
positive_target target share (finite true k) nd bytes size read chosen f easier =
    absurd (unfold target_for_difficulty in ground (arith, chosen))
positive_target target share not_a_number nd bytes size read chosen f easier = elim f [ ]
positive_target target share (infinite s) nd bytes size read chosen f easier = elim f [ ]

module _ (cfg : Config) (t : WorkTemplate) (ok : IsTemplate t) where
  share_IsJob :
      (d : Float) (share : Bytes)
      → InForce cfg d
      → le t.network_diff d ≡ false
      → target_for_difficulty d ≡ some share
      → IsBytes share × (length share ≡ 32) × (big_endian t.target 0 ≤ big_endian share 0)
  share_IsJob d share f h chosen =
      let less =
        not_le→lt d t.network_diff f.number
          (target_difficulty-IsFinite t.target t.network_diff ok.difficulty) h in
      positive_target t.target share d t.network_diff ok.bytes ok.size ok.difficulty chosen f.number
        less

  network_InForce :
      (d : Float) → InForce cfg d → le t.network_diff d ≡ true → InForce cfg t.network_diff
  network_InForce d f h =
      let (is_nd, _, some_nd, _) = target_difficulty-inv t.target t.network_diff ok.difficulty in
      record {
        number = target_difficulty-IsFinite t.target t.network_diff ok.difficulty;
        positive = rw is_nd (positive_number _ some_nd);
        limited = le_trans t.network_diff d cfg.maximum_difficulty h f.limited;
      }

  -- For a template whose difficulty is its target's, and a difficulty in force, `newJob` always makes
  -- a job: it is the client's, its difficulty may be in force, and its share target is 32 bytes that
  -- stand for no less than the network's target, as `big.Float` rounds it.
  pub new_job_total :
      (id : Text) (sequence unix : ℕ) (c : Client) (d : Float)
      → InForce cfg d
      → (j : Job) × ((new_job t id sequence c unix d).0 ≡ some j)
        × IsJob cfg j
        × (j.owner ≡ c.id)
        × (j.sequence ≡ sequence)
        × (j.address ≡ c.address)
        × (j.worker ≡ c.worker)
  unfolding new_job job_timestamp
  new_job_total id sequence unix c d f = elim (Bool-cases (le t.network_diff d)) [
    | inl hard ↦ rw hard (
      _,
      refl,
      record {
        template = ok;
        bytes = ok.bytes;
        size = ok.size;
        covers = omega arith;
        in_force = network_InForce d f hard;
      },
      refl,
      refl,
      refl,
      refl,
    )
    | inr easy ↦
        let (share, chosen) = easy_target d f.number f.positive in
        let (bytes, size, covers) = share_IsJob d share f easy chosen in
        rw (easy, chosen)
          (
            _,
            refl,
            record { template = ok; bytes = bytes; size = size; covers = covers; in_force = f },
            refl,
            refl,
            refl,
            refl,
          )
  ]

-- A hash of 32 bytes that meets the network's target of such a job is never discarded as a share of
-- low difficulty: `solve` rebuilds the block with it.
pub judge-network :
    (cfg : Config) (blake2b : Bytes → Bytes) (codec : Codec) (j : Job) (extra2 nonce time : Bytes)
    → IsJob cfg j
    → IsBytes (blake2b (header_of blake2b j extra2 nonce time))
    → length (blake2b (header_of blake2b j extra2 nonce time)) ≡ 32
    → bytes_le (blake2b (header_of blake2b j extra2 nonce time)) j.template.target ≡ true
    → judge blake2b codec j extra2 nonce time
      ≡ with_block blake2b codec
          (solved_block blake2b codec j extra2 nonce time)
          (blake2b (header_of blake2b j extra2 nonce time))
unfolding judge
judge-network cfg blake2b codec j extra2 nonce time ok bytes size meets =
    let hash = blake2b (header_of blake2b j extra2 nonce time) in
    let target = j.template.target in
    let low =
      bytes_le-big_endian hash target 0 bytes ok.template.bytes
        (omega (arith, size, ok.template.size)) in
    let share =
      bytes_le-big_endian hash j.share_target 0 bytes ok.bytes (omega (arith, size, ok.size)) in
    let easy : bytes_le hash j.share_target ≡ true = ground (arith, low, share, meets, ok.covers) in
    rw (easy, meets) refl

-- The timestamps that a client's jobs are given rise, as long as they stay below 2 ^ 64.
pub job_timestamp_rises :
    (candidate : ℕ) (c : Client)
    → c.last_time + 1 < u64
    → (c.last_time < (job_timestamp candidate c).0)
      × (candidate ≤ (job_timestamp candidate c).0)
      × ((job_timestamp candidate c).1.last_time ≡ (job_timestamp candidate c).0)
unfolding job_timestamp
job_timestamp_rises candidate c h = ground arith
