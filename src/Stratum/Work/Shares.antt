-- ===== src/Stratum/Work/Shares.antt =====
-- What a share that `solve` accepts is worth.
use native.Mathlib.Nat.{div-mul-le_self, lt-div-mul-add, le-div_iff_mul-le}
use qday_pool.Prelude.{
  ℕ, suc, ◌*◌, ◌^◌, ◌≤◌, ◌<◌, ◌≡◌, refl, sym, ◌∙◌, true, false, none, some, Text, length, arith,
  Bool-cases, ◌⊎◌, inl, inr, ◌↔◌, ap, Option-cases,
}
use qday_pool.Stratum.Bytes.{Bytes, hex_decode, little_endian, big_endian, bytes_le}
use qday_pool.Stratum.Bytes.Laws.{IsBytes, bytes_le-big_endian, big_endian-bounded}
use qday_pool.Stratum.Work.{
  Job, Checked, good, bad, Codec, target_work, Solution, field_of, header_of, solved_block,
  with_block, judge, solve,
}

-- The work of a target times the number of hashes that meet it is 2 ^ 256, up to one such number;
-- and every target of 32 bytes stands for at least one hash of work.
pub target_work-bounds :
    (target : Bytes)
    → IsBytes target
    → length target ≡ 32
    → (target_work target * suc (big_endian target 0) ≤ 2 ^ 256)
      × (2 ^ 256 < suc (target_work target) * suc (big_endian target 0))
      × (0 < target_work target)
unfolding target_work
target_work-bounds target h l =
    let v = big_endian target 0 in
    let below = rw l at (big_endian-bounded target 0 1 h (omega arith)) in
    (
      div-mul-le_self (2 ^ 256) (suc v),
      omega (arith, lt-div-mul-add {a = 2 ^ 256} {b = suc v} (omega arith)),
      (le-div_iff_mul-le {k = suc v} {x = 1} {y = 2 ^ 256} (omega arith)).1 (omega (arith, below)),
    )

-- The fields that a share's texts encode, and what the hash of the header that they make up has
-- to do with the job's two targets.
pub record Accepted (blake2b : Bytes → Bytes) (codec : Codec) (j : Job) (e t n : Text)
    (s : Solution) : Type 0 where
  pub extra2 : Bytes
  pub time : Bytes
  pub nonce : Bytes
  pub extra2_read : (hex_decode e ≡ some extra2) × (length extra2 ≡ j.template.extra2_size)
  pub time_read : (hex_decode t ≡ some time) × (length time ≡ 8)
  pub nonce_read : (hex_decode n ≡ some nonce) × (length nonce ≡ 8)
  pub assigned :
      (length j.extra_nonce1 ≡ j.template.extra1_size) × (little_endian time ≡ j.timestamp)
  pub hashed : s.hash ≡ blake2b (header_of blake2b j extra2 nonce time)
  pub meets : bytes_le s.hash j.share_target ≡ true
  pub is_network : s.network ≡ bytes_le s.hash j.template.target
  pub rebuilt :
      ((s.network ≡ false) × (s.block ≡ none))
      ⊎ ((b : Bytes) × ((s.block ≡ some b)
            × (solved_block blake2b codec j extra2 nonce time ≡ good b)))

-- A field that is read is the text's bytes, and has its size.
field_of-read :
    (size : ℕ) (encoded : Text) (b : Bytes)
    → field_of size encoded ≡ some b
    → (hex_decode encoded ≡ some b) × (length b ≡ size)
field_of-read size encoded b h = elim (Option-cases (hex_decode encoded)) [
  | inl bad_text ↦ absurd (ground arith)
  | inr (c, read) ↦ ground arith
]

module _ (blake2b : Bytes → Bytes) (codec : Codec) where
  with_block-good :
      (r : Checked Bytes) (hash : Bytes) (s : Solution)
      → with_block blake2b codec r hash ≡ good s
      → (b : Bytes) × ((r ≡ good b) × ((s.hash ≡ hash) × (s.network ≡ true) × (s.block ≡ some b)))
  with_block-good (bad e) hash s h = absurd (ground arith)
  with_block-good (good b) hash s h = (b, (refl, ground arith))

  -- What `judge` answers when it accepts.
  judge-good :
      (j : Job) (extra2 nonce time : Bytes) (s : Solution)
      → judge blake2b codec j extra2 nonce time ≡ good s
      → let hash = blake2b (header_of blake2b j extra2 nonce time) in
        (s.hash ≡ hash)
        × (bytes_le hash j.share_target ≡ true)
        × (s.network ≡ bytes_le hash j.template.target)
        × (((s.network ≡ false) × (s.block ≡ none))
            ⊎ ((b : Bytes) × ((s.block ≡ some b)
                  × (solved_block blake2b codec j extra2 nonce time ≡ good b))))
  unfolding judge
  judge-good j extra2 nonce time s h =
      let hash = blake2b (header_of blake2b j extra2 nonce time) in
      elim (Bool-cases (bytes_le hash j.share_target)) [
        | inr misses ↦ absurd (ground arith)
        | inl meets ↦ elim (Bool-cases (bytes_le hash j.template.target)) [
          | inr shared ↦ (ground arith, meets, ground arith, inl (ground arith, ground arith))
          | inl solves ↦
              let (b, (made, (same, net, block))) =
                with_block-good (solved_block blake2b codec j extra2 nonce time) hash s
                  (ground arith) in
              (same, meets, net ∙ sym solves, inr (b, (block, made)))
        ]
      ]

  pub solve-Accepted :
      (j : Job) (e t n : Text) (s : Solution)
      → solve blake2b codec j e t n ≡ good s
      → Accepted blake2b codec j e t n s
  unfolding solve
  solve-Accepted j e t n s h = elim (Option-cases (field_of j.template.extra2_size e)) [
    | inl missing ↦ absurd (ground arith)
    | inr (extra2, p) ↦ elim (Option-cases (field_of 8 t)) [
      | inl missing ↦ absurd (ground arith)
      | inr (time, q) ↦ elim (Option-cases (field_of 8 n)) [
        | inl missing ↦ absurd (ground arith)
        | inr (nonce, r) ↦
            let checked : (length j.extra_nonce1 ≡ j.template.extra1_size)
                × (little_endian time ≡ j.timestamp)
                × (judge blake2b codec j extra2 nonce time ≡ good s) =
              ground arith in
            let (hashed, meets, net, made) = judge-good j extra2 nonce time s checked.2 in
            record {
              extra2 = extra2;
              time = time;
              nonce = nonce;
              extra2_read = field_of-read j.template.extra2_size e extra2 p;
              time_read = field_of-read 8 t time q;
              nonce_read = field_of-read 8 n nonce r;
              assigned = (checked.0, checked.1);
              hashed = hashed;
              meets = rw hashed meets;
              is_network = rw hashed net;
              rebuilt = made;
            }
      ]
    ]
  ]

  -- As numbers: where BLAKE2b gives 32 bytes, the hash of an accepted share is at most the job's
  -- share target; and the share is reported as a block of the network if and only if its hash is
  -- at most the template's target.
  pub solve-targets :
      (j : Job) (e t n : Text) (s : Solution)
      → ((m : Bytes) → IsBytes (blake2b m) × (length (blake2b m) ≡ 32))
      → IsBytes j.share_target × (length j.share_target ≡ 32)
      → IsBytes j.template.target × (length j.template.target ≡ 32)
      → solve blake2b codec j e t n ≡ good s
      → (big_endian s.hash 0 ≤ big_endian j.share_target 0)
        × ((s.network ≡ true) ↔ (big_endian s.hash 0 ≤ big_endian j.template.target 0))
  solve-targets j e t n s sized (p, k) (q, l) h =
      let a = solve-Accepted j e t n s h in
      let m = header_of blake2b j a.extra2 a.nonce a.time in
      let compare = λ (target : Bytes) (b : IsBytes target) (size : length target ≡ 32).
        bytes_le-big_endian (blake2b m) target 0 (sized m).0 b ((sized m).1 ∙ sym size) in
      let share = compare j.share_target p k in
      let network = compare j.template.target q l in
      let hashed : big_endian s.hash 0 ≡ big_endian (blake2b m) 0 =
        ap (λ b. big_endian b 0) a.hashed in
      let meets : bytes_le (blake2b m) j.share_target ≡ true =
        ap (λ b. bytes_le b j.share_target) (sym a.hashed) ∙ a.meets in
      let net : s.network ≡ bytes_le (blake2b m) j.template.target =
        a.is_network ∙ ap (λ b. bytes_le b j.template.target) a.hashed in
      (
        ground (arith, share, meets, hashed),
        (
          λ x. ground (arith, network, net, hashed, x),
          λ x. ground (arith, network, net, hashed, x),
        ),
      )
