-- ===== src/Stratum/Work/Templates/Checks.antt =====
-- What an accepted template is.
use mathlib.Core.List.{append_assoc}
use qday_pool.Prelude.{
  ℕ, ◌≡◌, refl, ap, sym, ◌∙◌, Bool, true, false, not, ◌&&◌, ◌||◌, ◌==◌, Option, none, some, ◌++◌,
  text_eq_sound, leb, length, drop, take, arith,
}
use qday_pool.Prelude.Hex.{hex_encode}
use qday_pool.Prelude.Int.{pos_part}
use qday_pool.Stratum.Bytes.{Bytes, little_endian, put_little_endian}
use qday_pool.Float.{Float}
use qday_pool.Stratum.Work.Difficulty.{target_difficulty}
use qday_pool.Stratum.Work.{
  WorkTemplate, Job, merkle_root, transaction_leaf, root_of, mempool_transaction_count,
}
use qday_pool.Stratum.Work.Templates.{
  is_blank, equal_fold, last_of, block_agrees, Template, Fields, BlockCodec, bind, unless,
  read_fields, initial_coinbase, initial_root, has_pool_sizes, coinbase_agrees, blocks_agree,
  header_agrees, work_template, new_work_template, is_incomplete, has_no_pool_data, rewards_agree,
  bytes_eq,
}

and_last : (a b c d : Bool) → (a && b && c && d) ≡ true → d ≡ true
and_last true true true d h = h
and_last false b c d h = cc
and_last true false c d h = cc
and_last true true false d h = cc

and_third : (a b c d : Bool) → (a && b && c && d) ≡ true → c ≡ true
and_third true true true d h = refl
and_third false b c d h = cc
and_third true false c d h = cc
and_third true true false d h = cc

and_second : (a b c : Bool) → (a && b && c) ≡ true → b ≡ true
and_second true true c h = refl
and_second false b c h = cc
and_second true false c h = cc

unless-some :
    {A : Type 0} (bad : Bool) (o : Option A) (a : A)
    → unless bad o ≡ some a
    → (bad ≡ false) × (o ≡ some a)
unless-some true o a h = absurd (ground arith)
unless-some false o a h = (refl, h)

pub bind-some :
    {A B : Type 0} (o : Option A) (f : A → Option B) (b : B)
    → bind o f ≡ some b
    → (a : A) × ((o ≡ some a) × (f a ≡ some b))
bind-some none f b h = absurd (ground arith)
bind-some (some a) f b h = (a, (refl, h))

no_others : (a b c : Bool) → (a || b || not c) ≡ false → (a ≡ false) × (c ≡ true)
no_others false false true h = (refl, refl)
no_others false false false h = cc
no_others false true c h = cc
no_others true b c h = cc

both_agree : (a b : Bool) → (not a || not b) ≡ false → (a ≡ true) × (b ≡ true)
both_agree true true h = (refl, refl)
both_agree true false h = cc
both_agree false b h = cc

abbrev from_some : WorkTemplate → Option WorkTemplate → WorkTemplate
from_some d none = d
from_some d (some w) = w

module _ (blake2b : Bytes → Bytes) (codec : BlockCodec) where
  -- An accepted template has passed all checks.
  pub record Passed (t : Template) (w : WorkTemplate) : Type 0 where
    pub fields : Fields
    pub transactions : ℕ
    pub fields_read : read_fields t ≡ some fields
    pub counted : mempool_transaction_count (length t.transactions) ≡ some transactions
    pub complete : is_incomplete t ≡ false
    pub rewards : rewards_agree t ≡ true
    pub sizes : has_pool_sizes t ≡ true
    pub coinbase : coinbase_agrees blake2b codec t fields ≡ true
    pub blocks : blocks_agree blake2b codec t fields ≡ true
    pub network_diff : Float
    pub difficulty : target_difficulty fields.target ≡ some network_diff
    pub made : w ≡ work_template t fields transactions network_diff

  pub new_work_template-Passed :
      (t : Template) (w : WorkTemplate) → new_work_template blake2b codec t ≡ some w → Passed t w
  unfolding new_work_template
  new_work_template-Passed t w h =
      let incomplete = is_incomplete t || has_no_pool_data t || not (rewards_agree t) in
      let disagree = λ (f : Fields).
        not (coinbase_agrees blake2b codec t f) || not (blocks_agree blake2b codec t f) in
      let finish = λ (f : Fields) (n : ℕ) (nd : Float).
        let o : Option WorkTemplate = some (work_template t f n nd) in o in
      let measure = λ (f : Fields) (n : ℕ).
        let o : Option WorkTemplate = bind (target_difficulty f.target) (finish f n) in o in
      let make = λ (f : Fields) (n : ℕ).
        let o : Option WorkTemplate = unless (disagree f) (measure f n) in o in
      let count = mempool_transaction_count (length t.transactions) in
      let size = λ (f : Fields).
        let o : Option WorkTemplate = unless (not (has_pool_sizes t)) (bind count (make f)) in o in
      let (good, h₁) = unless-some incomplete (bind (read_fields t) size) w h in
      let (f, (p, h₂)) = bind-some (read_fields t) size w h₁ in
      let (sized, h₃) = unless-some (not (has_pool_sizes t)) (bind count (make f)) w h₂ in
      let (n, (q, h₄)) = bind-some count (make f) w h₃ in
      let (agree, h₅) = unless-some (disagree f) (measure f n) w h₄ in
      let (nd, (r, h₆)) = bind-some (target_difficulty f.target) (finish f n) w h₅ in
      let (complete, rewards) =
        no_others (is_incomplete t) (has_no_pool_data t) (rewards_agree t) good in
      let (coinbase, blocks) =
        both_agree (coinbase_agrees blake2b codec t f) (blocks_agree blake2b codec t f) agree in
      record {
        fields = f;
        transactions = n;
        fields_read = p;
        counted = q;
        complete = complete;
        rewards = rewards;
        sizes = ground (arith, sized);
        coinbase = coinbase;
        blocks = blocks;
        network_diff = nd;
        difficulty = r;
        made = sym (ap (from_some w) h₆);
      }

  -- A job on an accepted template whose two extranonces are the template's own nonce has the
  -- template's commitment as its Merkle root, that is the last 32 bytes of the template's header.
  pub new_work_template-root :
      (t : Template) (w : WorkTemplate) (j : Job) (extra2 : Bytes)
      → new_work_template blake2b codec t ≡ some w
      → j.template ≡ w
      → j.extra_nonce1 ++ extra2 ≡ put_little_endian 8 t.work_nonce
      → (f : Fields) × ((read_fields t ≡ some f) × (root_of blake2b j extra2 ≡ drop 48 f.header))
  new_work_template-root t w j extra2 h on nonce =
      let p = new_work_template-Passed t w h in
      let f = p.fields in
      let template = on ∙ p.made in
      let root_on = λ (v : WorkTemplate).
        merkle_root blake2b v.merkle_branch
          (transaction_leaf blake2b (v.coinbase1 ++ j.extra_nonce1 ++ extra2 ++ v.coinbase2)) in
      let parts : f.coinbase1 ++ j.extra_nonce1 ++ extra2
          ≡ f.coinbase1 ++ put_little_endian 8 t.work_nonce =
        append_assoc f.coinbase1 j.extra_nonce1 extra2 ∙ ap (λ s. f.coinbase1 ++ s) nonce in
      let root : root_of blake2b j extra2 ≡ initial_root blake2b codec t f =
        ap root_on template
        ∙ ap (λ s. merkle_root blake2b f.branches (transaction_leaf blake2b (s ++ f.coinbase2)))
            parts in
      let committed =
        and_last (not (is_blank f.coinbase1))
          (equal_fold (hex_encode (initial_coinbase t f)) (last_of t.transactions))
          (leb (length f.branches) 64) (bytes_eq (initial_root blake2b codec t f) f.commitment)
          p.coinbase in
      let agrees =
        and_third (leb 80 (length f.block)) (length f.header == 80) (header_agrees t f)
          (block_agrees blake2b codec t f (codec.decode f.block)) p.blocks in
      let header =
        and_second (bytes_eq (take 32 f.header) f.parent) (bytes_eq (drop 48 f.header) f.commitment)
          (little_endian (take 8 (drop 40 f.header)) == pos_part t.timestamp) agrees in
      (
        f,
        (
          p.fields_read,
          root
              ∙ text_eq_sound (initial_root blake2b codec t f) f.commitment committed
              ∙ sym (text_eq_sound (drop 48 f.header) f.commitment header),
        ),
      )
