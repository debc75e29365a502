-- ===== src/Stratum/Work/Templates/Target.antt =====
-- The target and the network difficulty of an accepted template.
use qday_pool.Prelude.{
  ℕ, ◌+◌, ◌*◌, ◌<◌, ◌≡◌, refl, ap, Option, none, some, [], ◌∷◌, length, Text, arith, inl, inr,
  Option-cases,
}
use qday_pool.Stratum.Bytes.{Bytes, hex_value, hex_decode, pair_of}
use qday_pool.Stratum.Bytes.Laws.{IsBytes}
use qday_pool.Stratum.Work.{WorkTemplate, decode32}
use qday_pool.Stratum.Clients.Jobs.{IsTemplate}
use qday_pool.Stratum.Work.Templates.{
  work_template, Template, Fields, BlockCodec, bind, read_fields, decode_branches,
  new_work_template,
}
use qday_pool.Stratum.Work.Templates.Checks.{new_work_template-Passed, bind-some}

hex_value-lt : (c v : ℕ) → hex_value c ≡ some v → v < 16
hex_value-lt c v h = ground arith

pair_of-inv :
    (p q : Option ℕ) (r : Option Bytes) (b : Bytes)
    → pair_of p q r ≡ some b
    → (h : ℕ) × (l : ℕ) × (rest : Bytes) × (p ≡ some h)
      × (q ≡ some l)
      × (r ≡ some rest)
      × (b ≡ (h * 16 + l) ∷ rest)
pair_of-inv (some h) (some l) (some rest) b e = (h, l, rest, refl, refl, refl, ground arith)
pair_of-inv none q r b e = absurd (cc)
pair_of-inv (some h) none r b e = absurd (cc)
pair_of-inv (some h) (some l) none b e = absurd (cc)

pub hex_decode-IsBytes : (s : Text) (b : Bytes) → hex_decode s ≡ some b → IsBytes b
unfolding hex_decode
hex_decode-IsBytes [] b h = let e : b ≡ [] = ground arith in rw e tt
hex_decode-IsBytes (x ∷ []) b h = absurd (cc)
hex_decode-IsBytes (x ∷ y ∷ s) b h =
    let (u, l, rest, p, q, r, e) = pair_of-inv (hex_value x) (hex_value y) (hex_decode s) b h in
    rw e (omega (arith, hex_value-lt x u p, hex_value-lt y l q), hex_decode-IsBytes s rest r)

pub decode32-IsBytes : (s : Text) (b : Bytes) → decode32 s ≡ some b → IsBytes b × (length b ≡ 32)
unfolding decode32
decode32-IsBytes s b h = elim (Option-cases (hex_decode s)) [
  | inl bad ↦ absurd (ground arith)
  | inr (c, read) ↦
      let same : (c ≡ b) × (length b ≡ 32) = ground arith in
      (hex_decode-IsBytes s b (ground (arith, read, same.0)), same.1)
]

-- What follows from a later step follows from the steps before it.
through :
    {A B Q : Type 0} (o : Option A) (f : A → Option B) (b : B)
    → ((a : A) → f a ≡ some b → Q)
    → bind o f ≡ some b
    → Q
through none f b k h = absurd (cc)
through (some a) f b k h = k a h

target_of : Bytes → Option Fields → Bytes
target_of d none = d
target_of d (some f) = f.target

read_fields-target :
    (t : Template) (f : Fields) → read_fields t ≡ some f → decode32 t.target ≡ some f.target
unfolding read_fields target_of
read_fields-target t f h =
    let (parent, (_, h₁)) = bind-some (decode32 t.previous_block_hash) _ f h in
    let (target, (read, h₂)) = bind-some (decode32 t.target) _ f h₁ in
    let Q = target ≡ f.target in
    let same : Q =
      through (decode32 t.commitment) _ f
        (λ _. through (hex_decode t.coinbase1) _ f (λ _. through (hex_decode t.coinbase2) _ f (λ _.
          through (decode_branches t.merkle_branch) _ f (λ _.
            through (hex_decode t.block) _ f
              (λ _. through (hex_decode t.header) _ f (λ _ e. ap (target_of []) e))))))
        h₂ in
    rw (← same) read

-- The target of a template that `newWorkTemplate` accepts is 32 bytes, and its network difficulty
-- is the target's.
pub new_work_template-IsTemplate :
    (blake2b : Bytes → Bytes) (codec : BlockCodec) (t : Template) (w : WorkTemplate)
    → new_work_template blake2b codec t ≡ some w
    → IsTemplate w
new_work_template-IsTemplate blake2b codec t w h =
    let p = new_work_template-Passed blake2b codec t w h in
    let (bytes, size) =
      decode32-IsBytes t.target p.fields.target (read_fields-target t p.fields p.fields_read) in
    let made : IsTemplate (work_template t p.fields p.transactions p.network_diff) = record {
      bytes = bytes;
      size = size;
      difficulty = p.difficulty;
    } in
    rw p.made made
