-- ===== src/Stratum/Login/Labels.antt =====
-- Logins that `parseWorkerLogin` accepts.
use mathlib.Core.List.{append-nil}
use mathlib.Core.Option
use qday_pool.Prelude.{
  ℕ, zero, suc, ◌≤◌, ◌<◌, ◌≡◌, refl, ap, sym, ◌∙◌, Bool, true, false, not, ◌&&◌, ◌||◌, ◌==◌, Option,
  none, some, [], ◌∷◌, ◌++◌, Text, text_eq_sound, text_eq_refl, ltb, take, drop, length,
  length-append, if◌then◌else◌, arith, All-append, Bool-cases, Option-cases, inl, inr, ◌⊎◌, codes,
}
use qday_pool.Amount.Spaces.{trim_space, IsPlain, is_plain, trim_space-plain}
use qday_pool.Stratum.Login.{is_label_byte, is_label, worker_of, is_canonical, parse_worker_login}

plain_byte : (c : ℕ) (b : Bool) → (is_label_byte c && b) ≡ true → is_plain c ≡ true
plain_byte c b h = ground arith

label_rest : (c : ℕ) (s : Text) → is_label (c ∷ s) ≡ true → is_label s ≡ true
label_rest c s h = ground arith

label-IsPlain : (s : Text) → is_label s ≡ true → IsPlain s
label-IsPlain [] h = tt
label-IsPlain (c ∷ s) h = (plain_byte c (is_label s) h, label-IsPlain s (label_rest c s h))

take-append : (n : ℕ) (a s : Text) → length a ≡ n → take n (a ++ s) ≡ a
take-append zero [] s h = refl
take-append zero (x ∷ a) s h = absurd (omega arith)
take-append (suc n) [] s h = absurd (omega arith)
take-append (suc n) (x ∷ a) s h = ap (◌∷◌ x) (take-append n a s (omega arith))

drop-append : (n : ℕ) (a s : Text) → length a ≡ n → drop n (a ++ s) ≡ s
drop-append zero [] s h = refl
drop-append zero (x ∷ a) s h = absurd (omega arith)
drop-append (suc n) [] s h = absurd (omega arith)
drop-append (suc n) (x ∷ a) s h = drop-append n a s (omega arith)

take-drop : (n : ℕ) (s : Text) → take n s ++ drop n s ≡ s
take-drop zero s = refl
take-drop (suc n) [] = refl
take-drop (suc n) (x ∷ s) = ap (◌∷◌ x) (take-drop n s)

length-take : (n : ℕ) (s : Text) → n ≤ length s → length (take n s) ≡ n
length-take zero s h = refl
length-take (suc n) [] h = absurd (omega arith)
length-take (suc n) (x ∷ s) h = omega (arith, length-take n s (omega arith))

worker_of-label :
    (c : ℕ) (s : Text) → is_label (c ∷ s) ≡ true → worker_of (b'.' ∷ c ∷ s) ≡ some (c ∷ s)
unfolding worker_of
worker_of-label c s h = rw h refl

canonical-good :
    (canonical : Text → Option Text) (a : Text)
    → canonical a ≡ some a
    → is_canonical canonical a ≡ true
unfolding is_canonical
canonical-good canonical a known = rw (known, is_canonical) (text_eq_refl a)

module _ (canonical : Text → Option Text) where
  -- A canonical address of 64 plain bytes, a dot and a label of 1 to 32 bytes are read back.
  pub parse_worker_login-append :
      (address : Text) (c : ℕ) (worker : Text)
      → IsPlain address
      → length address ≡ 64
      → canonical address ≡ some address
      → is_label (c ∷ worker) ≡ true
      → length (c ∷ worker) ≤ 32
      → parse_worker_login canonical (address ++ b'.' ∷ c ∷ worker) ≡ some (address, c ∷ worker)
  unfolding parse_worker_login
  parse_worker_login-append address c worker plain size known label short =
      let s = address ++ b'.' ∷ c ∷ worker in
      let trimmed : trim_space s ≡ s = trim_space-plain s (
        All-append (λ x. is_plain x ≡ true) address (b'.' ∷ c ∷ worker) plain
          (refl, label-IsPlain (c ∷ worker) label)) in
      let long = length-append address (b'.' ∷ c ∷ worker) in
      let fits : (ltb (length s) 64 || ltb 97 (length s)) ≡ false =
        ground (arith, long, size, short) in
      let good : is_canonical canonical address ≡ true = canonical-good canonical address known in
      rw
        (
          trimmed,
          fits,
          take-append 64 address (b'.' ∷ c ∷ worker) size,
          good,
          drop-append 64 address (b'.' ∷ c ∷ worker) size,
          worker_of-label c worker label,
        )
        refl

-- The parts of a login that is accepted.
pub record IsLogin (canonical : Text → Option Text) (given address worker : Text) : Type 0 where
  pub size : length address ≡ 64
  pub known : canonical address ≡ some address
  pub label : is_label worker ≡ true
  pub short : (0 < length worker) × (length worker ≤ 32)
  pub whole : (trim_space given ≡ address) ⊎ (trim_space given ≡ address ++ b'.' ∷ worker)

module _ (canonical : Text → Option Text) where
  canonical-known : (a : Text) → is_canonical canonical a ≡ true → canonical a ≡ some a
  unfolding is_canonical
  canonical-known a h = elim (Option-cases (canonical a)) [
    | inl unknown ↦ absurd (ground arith)
    | inr (s, known) ↦ known ∙ ap some (text_eq_sound s a (ground (arith, known)))
  ]

worker_of-inv :
    (s worker : Text)
    → worker_of s ≡ some worker
    → (is_label worker ≡ true)
      × (0 < length worker)
      × (((s ≡ []) × (length worker ≡ 7)) ⊎ (s ≡ b'.' ∷ worker))
unfolding worker_of
worker_of-inv [] worker h =
    let e : worker ≡ codes "default" = ground arith in rw e (refl, omega arith, inl (refl, refl))
worker_of-inv (c ∷ []) worker h = absurd (ground arith)
worker_of-inv (c ∷ d ∷ s) worker h = elim (Bool-cases (c == b'.')) [
  | inr other ↦ absurd (ground arith)
  | inl dot ↦ elim (Bool-cases (is_label (d ∷ s))) [
    | inr bad ↦ absurd (ground arith)
    | inl label ↦
        let e : worker ≡ d ∷ s = ground arith in
        rw e (label, omega arith, inr (ground (arith, dot)))
  ]
]

abbrev pair_or : Text × Text → Option (Text × Text) → Text × Text
pair_or d none = d
pair_or d (some p) = p

parts-IsLogin :
    (canonical : Text → Option Text) (given address worker w : Text)
    → take 64 (trim_space given) ≡ address
    → w ≡ worker
    → (64 ≤ length (trim_space given)) × (length (trim_space given) ≤ 97)
    → is_canonical canonical (take 64 (trim_space given)) ≡ true
    → worker_of (drop 64 (trim_space given)) ≡ some w
    → IsLogin canonical given address worker
parts-IsLogin canonical given address worker w a e (long, short) known read =
    let value = trim_space given in
    let (label, some_label, forms) = worker_of-inv (drop 64 value) worker (read ∙ ap some e) in
    let split : address ++ drop 64 value ≡ value = rw (← a) (take-drop 64 value) in
    let size : length address ≡ 64 = rw (← a) (length-take 64 value long) in
    record {
      size = size;
      known = canonical-known canonical address (rw (← a) known);
      label = label;
      short = (
        some_label,
        elim forms [
          | inl (_, default) ↦ omega (arith, default)
          | inr dotted ↦ omega (
            arith,
            ap length split,
            ap length dotted,
            length-append address (drop 64 value),
            size,
            short,
          )
        ],
      );
      whole = elim forms [
        | inl (alone, _) ↦ inl (sym split ∙ ap (λ s. address ++ s) alone ∙ append-nil address)
        | inr dotted ↦ inr (sym split ∙ ap (λ s. address ++ s) dotted)
      ];
    }

login_sizes : (n : ℕ) → (ltb n 64 || ltb 97 n) ≡ false → (64 ≤ n) × (n ≤ 97)
login_sizes n h = ground arith

abbrev with_address : Text → Text → Text × Text
with_address a w = (a, w)

login_inv :
    (long good : Bool) (o : Option Text) (a address worker : Text)
    → (if long then none else if not good then none else Option.map (with_address a) o)
      ≡ some (address, worker)
    → (w : Text) × (long ≡ false) × (good ≡ true) × (o ≡ some w) × (a ≡ address) × (w ≡ worker)
login_inv false true (some w) a address worker h =
    (w, refl, refl, refl, ap (λ o. (pair_or (a, w) o).0) h, ap (λ o. (pair_or (a, w) o).1) h)
login_inv false true none a address worker h = absurd (cc)
login_inv false false o a address worker h = absurd (cc)
login_inv true good o a address worker h = absurd (cc)

-- What `parseWorkerLogin` accepts: the login, spaces around it trimmed, is a canonical address of 64
-- bytes, alone or followed by a dot and a label of 1 to 32 letters, digits, dashes and underscores.
pub parse_worker_login-IsLogin :
    (canonical : Text → Option Text) (given address worker : Text)
    → parse_worker_login canonical given ≡ some (address, worker)
    → IsLogin canonical given address worker
unfolding parse_worker_login
parse_worker_login-IsLogin canonical given address worker h =
    let value = trim_space given in
    let (w, sized, known, read, a, e) =
      login_inv (ltb (length value) 64 || ltb 97 (length value))
        (is_canonical canonical (take 64 value)) (worker_of (drop 64 value)) (take 64 value) address
        worker h in
    parts-IsLogin canonical given address worker w a e (login_sizes (length value) sized) known read
