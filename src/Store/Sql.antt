-- ===== src/Store/Sql.antt =====
-- Database calls: a statement reads and writes the tables or fails, and a transaction that fails
-- leaves them as they were. The driver is not under this repository: which of the statements
-- to come fail is a stream of Booleans that the caller chooses.
use qday_pool.Prelude.{
  ℕ, suc, ◌≡◌, refl, ap, Bool, false, Option, none, some, arith, ◌⊎◌, inl, inr, if◌then◌else◌,
}
use qday_pool.Store.Tables.{Tables}

pub data Error : Type 0 where
  sql_error : Error
  incomplete_share : Error
  duplicate_share : Error
  empty_hash : Error
  bad_retention : Error
  invalid_integer : Error
  invalid_block : Error
  invalid_reward : Error
  already_allocated : Error
  invalid_stored_work : Error
  no_accepted_shares : Error
  constraint : Error
  no_rows : Error
  invalid_page : Error
  invalid_policy : Error
  no_entropy : Error
  invalid_payout_state : Error
  payout_not_found : Error

pub data Result {ℓ} (A : Type ℓ) : Type ℓ where
  ok : A → Result A
  err : Error → Result A

-- `fails n` says that the n-th of the statements to come fails.
pub record Db : Type 0 where
  pub tables : Tables
  pub fails : ℕ → Bool

abbrev pub M {ℓ} : Type ℓ → Type ℓ
M A = Db → Result A × Db

infixl 5 ◌>>=◌ ◌>>◌
abbrev pub ◌>>=◌ {ℓ κ} : {A : Type ℓ} {B : Type κ} → M A → (A → M B) → M B
◌>>=◌ m f db = let (r, db') = m db in elim r [ ok a ↦ f a db' | err e ↦ (err e, db') ]

abbrev pub ◌>>◌ {ℓ} : {B : Type ℓ} → M (Unit {0}) → M B → M B
m >> k = m >>= λ _. k

abbrev pub pure {ℓ} : {A : Type ℓ} → A → M A
pure a db = (ok a, db)

abbrev pub lift {ℓ} : {A : Type ℓ} → Result A → M A
lift r db = (r, db)

-- `if bad { return err }`
abbrev pub fail_if : Bool → Error → M (Unit {0})
fail_if bad e db = (if bad then err e else ok tt, db)

abbrev pub or_fail {ℓ} : {A : Type ℓ} → Option A → Error → Result A
or_fail none e = err e
or_fail (some a) e = ok a

abbrev pub and_then {ℓ κ} : {A : Type ℓ} {B : Type κ} → Result A → (A → Result B) → Result B
and_then (ok a) f = f a
and_then (err e) f = err e

abbrev pub tick : Db → Db
tick db = record db { fails = λ n. db.fails (suc n) }

-- One statement.
unfoldable pub sql {ℓ} : {A : Type ℓ} → (Tables → A × Tables) → M A
sql f db =
    if db.fails 0
    then (err sql_error, tick db)
    else (let (a, t) = f db.tables in (ok a, record (tick db) { tables = t }))

-- The end of a transaction: commit, which may fail, or the deferred rollback.
unfoldable pub finish {ℓ} : {A : Type ℓ} → Tables → Result A × Db → Result A × Db
finish old (err e, db) = (err e, record db { tables = old })
finish old (ok a, db) =
    if db.fails 0 then (err sql_error, record (tick db) { tables = old }) else (ok a, tick db)

-- `tx, err := s.db.Begin(); defer tx.Rollback(); …; tx.Commit()`
unfoldable pub tx {ℓ} : {A : Type ℓ} → M A → M A
tx m db = if db.fails 0 then (err sql_error, tick db) else finish db.tables (m (tick db))

-- Calls that go on.
pub >>=-ok {ℓ κ} :
    {A : Type ℓ} {B : Type κ} (m : M A) (f : A → M B) (db : Db) {a : A} {db₁ : Db}
    → m db ≡ (ok a, db₁)
    → (m >>= f) db ≡ f a db₁
>>=-ok {A} {B} m f db h =
    ap
      (λ (r : Result A × Db).
        let x : Result B × Db = elim r.0 [ ok a ↦ f a r.1 | err e ↦ (err e, r.1) ] in x)
      h

pub sql-ok {ℓ} :
    {A : Type ℓ} (f : Tables → A × Tables) (db : Db)
    → db.fails 0 ≡ false
    → sql f db ≡ (ok (f db.tables).0, record (tick db) { tables = (f db.tables).1 })
unfolding sql
sql-ok f db h = rw h refl

-- Inversion of calls that succeed.
module _ {ℓ κ} {A : Type ℓ} {B : Type κ} where
  bind_split :
      (f : A → M B) (r : Result A × Db) {b : B} {db' : Db}
      → ◌≡◌ {A = Result B × Db} (elim r.0 [ ok a ↦ f a r.1 | err e ↦ (err e, r.1) ]) (ok b, db')
      → (a : A) × (db₁ : Db) × (r ≡ (ok a, db₁)) × (f a db₁ ≡ (ok b, db'))
  bind_split f (ok a, db₁) h = (a, db₁, refl, h)
  bind_split f (err e, db₁) h = absurd (ground arith)

  pub >>=-eq-ok :
      (m : M A) (f : A → M B) (db : Db) {b : B} {db' : Db}
      → (m >>= f) db ≡ (ok b, db')
      → (a : A) × (db₁ : Db) × (m db ≡ (ok a, db₁)) × (f a db₁ ≡ (ok b, db'))
  >>=-eq-ok m f db h = bind_split f (m db) h

abbrev snd_of {ℓ} : {A : Type ℓ} → Result A × Db → Db
snd_of r = r.1

-- What holds of the tables behind a bind.
module _ {ℓ κ} {A : Type ℓ} {B : Type κ} (P : Tables → Type 0) where
  bind_after :
      (f : A → M B) (r : Result A × Db)
      → ((e : Error) (db₁ : Db) → r ≡ (err e, db₁) → P db₁.tables)
      → ((a : A) (db₁ : Db) → r ≡ (ok a, db₁) → P (f a db₁).1.tables)
      → P (snd_of {A = B} (elim r.0 [ ok a ↦ f a r.1 | err e ↦ (err e, r.1) ])).tables
  bind_after f (ok a, db₁) bad good = good a db₁ refl
  bind_after f (err e, db₁) bad good = bad e db₁ refl

  pub >>=-after :
      (m : M A) (f : A → M B) (db : Db)
      → ((e : Error) (db₁ : Db) → m db ≡ (err e, db₁) → P db₁.tables)
      → ((a : A) (db₁ : Db) → m db ≡ (ok a, db₁) → P (f a db₁).1.tables)
      → P ((m >>= f) db).1.tables
  >>=-after m f db bad good = bind_after f (m db) bad good

module _ {ℓ} {A : Type ℓ} where
  -- A statement that succeeds returns what it reads and leaves what it writes.
  pub sql-eq-ok :
      (f : Tables → A × Tables) (db : Db) {a : A} {db' : Db}
      → sql f db ≡ (ok a, db')
      → (a ≡ (f db.tables).0) × (db'.tables ≡ (f db.tables).1)
  unfolding sql
  sql-eq-ok f db h = ground arith

  -- A statement that fails changes nothing.
  pub sql-eq-err :
      (f : Tables → A × Tables) (db : Db) {e : Error} {db' : Db}
      → sql f db ≡ (err e, db')
      → db'.tables ≡ db.tables
  unfolding sql
  sql-eq-err f db h = ground arith

  finish-eq-ok :
      (old : Tables) (r : Result A × Db) {a : A} {db' : Db}
      → finish old r ≡ (ok a, db')
      → (r.0 ≡ ok a) × (db'.tables ≡ r.1.tables)
  unfolding finish
  finish-eq-ok old (ok a, db) h = ground arith
  finish-eq-ok old (err e, db) h = absurd (ground arith)

  finish-eq-err :
      (old : Tables) (r : Result A × Db) {e : Error} {db' : Db}
      → finish old r ≡ (err e, db')
      → db'.tables ≡ old
  unfolding finish
  finish-eq-err old (ok a, db) h = ground arith
  finish-eq-err old (err e, db) h = ground arith

  -- A transaction that commits leaves what its body left.
  pub tx-eq-ok :
      (m : M A) (db : Db) {a : A} {db' : Db}
      → tx m db ≡ (ok a, db')
      → ((m (tick db)).0 ≡ ok a) × (db'.tables ≡ (m (tick db)).1.tables)
  unfolding tx
  tx-eq-ok m db {a} {db'} h =
      ground (arith, finish-eq-ok db.tables (m (tick db)) {a = a} {db' = db'})

  -- A transaction that fails, at any statement, leaves the tables as they were.
  pub tx-eq-err :
      (m : M A) (db : Db) {e : Error} {db' : Db} → tx m db ≡ (err e, db') → db'.tables ≡ db.tables
  unfolding tx
  tx-eq-err m db {e} {db'} h =
      ground (arith, finish-eq-err db.tables (m (tick db)) {e = e} {db' = db'})

-- A database of which no statement fails.
abbrev pub Healthy : Db → Type 0
Healthy db = (n : ℕ) → db.fails n ≡ false

abbrev pub healthy : Tables → Db
healthy t = record { tables = t; fails = λ _. false }

pub Result-cases {ℓ} :
    {A : Type ℓ} (r : Result A) → ((a : A) × (r ≡ ok a)) ⊎ ((e : Error) × (r ≡ err e))
Result-cases (ok a) = inl (a, refl)
Result-cases (err e) = inr (e, refl)
