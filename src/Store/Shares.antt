-- ===== src/Store/Shares.antt =====
-- `RecordShare`, `DeleteShare` and `PruneShares`.
pub mod Valid
pub mod Prune
pub mod Once
use qday_pool.Float.{Float}
use qday_pool.Prelude.{
  ℕ, suc, ◌+◌, Bool, true, false, ◌||◌, not, Option, none, some, List, [], ◌∷◌, Text, codes,
  text_eq, leb, ltb, ◌==◌, any, keep, if◌then◌else◌, ◌&&◌,
}
use qday_pool.Prelude.Int.{ℤ, pos, pos_part, leb_ℤ}
use qday_pool.Decimal.{to_string}
use qday_pool.Store.Tables.{Time, zero_time, ShareRow, Tables}
use qday_pool.Store.Totals.{parse_big}
use qday_pool.Store.Sql.{
  Result, ok, err, M, ◌>>=◌, ◌>>◌, pure, lift, fail_if, or_fail, and_then, sql, incomplete_share,
  duplicate_share, empty_hash, bad_retention,
}

-- `work` is a `*big.Int`, which may be nil.
pub record Share : Type 0 where
  pub created_at : Time
  pub height : ℕ
  pub parent_id : Text
  pub job_id : Text
  pub address : Text
  pub worker : Text
  pub difficulty : Float
  pub work : Option ℤ
  pub hash : Text

-- `t.IsZero()`
abbrev pub is_zero_time : Time → Bool
is_zero_time t = leb_ℤ t zero_time && leb_ℤ zero_time t

abbrev pub is_empty : Text → Bool
is_empty [] = true
is_empty (c ∷ s) = false

-- `w == nil || w.Sign() <= 0`
abbrev pub not_positive : Option ℤ → Bool
not_positive none = true
not_positive (some w) = leb_ℤ w (pos 0)

-- `w.String()`
abbrev pub big_string : Option ℤ → Text
big_string none = codes "<nil>"
big_string (some w) = to_string w

abbrev pub is_incomplete : Share → Bool
is_incomplete s =
    is_zero_time s.created_at
    || s.height == 0
    || is_empty s.address
    || not_positive s.work
    || is_empty s.hash

abbrev pub has_hash : Text → List ShareRow → Bool
has_hash h = any (λ row. text_eq row.hash h)

-- `INSERT … ON CONFLICT(hash) DO NOTHING`: the new id, unless no row was affected.
unfoldable pub insert_share : Share → Tables → Option ℕ × Tables
insert_share s t = if has_hash s.hash t.shares then (none, t) else (
  some (suc t.share_seq),
  record t {
    shares =
        (record {
          id = suc t.share_seq;
          created_at = s.created_at;
          height = s.height;
          parent_id = s.parent_id;
          job_id = s.job_id;
          address = s.address;
          worker = s.worker;
          difficulty = s.difficulty;
          work = big_string s.work;
          hash = s.hash;
        })
        ∷ t.shares;
    share_seq = suc t.share_seq;
  },
)

unfoldable pub record_share : Share → M ℕ
record_share share = do
  fail_if (is_incomplete share) incomplete_share
  affected ← sql (insert_share share)
  lift (or_fail affected duplicate_share)

unfoldable pub delete_share : Text → M (Unit {0})
delete_share hash = do
  fail_if (is_empty hash) empty_hash
  sql (λ t. (tt, record t { shares = keep (λ row. not (text_eq row.hash hash)) t.shares }))

-- The loop of `PruneShares` over the rows, newest first: the id at which the work reaches
-- `retain`, or 0.
unfoldable pub prune_cutoff : ℕ → List ShareRow → ℕ → Result ℕ
prune_cutoff retain [] total = ok 0
prune_cutoff retain (row ∷ rows) total = elim (parse_big row.work) [
  | err e ↦ err e
  | ok work ↦ elim (leb retain (total + work)) [
    | true ↦ ok row.id
    | false ↦ prune_cutoff retain rows (total + work)
  ]
]

-- `DELETE FROM shares WHERE id < cutoff`
unfoldable pub delete_before : ℕ → Tables → Unit {0} × Tables
delete_before cutoff t = (tt, record t { shares = keep (λ row. leb cutoff row.id) t.shares })

abbrev pub magnitude_of : Option ℤ → ℕ
magnitude_of none = 0
magnitude_of (some w) = pos_part w

unfoldable pub prune_shares : Option ℤ → M (Unit {0})
prune_shares retain = do
  fail_if (not_positive retain) bad_retention
  rows ← sql (λ t. (t.shares, t))
  cutoff ← lift (prune_cutoff (magnitude_of retain) rows 0)
  if cutoff == 0 then pure tt else sql (delete_before cutoff)
