-- ===== src/Store/Statistics.antt =====
-- The statistics of the shares: `TopMiners`, `ShareSummary` and `RoundWork`.
pub mod Sums
use qday_pool.Prelude.{
  ℕ, suc, ◌+◌, Bool, true, false, ◌&&◌, ◌||◌, ◌==◌, Option, none, some, List, [], ◌∷◌, ◌++◌,
  reverse, Text, text_eq, text_lt, ltb, take, keep, map, any, length, if◌then◌else◌,
}
use qday_pool.Prelude.Int.{ℤ, pos, pos_part, ltb_ℤ, leb_ℤ}
use qday_pool.Prelude.Sort.{sort_slice}
use qday_pool.Decimal.{decimal}
use qday_pool.Store.Tables.{Time, ShareRow, BlockRow, Tables}
use qday_pool.Store.Totals.{parse_big}
use qday_pool.Store.Sql.{Result, ok, err, M, ◌>>=◌, ◌>>◌, pure, lift, fail_if, sql, invalid_page}

pub record MinerStat : Type 0 where
  pub address : Text
  pub worker : Text
  pub work : Text
  pub shares : ℕ
  pub last_at : Time

-- An entry of the two maps under `key{address, worker}`.
pub record Tally : Type 0 where
  pub address : Text
  pub worker : Text
  pub work : ℕ
  pub shares : ℕ
  pub last_at : Time

abbrev pub is_key : ShareRow → Tally → Bool
is_key row e = text_eq e.address row.address && text_eq e.worker row.worker

-- One round of the loop, on the maps.
unfoldable pub tally_share : ShareRow → ℕ → List Tally → List Tally
tally_share row work [] =
    (record {
      address = row.address;
      worker = row.worker;
      work = work;
      shares = 1;
      last_at = row.created_at;
    })
    ∷ []
tally_share row work (e ∷ es) =
    if is_key row e
    then (record e { work = e.work + work; shares = suc e.shares; last_at = row.created_at }) ∷ es
    else e ∷ tally_share row work es

unfoldable pub tally_rows : List ShareRow → List Tally → Result (List Tally)
tally_rows [] es = ok es
tally_rows (row ∷ rows) es = elim (parse_big row.work) [
  | err e ↦ err e
  | ok work ↦ tally_rows rows (tally_share row work es)
]

abbrev pub miner_stat : Tally → MinerStat
miner_stat e = record {
  address = e.address;
  worker = e.worker;
  work = decimal e.work;
  shares = e.shares;
  last_at = e.last_at;
}

-- More work first, then lower workers. The code reads the work back from its decimal.
abbrev pub by_work : Tally → Tally → Bool
by_work i j = if i.work == j.work then text_lt i.worker j.worker else ltb j.work i.work

abbrev pub is_since : Time → ShareRow → Bool
is_since since row = leb_ℤ since row.created_at

-- `ORDER BY id`: the oldest row first.
unfoldable pub top_miners : Time → ℤ → M (List MinerStat)
top_miners since limit = do
  fail_if (ltb_ℤ limit (pos 1) || ltb_ℤ (pos 100) limit) invalid_page
  rows ← sql (λ t. (reverse (keep (is_since since) t.shares), t))
  tallies ← lift (tally_rows rows [])
  pure (map miner_stat (take (pos_part limit) (sort_slice by_work tallies)))

pub record Summary : Type 0 where
  pub work : ℕ
  pub shares : ℕ
  pub workers : ℕ
  pub addresses : ℕ

-- `set[key] = true` on a set of strings.
abbrev pub insert_key : Text → List Text → List Text
insert_key key keys = if any (text_eq key) keys then keys else key ∷ keys

-- `address+"\x00"+worker`
abbrev pub worker_key : ShareRow → Text
worker_key row = row.address ++ 0 ∷ row.worker

unfoldable pub summarize : List ShareRow → ℕ → ℕ → List Text → List Text → Result Summary
summarize [] work shares workers addresses = ok (record {
  work = work;
  shares = shares;
  workers = length workers;
  addresses = length addresses;
})
summarize (row ∷ rows) work shares workers addresses = elim (parse_big row.work) [
  | err e ↦ err e
  | ok value ↦
      summarize rows (work + value) (suc shares) (insert_key (worker_key row) workers)
        (insert_key row.address addresses)
]

unfoldable pub share_summary : Time → M Summary
share_summary since = do
  rows ← sql (λ t. (keep (is_since since) t.shares, t))
  lift (summarize rows 0 0 [] [])

-- `SELECT MAX(found_at) FROM blocks`; `since.Int64` is 0 where there is no block.
unfoldable pub max_found : List BlockRow → Option Time
max_found [] = none
max_found (b ∷ bs) = elim (max_found bs) [
  | none ↦ some b.found_at
  | some t ↦ some (if leb_ℤ t b.found_at then b.found_at else t)
]

abbrev pub since_of : Option Time → Time
since_of none = pos 0
since_of (some t) = t

unfoldable pub sum_work : List ShareRow → ℕ → Result ℕ
sum_work [] total = ok total
sum_work (row ∷ rows) total = elim (parse_big row.work) [
  | err e ↦ err e
  | ok value ↦ sum_work rows (total + value)
]

unfoldable pub round_work : M ℕ
round_work = do
  found ← sql (λ t. (max_found t.blocks, t))
  rows ← sql (λ t. (keep (λ row. ltb_ℤ (since_of found) row.created_at) t.shares, t))
  lift (sum_work rows 0)
