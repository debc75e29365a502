-- ===== src/Store/Shares/Valid.antt =====
-- The invariant of the shares table.
use qday_pool.Prelude.{
  ℕ, suc, ◌≤◌, ◌<◌, ◌≡◌, refl, Bool, false, not, Option, none, some, List, [], ◌∷◌, Text, text_eq,
  arith, All, keep, leb, Bool-cases, inl, inr,
}
use qday_pool.Prelude.Int.{ℤ, pos, negsuc}
use qday_pool.Decimal.{to_string}
use qday_pool.Store.Tables.{ShareRow, Tables}
use qday_pool.Store.Totals.{parse_big, parse_big-decimal}
use qday_pool.Store.Window.Credit.{HasWork}
use qday_pool.Store.Sql.{ok, Db, sql}
use qday_pool.Store.Shares.{
  Share, is_incomplete, has_hash, insert_share, record_share, delete_share, delete_before,
  prune_shares, not_positive, big_string,
}

-- Ids fall along the list and stay under the bound.
abbrev pub Below : ℕ → List ShareRow → Type 0
Below n [] = Unit
Below n (row ∷ rows) = (row.id < n) × (0 < row.id) × Below row.id rows

-- No two rows share a hash.
abbrev pub UniqueHashes : List ShareRow → Type 0
UniqueHashes [] = Unit
UniqueHashes (row ∷ rows) = (has_hash row.hash rows ≡ false) × UniqueHashes rows

pub record SharesValid (t : Tables) : Type 0 where
  pub numbered : Below (suc t.share_seq) t.shares
  pub worked : All HasWork t.shares
  pub unique : UniqueHashes t.shares

-- The work of a complete share is written as a positive decimal.
big_string-HasWork :
    (w : Option ℤ) → not_positive w ≡ false → (n : ℕ) × (parse_big (big_string w) ≡ ok n) × (0 < n)
unfolding to_string
big_string-HasWork none h = cc
big_string-HasWork (some (pos n)) h = (n, parse_big-decimal n, ground arith)
big_string-HasWork (some (negsuc n)) h = absurd (ground arith)

insert_share-SharesValid :
    (s : Share) (t : Tables)
    → SharesValid t
    → is_incomplete s ≡ false
    → SharesValid (insert_share s t).1
unfolding insert_share
insert_share-SharesValid s t v c = elim (Bool-cases (has_hash s.hash t.shares)) [
  | inl old ↦ rw old v
  | inr new ↦ rw new (record {
    numbered = (omega arith, omega arith, v.numbered);
    worked = (big_string-HasWork s.work (ground arith), v.worked);
    unique = (new, v.unique);
  })
]

Below-mono : (m n : ℕ) (rows : List ShareRow) → m ≤ n → Below m rows → Below n rows
Below-mono m n [] h b = tt
Below-mono m n (row ∷ rows) h b = (omega arith, b.1, b.2)

keep-Below :
    (p : ShareRow → Bool) (n : ℕ) (rows : List ShareRow) → Below n rows → Below n (keep p rows)
keep-Below p n [] b = tt
keep-Below p n (row ∷ rows) b =
    ground (arith, keep-Below p row.id rows b.2, Below-mono row.id n (keep p rows))

pub keep-All :
    (P : ShareRow → Type 0) (p : ShareRow → Bool) (rows : List ShareRow)
    → All P rows
    → All P (keep p rows)
keep-All P p [] h = tt
keep-All P p (row ∷ rows) h = ground (arith, keep-All P p rows h.1)

keep-has_hash :
    (p : ShareRow → Bool) (x : Text) (rows : List ShareRow)
    → has_hash x rows ≡ false
    → has_hash x (keep p rows) ≡ false
keep-has_hash p x [] h = refl
keep-has_hash p x (row ∷ rows) h = ground (arith, keep-has_hash p x rows)

keep-UniqueHashes :
    (p : ShareRow → Bool) (rows : List ShareRow) → UniqueHashes rows → UniqueHashes (keep p rows)
keep-UniqueHashes p [] u = tt
keep-UniqueHashes p (row ∷ rows) u =
    ground (arith, keep-UniqueHashes p rows u.1, keep-has_hash p row.hash rows)

pub keep-SharesValid :
    (p : ShareRow → Bool) (t : Tables)
    → SharesValid t
    → SharesValid (record t { shares = keep p t.shares })
keep-SharesValid p t v = record {
  numbered = keep-Below p (suc t.share_seq) t.shares v.numbered;
  worked = keep-All HasWork p t.shares v.worked;
  unique = keep-UniqueHashes p t.shares v.unique;
}

-- Every call keeps the shares table well-formed, whatever statement fails.
pub record_share-SharesValid :
    (s : Share) (db : Db) → SharesValid db.tables → SharesValid (record_share s db).1.tables
unfolding record_share sql
record_share-SharesValid s db v = ground (arith, insert_share-SharesValid s db.tables v)

pub delete_share-SharesValid :
    (h : Text) (db : Db) → SharesValid db.tables → SharesValid (delete_share h db).1.tables
unfolding delete_share sql
delete_share-SharesValid h db v =
    ground (arith, keep-SharesValid (λ row. not (text_eq row.hash h)) db.tables v)

delete_before-SharesValid : (c : ℕ) (t : Tables) → SharesValid t → SharesValid (delete_before c t).1
unfolding delete_before
delete_before-SharesValid c t v = keep-SharesValid (λ row. leb c row.id) t v

pub prune_shares-SharesValid :
    (r : Option ℤ) (db : Db) → SharesValid db.tables → SharesValid (prune_shares r db).1.tables
unfolding prune_shares sql
prune_shares-SharesValid r db v = grind (arith, delete_before-SharesValid)
