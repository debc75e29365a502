-- ===== src/Store/Shares/Once.antt =====
-- Shares of the same hash.
use qday_pool.Prelude.{
  ◌≡◌, refl, false, not, List, [], ◌∷◌, Text, text_eq, text_eq_refl, arith, keep,
}
use qday_pool.Store.Tables.{ShareRow}
use qday_pool.Store.Sql.{Db, sql, Healthy}
use qday_pool.Store.Shares.{
  Share, is_incomplete, has_hash, insert_share, record_share, delete_share,
}

keep_fresh :
    (h : Text) (rows : List ShareRow)
    → has_hash h rows ≡ false
    → keep (λ row. not (text_eq row.hash h)) rows ≡ rows
keep_fresh h [] p = refl
keep_fresh h (row ∷ rows) p = ground (arith, keep_fresh h rows)

-- Where no statement fails, and a share is complete and no share has its hash, recording it and
-- then deleting its hash leaves the shares that were there before.
pub delete_share-record_share :
    (s : Share) (db : Db)
    → Healthy db
    → is_incomplete s ≡ false
    → has_hash s.hash db.tables.shares ≡ false
    → (delete_share s.hash (record_share s db).1).1.tables.shares ≡ db.tables.shares
unfolding record_share delete_share sql insert_share
delete_share-record_share s db up complete fresh =
    ground (arith, up 0, up 1, text_eq_refl s.hash, keep_fresh s.hash db.tables.shares fresh)
