-- ===== src/Store/Shares/Prune.antt =====
-- What pruning keeps: the newest rows and the PPLNS windows.
use mathlib.Core.Path.{subst}
use native.Mathlib.Decide.{dec_lt}
use qday_pool.Prelude.{
  ℕ, suc, ◌+◌, ◌-◌, ◌≤◌, ◌<◌, min, ◌≡◌, refl, ap, Option, List, [], ◌∷◌, arith, sym, ◌∙◌, keep, leb,
  ltb, ◌==◌, if◌then◌else◌, ◌⊎◌, inl, inr,
}
use qday_pool.Prelude.Int.{ℤ}
use qday_pool.Store.Tables.{ShareRow}
use qday_pool.Store.Totals.{Totals, add_amount, parse_big, atoms}
use qday_pool.Store.Window.{clip, select_window}
use qday_pool.Store.Window.Credit.{total_work, select_window_stop}
use qday_pool.Store.Sql.{ok, Db, sql, Result-cases}
use qday_pool.Store.Shares.{prune_cutoff, delete_before, prune_shares, magnitude_of}
use qday_pool.Store.Shares.Valid.{Below, SharesValid}

-- The rows, newest first, until their work and `total` reach `retain`.
pub newest : ℕ → ℕ → List ShareRow → List ShareRow
newest retain total [] = []
newest retain total (row ∷ rows) =
    let rest = newest retain (total + atoms row.work) rows in
    row ∷ (if leb retain (total + atoms row.work) then [] else rest)

-- `id <= cutoff`
abbrev pub upto : ℕ → List ShareRow → List ShareRow
upto cutoff = keep (λ row. leb row.id cutoff)

keep_all : (n c : ℕ) (rows : List ShareRow) → Below n rows → n ≤ suc c → upto c rows ≡ rows
keep_all n c [] b h = refl
keep_all n c (row ∷ rows) b h = ground (arith, keep_all row.id c rows b.2)

-- Behind the row with the cutoff's id every id is smaller.
keep_none :
    (n c : ℕ) (rows : List ShareRow) → Below n rows → n ≤ c → keep (λ row. leb c row.id) rows ≡ []
keep_none n c [] b h = refl
keep_none n c (row ∷ rows) b h = ground (arith, keep_none row.id c rows b.2)

-- The DELETE leaves the newest rows.
prune_cutoff-newest :
    (retain total n c : ℕ) (rows : List ShareRow)
    → Below n rows
    → prune_cutoff retain rows total ≡ ok c
    → (if c == 0 then rows else keep (λ row. leb c row.id) rows) ≡ newest retain total rows
      × ((c ≡ 0) ⊎ (c < n))
unfolding prune_cutoff newest atoms
prune_cutoff-newest retain total n c [] b h = ground arith
prune_cutoff-newest retain total n c (row ∷ rows) b h = ground (
  arith,
  keep_none row.id row.id rows b.2,
  prune_cutoff-newest retain (total + atoms row.work) row.id c rows b.2,
)

-- A window that starts `base` behind the newest row and ends within `retain` sees no difference.
select_window-newest :
    (retain window base before : ℕ) (rows : List ShareRow) (g : Totals)
    → base + window ≤ retain
    → select_window window (newest retain (base + before) rows) g (min window before)
      ≡ select_window window rows g (min window before)
unfolding newest select_window atoms
select_window-newest retain window base before [] g h = refl
select_window-newest retain window base before (row ∷ rows) g h =
    elim (Result-cases (parse_big row.work)) [
      | inr (e, bad) ↦ ground arith
      | inl (w, p) ↦
          let g' = add_amount row.address (clip w (window - min window before)) g in
          let regroup : base + (before + w) ≡ base + before + w = omega arith in
          let ih =
            subst
              (λ t.
                select_window window (newest retain t rows) g' (min window (before + w))
                ≡ select_window window rows g' (min window (before + w)))
              regroup (select_window-newest retain window base (before + w) rows g' h) in
          let next : min window before + clip w (window - min window before)
              ≡ min window (before + w) =
            ground arith in
          ground (arith, p, next, ih, select_window_stop window (min window (before + w)) rows g')
    ]

select_window-newest_start :
    (retain window base : ℕ) (rows : List ShareRow) (g : Totals)
    → base + window ≤ retain
    → select_window window (newest retain base rows) g 0 ≡ select_window window rows g 0
select_window-newest_start retain window base rows g h =
    let none_before : min window 0 ≡ 0 = omega arith in
    let start : base + 0 ≡ base = omega arith in
    rw (none_before, start) at (select_window-newest retain window base 0 rows g h)

newest-Below :
    (n retain total : ℕ) (rows : List ShareRow) → Below n rows → Below n (newest retain total rows)
unfolding newest
newest-Below n retain total [] b = tt
newest-Below n retain total (row ∷ rows) b =
    ground (arith, newest-Below row.id retain (total + atoms row.work) rows b.2)

-- The work of the shares behind the cutoff, that is of those newer than it.
abbrev pub newer_work : ℕ → List ShareRow → ℕ
newer_work cutoff rows = total_work (keep (λ row. ltb cutoff row.id) rows)

window_upto :
    (retain window base cutoff n : ℕ) (rows : List ShareRow) (g : Totals)
    → Below n rows
    → base + newer_work cutoff rows + window ≤ retain
    → select_window window (upto cutoff (newest retain base rows)) g 0
      ≡ select_window window (upto cutoff rows) g 0
unfolding newest
window_upto retain window base cutoff n [] g b h = refl
window_upto retain window base cutoff n (row ∷ rows) g b h = elim (dec_lt cutoff row.id) [
  | yes newer ↦ ground (
    arith,
    window_upto retain window (base + atoms row.work) cutoff row.id rows g b.2,
    select_window_stop window 0 (upto cutoff rows) g,
    select_window_stop window 0 [] g,
  )
  | no older ↦
      let whole = keep_all (suc row.id) cutoff (row ∷ rows) (omega arith, b.1, b.2) (omega arith) in
      let kept =
        keep_all (suc row.id) cutoff (newest retain base (row ∷ rows))
          (newest-Below (suc row.id) retain base (row ∷ rows) (omega arith, b.1, b.2))
          (omega arith) in
      ap (λ t. select_window window t g 0) kept
      ∙ select_window-newest_start retain window base (row ∷ rows) g (omega arith)
      ∙ sym (ap (λ t. select_window window t g 0) whole)
]

-- A prune of well-formed shares that succeeds leaves the newest rows whose work reaches the
-- retention, or all rows where their work is less.
pub prune_shares-newest :
    (r : Option ℤ) (db db' : Db)
    → SharesValid db.tables
    → prune_shares r db ≡ (ok tt, db')
    → db'.tables.shares ≡ newest (magnitude_of r) 0 db.tables.shares
unfolding prune_shares delete_before sql
prune_shares-newest r db db' v h =
    elim (Result-cases (prune_cutoff (magnitude_of r) db.tables.shares 0)) [
      | inr (e, bad) ↦ absurd (ground arith)
      | inl (c, p) ↦ ground (
        arith,
        prune_cutoff-newest (magnitude_of r) 0 (suc db.tables.share_seq) c db.tables.shares
            v.numbered p,
      )
    ]

-- A prune of well-formed shares that succeeds keeps every PPLNS window whose work, together with
-- that of the shares newer than its cutoff, is within the retention: the window is selected from
-- the pruned table as from the table before.
pub prune_keeps_windows :
    (r : Option ℤ) (db db' : Db) (cutoff window : ℕ)
    → SharesValid db.tables
    → prune_shares r db ≡ (ok tt, db')
    → newer_work cutoff db.tables.shares + window ≤ magnitude_of r
    → select_window window (upto cutoff db'.tables.shares) [] 0
      ≡ select_window window (upto cutoff db.tables.shares) [] 0
prune_keeps_windows r db db' cutoff window v h fits = rw (prune_shares-newest r db db' v h) (
    window_upto (magnitude_of r) window 0 cutoff (suc db.tables.share_seq) db.tables.shares []
      v.numbered (omega arith))
