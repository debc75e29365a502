-- ===== src/Store/Window.antt =====
-- The PPLNS window of `AllocateBlock`: accepted shares, newest first, until their work reaches
-- the window.
pub mod Credit
use qday_pool.Prelude.{
  ℕ, ◌+◌, ◌-◌, ◌<◌, ◌≡◌, true, false, List, [], ◌∷◌, Text, ltb, ◌==◌, if◌then◌else◌,
}
use qday_pool.Store.Tables.{ShareRow}
use qday_pool.Store.Totals.{Totals, add_amount, parse_big}
use qday_pool.Store.Sql.{Result, ok, err, invalid_stored_work}

-- `if work.Cmp(remaining) > 0 { work = remaining }`
abbrev pub clip : ℕ → ℕ → ℕ
clip work remaining = if ltb remaining work then remaining else work

-- The loop over the rows, on `grouped` and `selected`.
unfoldable pub select_window : ℕ → List ShareRow → Totals → ℕ → Result (Totals × ℕ)
select_window window [] grouped selected = ok (grouped, selected)
select_window window (row ∷ rows) grouped selected = elim (ltb selected window) [
  | false ↦ ok (grouped, selected)
  | true ↦ elim (parse_big row.work) [
    | err _ ↦ err invalid_stored_work
    | ok work ↦ elim (work == 0) [
      | true ↦ err invalid_stored_work
      | false ↦
          let credit = clip work (window - selected) in
          select_window window rows (add_amount row.address credit grouped) (selected + credit)
    ]
  ]
]
