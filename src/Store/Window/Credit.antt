-- ===== src/Store/Window/Credit.antt =====
-- What the window selects: the work on the interval from 0 to the window, share by share.
use qday_pool.Prelude.{
  ℕ, ◌+◌, ◌-◌, ◌≤◌, ◌<◌, min, ◌≡◌, refl, List, [], ◌∷◌, Text, arith, text_eq, All, sum_of,
  if◌then◌else◌,
}
use mathlib.Core.Path.{subst}
use native.Mathlib.Decide.{dec_lt}
use qday_pool.Store.Tables.{ShareRow}
use qday_pool.Store.Sql.{ok}
use qday_pool.Store.Totals.{
  Totals, value, Distinct, grand_total, add_amount, parse_big, atoms, atoms_of_parse,
  value-add_amount, grand_total-add_amount, add_amount-Distinct,
}
use qday_pool.Store.Window.{clip, select_window}

-- A row whose work column holds a positive decimal.
abbrev pub HasWork : ShareRow → Type 0
HasWork row = (n : ℕ) × (parse_big row.work ≡ ok n) × (0 < n)

abbrev pub total_work : List ShareRow → ℕ
total_work = sum_of (λ row. atoms row.work)

-- The part of a share's work that lies inside the window, when newer shares did `newer`.
abbrev pub overlap : ℕ → ℕ → ℕ → ℕ
overlap window newer work = min window (newer + work) - min window newer

-- The work of one address inside the window.
pub window_credit : ℕ → ℕ → Text → List ShareRow → ℕ
window_credit window newer a [] = 0
window_credit window newer a (row ∷ rows) =
    (if text_eq row.address a then overlap window newer (atoms row.work) else 0)
    + window_credit window (newer + atoms row.work) a rows

-- Nothing is credited behind the window.
window_credit_past :
    (window newer : ℕ) (a : Text) (rows : List ShareRow)
    → window ≤ newer
    → window_credit window newer a rows ≡ 0
unfolding window_credit
window_credit_past window newer a [] h = refl
window_credit_past window newer a (row ∷ rows) h =
    ground (arith, window_credit_past window (newer + atoms row.work) a rows)

-- What the loop has done, from `grouped` and behind shares of work `newer`.
pub record Selects (window newer : ℕ) (rows : List ShareRow) (g : Totals) (g' : Totals) (s' : ℕ)
    : Type 0 where
  pub credited : (a : Text) → value a g' ≡ value a g + window_credit window newer a rows
  pub reached : s' ≡ min window (newer + total_work rows)
  pub summed : grand_total g' + min window newer ≡ grand_total g + s'
  pub distinct : Distinct g → Distinct g'

Selects-past :
    (window newer : ℕ) (rows : List ShareRow) (g : Totals)
    → window ≤ newer
    → Selects window newer rows g g (min window newer)
Selects-past window newer rows g h = record {
  credited = λ a. omega (arith, window_credit_past window newer a rows h);
  reached = omega arith;
  summed = omega arith;
  distinct = λ d. d;
}

-- One more share in front.
Selects-cons :
    (window newer work : ℕ) (row : ShareRow) (rows : List ShareRow) (g g' : Totals) (s' : ℕ)
    → newer < window
    → parse_big row.work ≡ ok work
    → Selects window
        (newer + work)
        rows
        (add_amount row.address (clip work (window - newer)) g)
        g'
        s'
    → Selects window newer (row ∷ rows) g g' s'
unfolding window_credit
Selects-cons window newer work row rows g g' s' h p ih =
    let w : atoms row.work ≡ work = atoms_of_parse row.work work p in
    record {
      credited = λ a.
          ground (
            arith,
            w,
            ih.credited a,
            value-add_amount row.address a (clip work (window - newer)) g,
          );
      reached = ground (arith, w, ih.reached);
      summed =
          ground
            (arith, ih.summed, grand_total-add_amount row.address (clip work (window - newer)) g);
      distinct =
          λ d. ih.distinct (add_amount-Distinct row.address (clip work (window - newer)) g d);
    }

-- A round of the loop that goes on.
select_window_step :
    (window selected : ℕ) (row : ShareRow) (rows : List ShareRow) (g : Totals) (r : Totals × ℕ)
    → selected < window
    → select_window window (row ∷ rows) g selected ≡ ok r
    → (work : ℕ) × (parse_big row.work ≡ ok work)
      × (let credit = clip work (window - selected) in
          select_window window rows (add_amount row.address credit g) (selected + credit) ≡ ok r)
unfolding select_window
select_window_step window selected row rows g r lt h = ground arith

-- The loop stops at the window.
pub select_window_stop :
    (window selected : ℕ) (rows : List ShareRow) (g : Totals)
    → window ≤ selected
    → select_window window rows g selected ≡ ok (g, selected)
unfolding select_window
select_window_stop window selected [] g le = refl
select_window_stop window selected (row ∷ rows) g le = ground arith

pub select_window-Selects :
    (window newer : ℕ) (rows : List ShareRow) (g g' : Totals) (s' : ℕ)
    → select_window window rows g (min window newer) ≡ ok (g', s')
    → Selects window newer rows g g' s'
unfolding select_window window_credit
select_window-Selects window newer [] g g' s' h =
    let ends : (g ≡ g') × (min window newer ≡ s') = ground arith in
    rw (← ends.0, ← ends.1)
      (record {
        credited = λ a. omega arith;
        reached = omega arith;
        summed = omega arith;
        distinct = λ d. d;
      })
select_window-Selects window newer (row ∷ rows) g g' s' h = elim (dec_lt newer window) [
  | yes lt ↦
      let at : min window newer ≡ newer = omega arith in
      let (work, p, e) =
        select_window_step window newer row rows g (g', s') lt
          (subst (λ k. select_window window (row ∷ rows) g k ≡ ok (g', s')) at h) in
      let next : newer + clip work (window - newer) ≡ min window (newer + work) = ground arith in
      let rest = add_amount row.address (clip work (window - newer)) g in
      Selects-cons window newer work row rows g g' s' lt p (
        select_window-Selects window (newer + work) rows rest g' s'
          (subst (λ k. select_window window rows rest k ≡ ok (g', s')) next e))
  | no ge ↦
      let stop = select_window_stop window (min window newer) (row ∷ rows) g (omega arith) in
      let ends : (g ≡ g') × (min window newer ≡ s') = ground arith in
      rw (← ends.0, ← ends.1) (Selects-past window newer (row ∷ rows) g (omega arith))
]

-- Every window over rows with work is selected.
pub select_window_total :
    (window selected : ℕ) (rows : List ShareRow) (g : Totals)
    → All HasWork rows
    → (r : Totals × ℕ) × (select_window window rows g selected ≡ ok r)
unfolding select_window
select_window_total window selected [] g h = ((g, selected), refl)
select_window_total window selected (row ∷ rows) g ((n, p, positive), h) =
    let credit = clip n (window - selected) in
    let rest =
      select_window_total window (selected + credit) rows (add_amount row.address credit g) h in
    elim (dec_lt selected window) [
      | yes lt ↦ (rest.0, ground (arith, rest.1))
      | no ge ↦ ((g, selected), select_window_stop window selected (row ∷ rows) g (omega arith))
    ]
