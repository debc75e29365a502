-- ===== src/Store/Allocate/Accounts.antt =====
-- The accounting of a found block: what the allocations sum to, and what each of them is.
use mathlib.Core.Path.{subst}
use native.Mathlib.Nat.{mul-le-mul_left}
use qday_pool.Prelude.{
  ℕ, ◌+◌, ◌-◌, ◌*◌, ◌/◌, ◌≤◌, ◌<◌, min, ◌≡◌, refl, sym, ◌∙◌, Option, List, [], ◌∷◌, Text, map,
  arith, sum_of, All, All-map, inl, inr,
}
use qday_pool.Prelude.Int.{ℤ}
use qday_pool.Store.Tables.{BlockRow, ShareRow, Tables}
use qday_pool.Store.Totals.{
  parse_big, atoms, atoms-decimal, atoms_of_parse, grand_total, value, All-values,
}
use qday_pool.Store.Window.{select_window}
use qday_pool.Store.Window.Credit.{total_work, window_credit, Selects, select_window-Selects}
use qday_pool.Store.Split.{Weighted, split_reward, amounts}
use qday_pool.Store.Split.Exact.{amounts-split_reward}
use qday_pool.Store.Split.Remainders.{IsRounded}
use qday_pool.Store.Split.Ranks.{split_reward-IsRounded, split_reward-All, split_reward-works}
use qday_pool.Store.Shares.{magnitude_of}
use qday_pool.Store.Shares.Prune.{upto}
use qday_pool.Store.Sql.{ok, Db, Result-cases}
use qday_pool.Store.Allocate.{
  FoundBlock, Allocation, distributable, positive_reward, allocation, allocate_block,
}
use qday_pool.Store.Allocate.Commits.{Allocated, allocate_block-Allocated}

positive_reward-atoms : (s : Text) (n : ℕ) → positive_reward s ≡ ok n → atoms s ≡ n
unfolding positive_reward
positive_reward-atoms s n h = elim (Result-cases (parse_big s)) [
  | inl (k, p) ↦ ground (arith, atoms_of_parse s k p)
  | inr (e, p) ↦ absurd (ground arith)
]

product_le : (r b : ℕ) → (r * (10_000 - b)) / 10_000 ≤ r
product_le r b =
    let le : r * (10_000 - b) ≤ r * 10_000 = mul-le-mul_left r (omega arith) in omega arith

distributable-le : (reward bps : ℕ) → distributable reward bps ≤ reward
distributable-le reward bps = product_le reward bps

amounts-allocations :
    (es : List Weighted) → sum_of (λ a. atoms a.amount_atomic) (map allocation es) ≡ amounts es
amounts-allocations [] = refl
amounts-allocations (e ∷ es) = omega (arith, amounts-allocations es, atoms-decimal e.amount)

works-allocations :
    (es : List Weighted) → sum_of (λ a. atoms a.work) (map allocation es) ≡ sum_of (λ e. e.work) es
works-allocations [] = refl
works-allocations (e ∷ es) = omega (arith, works-allocations es, atoms-decimal e.work)

allocations-All :
    (P : Allocation → Type 0) (es : List Weighted)
    → All (λ e. P (allocation e)) es
    → All P (map allocation es)
allocations-All P [] h = tt
allocations-All P (e ∷ es) (p, h) = (p, allocations-All P es h)

-- The pool's reserve for a block, from its row.
abbrev pub newest_reserve : List BlockRow → ℕ
newest_reserve [] = 0
newest_reserve (row ∷ rows) = atoms row.pool_fee_atomic

module _ (block : FoundBlock) (window bps : ℕ) (t t' : Tables) (allocations : List Allocation)
    (done : Allocated block window bps t t' allocations) where
  -- The frozen rows, and what the window selects of them.
  rows : List ShareRow
  rows = upto block.cutoff_share_id t.shares

  selects : Selects window 0 rows [] done.grouped done.selected
  unfolding rows
  selects =
      let none_before : min window 0 ≡ 0 = omega arith in
      select_window-Selects window 0 rows [] done.grouped done.selected (
        subst (λ k. select_window window rows [] k ≡ ok (done.grouped, done.selected))
          (sym none_before) done.windowed)

  all_grouped : grand_total done.grouped ≡ done.selected
  all_grouped = omega (arith, selects.summed)

  pay : ℕ
  pay = distributable done.reward bps

  weighted : List Weighted
  weighted = split_reward pay done.selected done.grouped

  -- The amounts and the pool's reserve make up the block's reward.
  sums :
      sum_of (λ a. atoms a.amount_atomic) allocations + newest_reserve t'.blocks
      ≡ atoms block.reward_atomic
  unfolding weighted pay
  sums =
      let exact : amounts weighted ≡ pay =
        amounts-split_reward pay done.selected done.grouped done.some_work all_grouped in
      let written : newest_reserve t'.blocks ≡ done.reward - pay =
        rw done.written (atoms-decimal (done.reward - pay)) in
      rw done.returned (
        omega (
          arith,
          amounts-allocations weighted,
          exact,
          written,
          distributable-le done.reward bps,
          positive_reward-atoms block.reward_atomic done.reward done.reward_read,
        ))

  credits : All (λ a. atoms a.work ≡ window_credit window 0 a.address rows) allocations
  unfolding weighted pay value
  credits =
      let credited = λ (e : Text × ℕ) (p : value e.0 done.grouped ≡ e.1).
        let q : e.1 ≡ window_credit window 0 e.0 rows = omega (arith, selects.credited e.0) in q in
      let ws =
        split_reward-All pay done.selected done.grouped done.some_work all_grouped
          (λ e. e.1 ≡ window_credit window 0 e.0 rows)
          (All-map credited done.grouped (All-values done.grouped (selects.distinct tt))) in
      rw done.returned (
        allocations-All (λ a. atoms a.work ≡ window_credit window 0 a.address rows) weighted
          (All-map
            (λ e (p : e.work ≡ window_credit window 0 e.address rows). atoms-decimal e.work ∙ p)
            weighted ws))

  -- The selected work is all the work there is, up to the window.
  works : sum_of (λ a. atoms a.work) allocations ≡ min window (total_work rows)
  unfolding weighted pay
  works = rw done.returned (
      omega (
        arith,
        works-allocations weighted,
        split_reward-works pay done.selected done.grouped done.some_work all_grouped,
        selects.reached,
        all_grouped,
      ))

  rounded :
      let pay = distributable (atoms block.reward_atomic) bps in
      let all = min window (total_work rows) in
      All
        (λ a.
          (all * atoms a.amount_atomic < pay * atoms a.work + all)
          × (pay * atoms a.work < all * atoms a.amount_atomic + all))
        allocations
  unfolding weighted pay
  rounded =
      let read = positive_reward-atoms block.reward_atomic done.reward done.reward_read in
      let reached : done.selected ≡ min window (total_work rows) = omega (arith, selects.reached) in
      rw (read, ← reached, done.returned)
        (allocations-All _ weighted (
          All-map
            (λ e (p : IsRounded pay done.selected e).
              rw (atoms-decimal e.work, atoms-decimal e.amount) p)
            weighted
            (split_reward-IsRounded pay done.selected done.grouped done.some_work all_grouped)))

module _ (block : FoundBlock) (window : Option ℤ) (bps : ℕ) (db db' : Db)
    (allocations : List Allocation)
    (returned : allocate_block block window bps db ≡ (ok allocations, db')) where
  done : Allocated block (magnitude_of window) bps db.tables db'.tables allocations
  done = allocate_block-Allocated block window bps db db' allocations returned

  -- Where `AllocateBlock` returns allocations, their amounts and the reserve in the new block's
  -- row sum to the block's reward, to the atom.
  pub allocate_block-sums :
      sum_of (λ a. atoms a.amount_atomic) allocations + newest_reserve db'.tables.blocks
      ≡ atoms block.reward_atomic
  allocate_block-sums = sums block _ bps db.tables db'.tables allocations done

  -- Where `AllocateBlock` returns allocations, the work of each is what its address did inside
  -- the window, counted back from the cutoff share; and together they are the window, or all the
  -- work there is where that is less.
  pub allocate_block-credits :
      let rows = upto block.cutoff_share_id db.tables.shares in
      All (λ a. atoms a.work ≡ window_credit (magnitude_of window) 0 a.address rows) allocations
      × (sum_of (λ a. atoms a.work) allocations ≡ min (magnitude_of window) (total_work rows))
  unfolding rows
  allocate_block-credits = (
    credits block _ bps db.tables db'.tables allocations done,
    works block _ bps db.tables db'.tables allocations done,
  )

  -- Where `AllocateBlock` returns allocations, every amount is less than one atom away from the
  -- exact part of its work in the reward less the pool's fee.
  pub allocate_block-rounds :
      let pay = distributable (atoms block.reward_atomic) bps in
      let all =
        min (magnitude_of window) (total_work (upto block.cutoff_share_id db.tables.shares)) in
      All
        (λ a.
          (all * atoms a.amount_atomic < pay * atoms a.work + all)
          × (pay * atoms a.work < all * atoms a.amount_atomic + all))
        allocations
  unfolding rows
  allocate_block-rounds = rounded block _ bps db.tables db'.tables allocations done
