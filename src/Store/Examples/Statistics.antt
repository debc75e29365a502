-- ===== src/Store/Examples/Statistics.antt =====
-- The theorems on the statistics at the run of the parent module.
use qday_pool.Prelude.{◌+◌, ◌≡◌, refl, [], ◌∷◌, codes, text_eq, length, keep}
use qday_pool.Prelude.Int.{pos, ltb_ℤ}
use qday_pool.Decimal.{decimal, set_string, magnitude, scan}
use qday_pool.Store.Totals.{parse_big}
use qday_pool.Store.Sql.{ok, healthy, sql}
use qday_pool.Store.Window.Credit.{total_work}
use qday_pool.Store.Statistics.{
  Summary, summarize, share_summary, is_since, max_found, since_of, sum_work, round_work,
  tally_share, tally_rows,
}
use qday_pool.Store.Statistics.Sums.{share_summary-sums, round_work-total, tally_rows-sums}
use qday_pool.Store.Examples.{alice, bob, shared}

abbrev summary : Summary
summary = record { work = 60; shares = 3; workers = 2; addresses = 2 }

summary_run :
    share_summary (pos 0) (healthy shared)
    ≡ (ok summary, (share_summary (pos 0) (healthy shared)).1)
unfolding share_summary summarize sql parse_big set_string magnitude scan decimal text_eq
summary_run = refl

share_summary-sums_example :
    (60 ≡ total_work (keep (is_since (pos 0)) shared.shares))
    × (3 ≡ length (keep (is_since (pos 0)) shared.shares))
    × ((share_summary (pos 0) (healthy shared)).1.tables ≡ shared)
share_summary-sums_example = share_summary-sums (pos 0) (healthy shared) _ summary summary_run

round_run : round_work (healthy shared) ≡ (ok 60, (round_work (healthy shared)).1)
unfolding round_work sum_work max_found sql parse_big set_string magnitude scan decimal text_eq
round_run = refl

round_work-total_example :
    60 ≡ total_work (keep (λ row. ltb_ℤ (since_of (max_found [])) row.created_at) shared.shares)
round_work-total_example = round_work-total (healthy shared) _ 60 round_run

tallies_run :
    tally_rows shared.shares []
    ≡ ok (
        (record {
          address = alice;
          worker = codes "rig";
          work = 40;
          shares = 2;
          last_at = pos 1_700_000_000_000;
        })
        ∷ (record {
          address = bob;
          worker = codes "rig";
          work = 20;
          shares = 1;
          last_at = pos 1_700_000_000_000;
        })
        ∷ [])
unfolding tally_rows tally_share parse_big set_string magnitude scan decimal text_eq
tallies_run = refl

tally_rows-sums_example : (60 ≡ 0 + total_work shared.shares) × (3 ≡ 0 + length shared.shares)
tally_rows-sums_example = tally_rows-sums shared.shares [] _ tallies_run
