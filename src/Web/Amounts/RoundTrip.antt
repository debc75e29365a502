-- ===== src/Web/Amounts/RoundTrip.antt =====
-- What `Parse` makes of the output of `formatAmount`.
use qday_pool.Prelude.{ℕ, ◌-◌, ◌^◌, ◌<◌, ◌++◌, length, Text}
use qday_pool.Decimal.{decimal}
use qday_pool.Decimal.Digits.{zeros}
use qday_pool.Web.Amounts.{trim_right}

module _ (k r : ℕ) (some_rest : 0 < r) (small : r < 10 ^ k) where
  padded : Text
  padded = zeros (k - length (decimal r)) ++ decimal r

  shown : Text
  shown = trim_right padded
