-- ===== src/Pool/FeeTier.antt =====
-- The fee tier of a new pool in basis points: `term` and the bound of `process_create_pool` in
-- program/src/processor.rs.
use rome_dex.Base.{ℕ, ◌==◌, Result, ok, err, ok_or, ◌>>=◌, if◌then◌else◌}
use rome_dex.Base.Words.{checked_mul_u128, checked_div, checked_add_u128}
use rome_dex.Curve.Calculator.{SwapError, fee_calculation_failure, fee_bps_mismatch}
use rome_dex.Curve.Fees.{Fees}

unfoldable pub term : ℕ → ℕ → Result SwapError ℕ
term n d = if d == 0 then ok 0 else do
  scaled ← ok_or (checked_mul_u128 n 10_000) fee_calculation_failure
  ok_or (checked_div scaled d) fee_calculation_failure

unfoldable pub bound : Fees → Result SwapError ℕ
bound fees = do
  trade ← term fees.trade_fee_numerator fees.trade_fee_denominator
  owner ← term fees.owner_trade_fee_numerator fees.owner_trade_fee_denominator
  ok_or (checked_add_u128 trade owner) fee_calculation_failure

unfoldable pub check_fee_bps : Fees → ℕ → Result SwapError (Unit {0})
check_fee_bps fees fee_bps = do
  total ← bound fees
  if fee_bps == total then ok tt else err fee_bps_mismatch
