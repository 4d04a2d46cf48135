-- ===== src/Curve/Fees.antt =====
-- The fee schedule of a pool: program/src/curve/fees.rs. Amounts are u128, the fields u64.
pub mod Bounds
pub mod Inverse
pub mod Gross
use rome_dex.Base.{
  ℕ, ◌+◌, ◌-◌, ◌*◌, ◌/◌, ◌^◌, Bool, ◌&&◌, ◌||◌, Option, none, some, Result, ok, err, ◌>>◌, ltb, leb,
  ◌==◌, if◌then◌else◌,
}
use rome_dex.Base.Words.{checked_sub, checked_div, checked_add_u128, checked_mul_u128}
use rome_dex.Base.Checked.{◌>>=◌}
use rome_dex.Curve.Calculator.{SwapError, invalid_fee}

pub record Fees : Type 0 where
  pub trade_fee_numerator : ℕ
  pub trade_fee_denominator : ℕ
  pub owner_trade_fee_numerator : ℕ
  pub owner_trade_fee_denominator : ℕ
  pub owner_withdraw_fee_numerator : ℕ
  pub owner_withdraw_fee_denominator : ℕ
  pub host_fee_numerator : ℕ
  pub host_fee_denominator : ℕ

-- The last step of `calculate_fee`: a fee of zero becomes one token.
abbrev pub at_least_one : ℕ → ℕ
at_least_one fee = if fee == 0 then 1 else fee

unfoldable pub calculate_fee : ℕ → ℕ → ℕ → Option ℕ
calculate_fee token_amount fee_numerator fee_denominator =
    if fee_numerator == 0 || token_amount == 0 then some 0 else do
      product ← checked_mul_u128 token_amount fee_numerator
      fee ← checked_div product fee_denominator
      some (at_least_one fee)

unfoldable pub ceil_div : ℕ → ℕ → Option ℕ
ceil_div dividend divisor = do
  sum ← checked_add_u128 dividend divisor
  less ← checked_sub sum 1
  checked_div less divisor

unfoldable pub pre_fee_amount : ℕ → ℕ → ℕ → Option ℕ
pre_fee_amount post_fee_amount fee_numerator fee_denominator =
    if fee_numerator == 0 || fee_denominator == 0
    then some post_fee_amount
    else if fee_numerator == fee_denominator || post_fee_amount == 0
    then some 0
    else do
      numerator ← checked_mul_u128 post_fee_amount fee_denominator
      denominator ← checked_sub fee_denominator fee_numerator
      ceil_div numerator denominator

unfoldable pub validate_fraction : ℕ → ℕ → Result SwapError (Unit {0})
validate_fraction numerator denominator =
    if denominator == 0 && numerator == 0
    then ok tt
    else if leb denominator numerator
    then err invalid_fee
    else ok tt

module _ (fees : Fees) where
  unfoldable pub owner_withdraw_fee : ℕ → Option ℕ
  owner_withdraw_fee pool_tokens =
      calculate_fee pool_tokens fees.owner_withdraw_fee_numerator
        fees.owner_withdraw_fee_denominator

  unfoldable pub trading_fee : ℕ → Option ℕ
  trading_fee trading_tokens =
      calculate_fee trading_tokens fees.trade_fee_numerator fees.trade_fee_denominator

  unfoldable pub owner_trading_fee : ℕ → Option ℕ
  owner_trading_fee trading_tokens =
      calculate_fee trading_tokens fees.owner_trade_fee_numerator fees.owner_trade_fee_denominator

  unfoldable pub host_fee : ℕ → Option ℕ
  host_fee owner_fee = calculate_fee owner_fee fees.host_fee_numerator fees.host_fee_denominator

  -- The sum of the two fractions, brought to the product of the denominators.
  unfoldable pub pre_trading_fee_amount : ℕ → Option ℕ
  pre_trading_fee_amount post_fee_amount =
      if fees.trade_fee_numerator == 0 || fees.trade_fee_denominator == 0
      then pre_fee_amount post_fee_amount fees.owner_trade_fee_numerator
          fees.owner_trade_fee_denominator
      else if fees.owner_trade_fee_numerator == 0 || fees.owner_trade_fee_denominator == 0
      then pre_fee_amount post_fee_amount fees.trade_fee_numerator fees.trade_fee_denominator
      else do
        left ← checked_mul_u128 fees.trade_fee_numerator fees.owner_trade_fee_denominator
        right ← checked_mul_u128 fees.owner_trade_fee_numerator fees.trade_fee_denominator
        numerator ← checked_add_u128 left right
        denominator ← checked_mul_u128 fees.trade_fee_denominator fees.owner_trade_fee_denominator
        pre_fee_amount post_fee_amount numerator denominator

  unfoldable pub validate : Result SwapError (Unit {0})
  validate =
      validate_fraction fees.trade_fee_numerator fees.trade_fee_denominator
      >> validate_fraction fees.owner_trade_fee_numerator fees.owner_trade_fee_denominator
      >> validate_fraction fees.owner_withdraw_fee_numerator fees.owner_withdraw_fee_denominator
      >> validate_fraction fees.host_fee_numerator fees.host_fee_denominator
