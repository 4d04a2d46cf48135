-- ===== src/Curve/SwapCurve/Dispatch.antt =====
-- The trait `CurveCalculator`: program/src/curve/calculator.rs, with its defaults and the overrides of
-- the three curves, and the type byte of program/src/curve/base.rs.
use rome_dex.Base.{ℕ, Bool, true, Option, none, Result, ok, err, ◌==◌, if◌then◌else◌, some}
use rome_dex.Curve.SplMath.{SplMath}
use rome_dex.Curve.Calculator.{
  TradeDirection, RoundDirection, floor, SwapWithoutFeesResult, TradingTokenResult, SwapError,
  empty_supply,
}
use rome_dex.Curve.ConstantProduct
use rome_dex.Curve.ConstantPrice
use rome_dex.Curve.ConstantPrice.{ConstantPriceCurve}
use rome_dex.Curve.Offset
use rome_dex.Curve.Offset.{OffsetCurve}

pub data CurveType : Type 0 where
  constant_product constant_price offset : CurveType

-- `TryFrom<u8>`; `none` is `InvalidAccountData`.
unfoldable pub try_from : ℕ → Option CurveType
try_from byte =
    if byte == 0
    then some constant_product
    else if byte == 1
    then some constant_price
    else if byte == 2
    then some offset
    else none

-- `self.curve_type as u8`
unfoldable pub as_u8 : CurveType → ℕ
as_u8 constant_product = 0
as_u8 constant_price = 1
as_u8 offset = 2

pub data Calculator : Type 0 where
  product : Calculator
  price : ConstantPriceCurve → Calculator
  shifted : OffsetCurve → Calculator

-- `validate_supply` of the trait, which the constant product curve keeps.
unfoldable pub default_validate_supply : ℕ → ℕ → Result SwapError (Unit {0})
default_validate_supply token_a_amount token_b_amount =
    if token_a_amount == 0
    then err empty_supply
    else if token_b_amount == 0
    then err empty_supply
    else ok tt

unfoldable pub validate_supply : Calculator → ℕ → ℕ → Result SwapError (Unit {0})
validate_supply product = default_validate_supply
validate_supply (price curve) = ConstantPrice.validate_supply curve
validate_supply (shifted curve) = Offset.validate_supply curve

unfoldable pub validate : Calculator → Result SwapError (Unit {0})
validate product = ok tt
validate (price curve) = ConstantPrice.validate curve
validate (shifted curve) = Offset.validate curve

unfoldable pub allows_deposits : Calculator → Bool
allows_deposits product = true
allows_deposits (price curve) = true
allows_deposits (shifted curve) = Offset.allows_deposits curve

-- `INITIAL_SWAP_POOL_AMOUNT`, which no curve overrides.
abbrev pub new_pool_supply : ℕ
new_pool_supply = 1_000_000_000

module _ (math : SplMath) where
  unfoldable pub swap_without_fees :
      Calculator → ℕ → ℕ → ℕ → TradeDirection → Option SwapWithoutFeesResult
  swap_without_fees product amount source destination direction =
      ConstantProduct.swap math amount source destination
  swap_without_fees (price curve) amount source destination direction =
      ConstantPrice.swap_without_fees curve amount source destination direction
  swap_without_fees (shifted curve) amount source destination direction =
      Offset.swap_without_fees curve math amount source destination direction

  -- The default of the trait is `None`.
  unfoldable pub swap_to_exact_out :
      Calculator → ℕ → ℕ → ℕ → TradeDirection → Option SwapWithoutFeesResult
  swap_to_exact_out product amount source destination direction =
      ConstantProduct.swap_to_exact_out math amount source destination
  swap_to_exact_out (price curve) amount source destination direction = none
  swap_to_exact_out (shifted curve) amount source destination direction = none

  unfoldable pub pool_tokens_to_trading_tokens :
      Calculator → ℕ → ℕ → ℕ → ℕ → RoundDirection → Option TradingTokenResult
  pool_tokens_to_trading_tokens product = ConstantProduct.pool_tokens_to_trading_tokens
  pool_tokens_to_trading_tokens (price curve) =
      ConstantPrice.pool_tokens_to_trading_tokens curve math
  pool_tokens_to_trading_tokens (shifted curve) = Offset.pool_tokens_to_trading_tokens curve

  unfoldable pub deposit_single_token_type : Calculator → ℕ → ℕ → ℕ → ℕ → TradeDirection → Option ℕ
  deposit_single_token_type product amount token_a token_b supply direction =
      ConstantProduct.deposit_single_token_type math amount token_a token_b supply direction floor
  deposit_single_token_type (price curve) amount token_a token_b supply direction =
      ConstantPrice.trading_tokens_to_pool_tokens math curve.token_b_price amount token_a token_b
        supply direction floor
  deposit_single_token_type (shifted curve) amount token_a token_b supply direction =
      Offset.deposit_single_token_type curve math amount token_a token_b supply direction

  unfoldable pub withdraw_single_token_type_exact_out :
      Calculator → ℕ → ℕ → ℕ → ℕ → TradeDirection → RoundDirection → Option ℕ
  withdraw_single_token_type_exact_out product =
      ConstantProduct.withdraw_single_token_type_exact_out math
  withdraw_single_token_type_exact_out (price curve) =
      ConstantPrice.trading_tokens_to_pool_tokens math curve.token_b_price
  withdraw_single_token_type_exact_out (shifted curve) =
      Offset.withdraw_single_token_type_exact_out curve math
