-- ===== src/Curve/Offset.antt =====
-- The offset curve: program/src/curve/offset.rs, the constant product with a faked amount of token B.
pub mod Invariant
use rome_dex.Base.{ℕ, Bool, false, Option, none, some, Result, ok, err, ◌==◌, if◌then◌else◌}
use rome_dex.Base.Words.{checked_add_u128}
use rome_dex.Base.Checked.{◌>>=◌}
use rome_dex.Curve.SplMath.{SplMath}
use rome_dex.Curve.Calculator.{
  TradeDirection, a_to_b, b_to_a, RoundDirection, floor, SwapWithoutFeesResult, TradingTokenResult,
  SwapError, invalid_curve, empty_supply,
}
use rome_dex.Curve.ConstantProduct

pub record OffsetCurve : Type 0 where
  pub token_b_offset : ℕ

module _ (curve : OffsetCurve) where
  unfoldable pub offset_source : ℕ → TradeDirection → Option ℕ
  offset_source amount a_to_b = some amount
  offset_source amount b_to_a = checked_add_u128 amount curve.token_b_offset

  unfoldable pub offset_destination : ℕ → TradeDirection → Option ℕ
  offset_destination amount a_to_b = checked_add_u128 amount curve.token_b_offset
  offset_destination amount b_to_a = some amount

  unfoldable pub validate : Result SwapError (Unit {0})
  validate = if curve.token_b_offset == 0 then err invalid_curve else ok tt

  unfoldable pub validate_supply : ℕ → ℕ → Result SwapError (Unit {0})
  validate_supply token_a_amount token_b_amount =
      if token_a_amount == 0 then err empty_supply else ok tt

  abbrev pub allows_deposits : Bool
  allows_deposits = false

  unfoldable pub pool_tokens_to_trading_tokens :
      ℕ → ℕ → ℕ → ℕ → RoundDirection → Option TradingTokenResult
  pool_tokens_to_trading_tokens pool_tokens supply token_a token_b round = do
    offset_b ← checked_add_u128 token_b curve.token_b_offset
    ConstantProduct.pool_tokens_to_trading_tokens pool_tokens supply token_a offset_b round

  module _ (math : SplMath) where
    unfoldable pub swap_without_fees : ℕ → ℕ → ℕ → TradeDirection → Option SwapWithoutFeesResult
    swap_without_fees source_amount swap_source swap_destination direction = do
      source ← offset_source swap_source direction
      destination ← offset_destination swap_destination direction
      ConstantProduct.swap math source_amount source destination

    unfoldable pub deposit_single_token_type : ℕ → ℕ → ℕ → ℕ → TradeDirection → Option ℕ
    deposit_single_token_type source_amount token_a token_b pool_supply direction = do
      offset_b ← checked_add_u128 token_b curve.token_b_offset
      ConstantProduct.deposit_single_token_type math source_amount token_a offset_b pool_supply
          direction floor

    unfoldable pub withdraw_single_token_type_exact_out :
        ℕ → ℕ → ℕ → ℕ → TradeDirection → RoundDirection → Option ℕ
    withdraw_single_token_type_exact_out source_amount token_a token_b pool_supply direction round =
        do
          offset_b ← checked_add_u128 token_b curve.token_b_offset
          ConstantProduct.withdraw_single_token_type_exact_out math source_amount token_a offset_b
              pool_supply direction round

    unfoldable pub normalized_value : ℕ → ℕ → Option math.PreciseNumber
    normalized_value token_a token_b = do
      offset_b ← checked_add_u128 token_b curve.token_b_offset
      ConstantProduct.normalized_value math token_a offset_b
