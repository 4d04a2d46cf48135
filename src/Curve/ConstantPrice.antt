-- ===== src/Curve/ConstantPrice.antt =====
-- The constant price curve: program/src/curve/constant_price.rs.
pub mod Value
use rome_dex.Base.{
  ℕ, ◌+◌, ◌-◌, ◌*◌, ◌^◌, Bool, true, false, Option, none, some, Result, ok, err, ltb, ◌==◌,
  if◌then◌else◌,
}
use rome_dex.Base.Words.{checked_sub, checked_div, checked_rem, checked_add_u128, checked_mul_u128}
use rome_dex.Base.Checked.{◌>>=◌}
use rome_dex.Curve.SplMath.{SplMath}
use rome_dex.Curve.Calculator.{
  TradeDirection, a_to_b, b_to_a, RoundDirection, floor, ceiling, map_zero_to_none,
  SwapWithoutFeesResult, TradingTokenResult, SwapError, invalid_curve, empty_supply,
}

pub record ConstantPriceCurve : Type 0 where
  pub token_b_price : ℕ

module _ (curve : ConstantPriceCurve) where
  -- The amounts exchanged, before a zero on either side is refused.
  unfoldable pub exchanged : ℕ → TradeDirection → Option (ℕ × ℕ)
  exchanged source_amount b_to_a = do
    destination ← checked_mul_u128 source_amount curve.token_b_price
    some (source_amount, destination)
  exchanged source_amount a_to_b = do
    destination ← checked_div source_amount curve.token_b_price
    remainder ← checked_rem source_amount curve.token_b_price
    source ← if ltb 0 remainder then checked_sub source_amount remainder else some source_amount
    some (source, destination)

  unfoldable pub swap_without_fees : ℕ → ℕ → ℕ → TradeDirection → Option SwapWithoutFeesResult
  unfolding exchanged
  swap_without_fees source_amount swap_source swap_destination direction = do
    (source, destination) ← exchanged source_amount direction
    source_swapped ← map_zero_to_none source
    destination_swapped ← map_zero_to_none destination
    some (record {
      source_amount_swapped = source_swapped;
      destination_amount_swapped = destination_swapped;
    })

  unfoldable pub validate : Result SwapError (Unit {0})
  validate = if curve.token_b_price == 0 then err invalid_curve else ok tt

  unfoldable pub validate_supply : ℕ → ℕ → Result SwapError (Unit {0})
  validate_supply token_a_amount token_b_amount =
      if token_a_amount == 0 then err empty_supply else ok tt

  -- Half the sum of two values, near the limit of a u128 as the sum of the halves.
  abbrev pub halved : ℕ → ℕ → Bool → Option ℕ
  halved token_a b_value true = do
    half_b ← checked_div b_value 2
    half_a ← checked_div token_a 2
    checked_add_u128 half_b half_a
  halved token_a b_value false = do sum ← checked_add_u128 token_a b_value; checked_div sum 2

  -- The value of which `normalized_value` makes a `PreciseNumber`: half the sum of the two
  -- sides. `saturating_sub` is the subtraction of the naturals.
  unfoldable pub half_value : ℕ → ℕ → Option ℕ
  half_value token_a token_b = do
    b_value ← checked_mul_u128 token_b curve.token_b_price
    halved token_a b_value (ltb (2 ^ 128 - 1 - (2 ^ 64 - 1)) (b_value - (2 ^ 64 - 1)))

  module _ (math : SplMath) where
    open math use {PreciseNumber, checked_ceil_div, new, to_imprecise}

    unfoldable pub normalized_value : ℕ → ℕ → Option PreciseNumber
    normalized_value token_a token_b = do value ← half_value token_a token_b; new value

    unfoldable pub pool_tokens_to_trading_tokens :
        ℕ → ℕ → ℕ → ℕ → RoundDirection → Option TradingTokenResult
    pool_tokens_to_trading_tokens pool_tokens supply token_a token_b floor = do
      number ← normalized_value token_a token_b
      total_value ← to_imprecise number
      product ← checked_mul_u128 pool_tokens total_value
      a ← checked_div product supply
      as_token_b ← checked_div product curve.token_b_price
      b ← checked_div as_token_b supply
      some (record { token_a_amount = a; token_b_amount = b })
    pool_tokens_to_trading_tokens pool_tokens supply token_a token_b ceiling = do
      number ← normalized_value token_a token_b
      total_value ← to_imprecise number
      product ← checked_mul_u128 pool_tokens total_value
      (a, _) ← checked_ceil_div product supply
      (as_token_b, _) ← checked_ceil_div product curve.token_b_price
      (b, _) ← checked_ceil_div as_token_b supply
      some (record { token_a_amount = a; token_b_amount = b })

-- The value, in token A, of what is given.
abbrev pub given_value : SplMath → ℕ → ℕ → TradeDirection → Option ℕ
given_value math price source_amount a_to_b = some source_amount
given_value math price source_amount b_to_a = math.u256_checked_mul source_amount price

unfoldable pub trading_tokens_to_pool_tokens :
    SplMath → ℕ → ℕ → ℕ → ℕ → ℕ → TradeDirection → RoundDirection → Option ℕ
trading_tokens_to_pool_tokens math price source_amount token_a token_b supply direction floor = do
  given ← given_value math price source_amount direction
  b_value ← math.u256_checked_mul token_b price
  total_value ← math.u256_checked_add b_value token_a
  product ← math.u256_checked_mul supply given
  quotient ← math.u256_checked_div product total_value
  some (math.as_u128 quotient)
trading_tokens_to_pool_tokens math price source_amount token_a token_b supply direction ceiling = do
  given ← given_value math price source_amount direction
  b_value ← math.u256_checked_mul token_b price
  total_value ← math.u256_checked_add b_value token_a
  product ← math.u256_checked_mul supply given
  (quotient, _) ← math.u256_checked_ceil_div product total_value
  some (math.as_u128 quotient)
