-- ===== src/Curve/ConstantProduct.antt =====
-- The constant product curve: program/src/curve/constant_product.rs.
pub mod Invariant
pub mod ExactOut
pub mod Shares
use rome_dex.Base.{ℕ, ◌+◌, ◌*◌, ◌<◌, ◌&&◌, Bool, Option, none, some, ltb, leb, ◌==◌, if◌then◌else◌}
use rome_dex.Base.Words.{
  checked_sub, checked_div, checked_rem, checked_add_u128, checked_mul_u128, fits,
}
use rome_dex.Base.Checked.{◌>>=◌}
use rome_dex.Curve.SplMath.{SplMath}
use rome_dex.Curve.Calculator.{
  TradeDirection, a_to_b, b_to_a, RoundDirection, floor, ceiling, map_zero_to_none,
  SwapWithoutFeesResult, TradingTokenResult,
}

-- `x += 1` where there is a remainder and `x` is not zero.
abbrev pub round_up_nonzero : ℕ → ℕ → ℕ
round_up_nonzero remainder x = if ltb 0 remainder && ltb 0 x then x + 1 else x

unfoldable pub pool_tokens_to_trading_tokens :
    ℕ → ℕ → ℕ → ℕ → RoundDirection → Option TradingTokenResult
pool_tokens_to_trading_tokens pool_tokens supply token_a token_b floor = do
  product_a ← checked_mul_u128 pool_tokens token_a
  a ← checked_div product_a supply
  product_b ← checked_mul_u128 pool_tokens token_b
  b ← checked_div product_b supply
  some (record { token_a_amount = a; token_b_amount = b })
pool_tokens_to_trading_tokens pool_tokens supply token_a token_b ceiling = do
  product_a ← checked_mul_u128 pool_tokens token_a
  a ← checked_div product_a supply
  product_b ← checked_mul_u128 pool_tokens token_b
  b ← checked_div product_b supply
  remainder_a ← checked_rem product_a supply
  remainder_b ← checked_rem product_b supply
  some (record {
    token_a_amount = round_up_nonzero remainder_a a;
    token_b_amount = round_up_nonzero remainder_b b;
  })

-- The reserve that the single-sided formulas start from.
abbrev pub source_reserve : TradeDirection → ℕ → ℕ → ℕ
source_reserve a_to_b token_a token_b = token_a
source_reserve b_to_a token_a token_b = token_b

module _ (math : SplMath) where
  open math use {
    PreciseNumber, checked_ceil_div, new, to_imprecise, sqrt, zero_number, checked_add as add,
    checked_sub as sub, checked_mul as mul, checked_div as div, floor as floor_of,
    ceiling as ceiling_of,
  }

  unfoldable pub swap : ℕ → ℕ → ℕ → Option SwapWithoutFeesResult
  swap source_amount swap_source_amount swap_destination_amount = do
    invariant ← checked_mul_u128 swap_source_amount swap_destination_amount
    increased ← checked_add_u128 swap_source_amount source_amount
    (new_destination, new_source) ← checked_ceil_div invariant increased
    source_swapped ← checked_sub new_source swap_source_amount
    difference ← checked_sub swap_destination_amount new_destination
    destination_swapped ← map_zero_to_none difference
    some (record {
      source_amount_swapped = source_swapped;
      destination_amount_swapped = destination_swapped;
    })

  unfoldable pub swap_to_exact_out : ℕ → ℕ → ℕ → Option SwapWithoutFeesResult
  swap_to_exact_out destination_amount swap_source_amount swap_destination_amount =
      if leb swap_destination_amount destination_amount then none else do
        invariant ← checked_mul_u128 swap_source_amount swap_destination_amount
        new_destination ← checked_sub swap_destination_amount destination_amount
        (new_source, _) ← checked_ceil_div invariant new_destination
        difference ← checked_sub new_source swap_source_amount
        source_swapped ← map_zero_to_none difference
        some (record {
          source_amount_swapped = source_swapped;
          destination_amount_swapped = destination_amount;
        })

  -- The last step of the single-sided formulas.
  unfoldable pub rounded : RoundDirection → PreciseNumber → Option ℕ
  rounded floor number = do whole ← floor_of number; to_imprecise whole
  rounded ceiling number = do whole ← ceiling_of number; to_imprecise whole

  unfoldable pub deposit_single_token_type :
      ℕ → ℕ → ℕ → ℕ → TradeDirection → RoundDirection → Option ℕ
  deposit_single_token_type source_amount token_a token_b pool_supply direction round = do
    reserve ← new (source_reserve direction token_a token_b)
    source ← new source_amount
    ratio ← div source reserve
    one ← new 1
    base ← add one ratio
    root_base ← sqrt base
    root ← sub root_base one
    supply ← new pool_supply
    pool_tokens ← mul supply root
    rounded round pool_tokens

  unfoldable pub withdraw_single_token_type_exact_out :
      ℕ → ℕ → ℕ → ℕ → TradeDirection → RoundDirection → Option ℕ
  withdraw_single_token_type_exact_out source_amount token_a token_b pool_supply direction round =
      do
        reserve ← new (source_reserve direction token_a token_b)
        source ← new source_amount
        ratio ← div source reserve
        one ← new 1
        let base : PreciseNumber = elim (sub one ratio) [
          | none ↦ zero_number
          | some number ↦ number
        ]
        root_base ← sqrt base
        root ← sub one root_base
        supply ← new pool_supply
        pool_tokens ← mul supply root
        rounded round pool_tokens

  unfoldable pub normalized_value : ℕ → ℕ → Option PreciseNumber
  normalized_value token_a token_b = do
    a ← new token_a
    b ← new token_b
    product ← mul a b
    sqrt product
