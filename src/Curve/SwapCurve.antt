-- ===== src/Curve/SwapCurve.antt =====
-- The curve of a pool with its fees: program/src/curve/base.rs. The trait object `calculator` is a data
-- type with a constructor for each curve, and the methods of the trait dispatch on it.
pub mod Dispatch
pub mod Exchange
use rome_dex.Base.{
  ℕ, ◌+◌, Option, none, some, Result, ok, err, ◌>>◌, require, not, ◌==◌, if◌then◌else◌, leb,
}
use rome_dex.Base.Words.{checked_sub, checked_div, checked_add_u128}
use rome_dex.Base.Checked.{◌>>=◌}
use rome_dex.Curve.SplMath.{SplMath}
use rome_dex.Curve.Calculator.{TradeDirection, ceiling, SwapWithoutFeesResult}
use rome_dex.Curve.Fees.{Fees, trading_fee, owner_trading_fee, pre_trading_fee_amount}
use Dispatch.{Calculator}
use Dispatch

pub record SwapResult : Type 0 where
  pub new_swap_source_amount : ℕ
  pub new_swap_destination_amount : ℕ
  pub source_amount_swapped : ℕ
  pub destination_amount_swapped : ℕ
  pub trade_fee : ℕ
  pub owner_fee : ℕ

-- `std::cmp::max(1, x)`
abbrev pub max_one : ℕ → ℕ
max_one x = if leb x 1 then 1 else x

module _ (math : SplMath) (calculator : Calculator) where
  unfoldable pub swap : ℕ → ℕ → ℕ → TradeDirection → Fees → Option SwapResult
  swap source_amount swap_source swap_destination direction fees = do
    trade_fee ← trading_fee fees source_amount
    owner_fee ← owner_trading_fee fees source_amount
    total_fees ← checked_add_u128 trade_fee owner_fee
    less_fees ← checked_sub source_amount total_fees
    exchanged ←
        Dispatch.swap_without_fees math calculator less_fees swap_source swap_destination direction
    source_swapped ← checked_add_u128 exchanged.source_amount_swapped total_fees
    new_source ← checked_add_u128 swap_source source_swapped
    new_destination ← checked_sub swap_destination exchanged.destination_amount_swapped
    some (record {
      new_swap_source_amount = new_source;
      new_swap_destination_amount = new_destination;
      source_amount_swapped = source_swapped;
      destination_amount_swapped = exchanged.destination_amount_swapped;
      trade_fee = trade_fee;
      owner_fee = owner_fee;
    })

  unfoldable pub swap_for_exact_out : ℕ → ℕ → ℕ → TradeDirection → Fees → Option SwapResult
  swap_for_exact_out destination_amount swap_source swap_destination direction fees = do
    exchanged ←
        Dispatch.swap_to_exact_out math calculator destination_amount swap_source swap_destination
          direction
    source_swapped ← pre_trading_fee_amount fees exchanged.source_amount_swapped
    trade_fee ← trading_fee fees source_swapped
    owner_fee ← owner_trading_fee fees source_swapped
    new_source ← checked_add_u128 swap_source source_swapped
    new_destination ← checked_sub swap_destination exchanged.destination_amount_swapped
    some (record {
      new_swap_source_amount = new_source;
      new_swap_destination_amount = new_destination;
      source_amount_swapped = source_swapped;
      destination_amount_swapped = exchanged.destination_amount_swapped;
      trade_fee = trade_fee;
      owner_fee = owner_fee;
    })

  unfoldable pub deposit_single_token_type : ℕ → ℕ → ℕ → ℕ → TradeDirection → Fees → Option ℕ
  deposit_single_token_type source_amount token_a token_b pool_supply direction fees =
      if source_amount == 0 then some 0 else do
        half ← checked_div source_amount 2
        trade_fee ← trading_fee fees (max_one half)
        owner_fee ← owner_trading_fee fees (max_one half)
        total_fees ← checked_add_u128 trade_fee owner_fee
        less_fees ← checked_sub source_amount total_fees
        Dispatch.deposit_single_token_type math calculator less_fees token_a token_b pool_supply
            direction

  unfoldable pub withdraw_single_token_type_exact_out :
      ℕ → ℕ → ℕ → ℕ → TradeDirection → Fees → Option ℕ
  withdraw_single_token_type_exact_out source_amount token_a token_b pool_supply direction fees =
      if source_amount == 0 then some 0 else do
        increased ← checked_add_u128 source_amount 1
        half ← checked_div increased 2
        pre_fee ← pre_trading_fee_amount fees half
        rest ← checked_sub source_amount half
        gross ← checked_add_u128 rest pre_fee
        Dispatch.withdraw_single_token_type_exact_out math calculator gross token_a token_b
            pool_supply direction ceiling
