-- ===== src/Curve/Calculator.antt =====
-- The types and small helpers of program/src/curve/calculator.rs.
use rome_dex.Base.{ℕ, Option, none, some, ◌==◌, if◌then◌else◌}

pub data TradeDirection : Type 0 where
  a_to_b b_to_a : TradeDirection

pub data RoundDirection : Type 0 where
  floor ceiling : RoundDirection

unfoldable pub opposite : TradeDirection → TradeDirection
opposite a_to_b = b_to_a
opposite b_to_a = a_to_b

unfoldable pub map_zero_to_none : ℕ → Option ℕ
map_zero_to_none x = if x == 0 then none else some x

pub record SwapWithoutFeesResult : Type 0 where
  pub source_amount_swapped : ℕ
  pub destination_amount_swapped : ℕ

pub record TradingTokenResult : Type 0 where
  pub token_a_amount : ℕ
  pub token_b_amount : ℕ

-- `SwapError` of program/src/error.rs.
pub data SwapError : Type 0 where
  already_in_use invalid_program_address invalid_owner invalid_output_owner : SwapError
  expected_mint expected_account empty_supply invalid_supply : SwapError
  invalid_delegate invalid_input incorrect_swap_account incorrect_pool_mint : SwapError
  invalid_output calculation_failure invalid_instruction repeated_mint : SwapError
  exceeded_slippage invalid_close_authority invalid_freeze_authority incorrect_fee_account :
      SwapError
  zero_trading_tokens fee_calculation_failure conversion_failure invalid_fee : SwapError
  incorrect_token_program_id unsupported_curve_type invalid_curve unsupported_curve_operation :
      SwapError
  invalid_fee_account instruction_retired fee_bps_mismatch exceeded_lp_reserve : SwapError
  config_already_initialized invalid_program_data immutable_program invalid_config_authority :
      SwapError
  config_not_initialized pool_creation_not_configured pool_creation_restricted not_admin : SwapError
  not_pending_admin invalid_treasury_destination invalid_config_value invalid_pool_creation_mode :
      SwapError
