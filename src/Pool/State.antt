-- ===== src/Pool/State.antt =====
-- The records of program/src/state.rs, config.rs and curve/base.rs, and the numeric codes of
-- program/src/error.rs. `SwapVersion` has one version, so a pool is a `SwapV2`.
use rome_dex.Base.{ℕ, Bool, ◌==◌, Result, map_err}
use rome_dex.Solana.Errors.{ProgramError, custom}
use rome_dex.Solana.Runtime.{Pubkey, Action, lift}
use rome_dex.Curve.Calculator
use rome_dex.Curve.Calculator.{SwapError}
use rome_dex.Curve.Fees.{Fees}
use rome_dex.Curve.SwapCurve.Dispatch.{CurveType, Calculator}

-- `SwapCurve`: the tag and the trait object.
pub record SwapCurve : Type 0 where
  pub curve_type : CurveType
  pub calculator : Calculator

pub record SwapV2 : Type 0 where
  pub is_initialized : Bool
  pub bump_seed : ℕ
  pub token_program_id : Pubkey
  pub token_a : Pubkey
  pub token_b : Pubkey
  pub pool_mint : Pubkey
  pub token_a_mint : Pubkey
  pub token_b_mint : Pubkey
  pub fees : Fees
  pub swap_curve : SwapCurve
  pub protocol_fees_a : ℕ
  pub protocol_fees_b : ℕ

pub record ProtocolConfig : Type 0 where
  pub version : ℕ
  pub admin : Pubkey
  pub pending_admin : Pubkey
  pub treasury : Pubkey
  pub pool_creation_mode : ℕ

abbrev pub fees_len : ℕ
fees_len = 64

abbrev pub swap_curve_len : ℕ
swap_curve_len = 33

abbrev pub swap_v2_len : ℕ
swap_v2_len = 307

-- `SwapVersion::LATEST_LEN`
abbrev pub latest_len : ℕ
latest_len = 308

abbrev pub protocol_config_len : ℕ
protocol_config_len = 98

abbrev pub mode_permissionless : ℕ
mode_permissionless = 1

abbrev pub config_version : ℕ
config_version = 1

-- `Pubkey::default()`
abbrev pub default_key : Pubkey
default_key = 0

unfoldable pub is_permissionless : ProtocolConfig → Bool
is_permissionless config = config.pool_creation_mode == mode_permissionless

-- `e as u32`
unfoldable pub code : SwapError → ℕ
code Calculator.already_in_use = 0
code Calculator.invalid_program_address = 1
code Calculator.invalid_owner = 2
code Calculator.invalid_output_owner = 3
code Calculator.expected_mint = 4
code Calculator.expected_account = 5
code Calculator.empty_supply = 6
code Calculator.invalid_supply = 7
code Calculator.invalid_delegate = 8
code Calculator.invalid_input = 9
code Calculator.incorrect_swap_account = 10
code Calculator.incorrect_pool_mint = 11
code Calculator.invalid_output = 12
code Calculator.calculation_failure = 13
code Calculator.invalid_instruction = 14
code Calculator.repeated_mint = 15
code Calculator.exceeded_slippage = 16
code Calculator.invalid_close_authority = 17
code Calculator.invalid_freeze_authority = 18
code Calculator.incorrect_fee_account = 19
code Calculator.zero_trading_tokens = 20
code Calculator.fee_calculation_failure = 21
code Calculator.conversion_failure = 22
code Calculator.invalid_fee = 23
code Calculator.incorrect_token_program_id = 24
code Calculator.unsupported_curve_type = 25
code Calculator.invalid_curve = 26
code Calculator.unsupported_curve_operation = 27
code Calculator.invalid_fee_account = 28
code Calculator.instruction_retired = 29
code Calculator.fee_bps_mismatch = 30
code Calculator.exceeded_lp_reserve = 31
code Calculator.config_already_initialized = 32
code Calculator.invalid_program_data = 33
code Calculator.immutable_program = 34
code Calculator.invalid_config_authority = 35
code Calculator.config_not_initialized = 36
code Calculator.pool_creation_not_configured = 37
code Calculator.pool_creation_restricted = 38
code Calculator.not_admin = 39
code Calculator.not_pending_admin = 40
code Calculator.invalid_treasury_destination = 41
code Calculator.invalid_config_value = 42
code Calculator.invalid_pool_creation_mode = 43

-- `From<SwapError> for ProgramError`
abbrev pub from_error : SwapError → ProgramError
from_error e = custom (code e)

-- `?` on a `SwapError`.
abbrev pub lifted : {A : Type 0} → Result SwapError A → Action A
lifted r = lift (map_err from_error r)
