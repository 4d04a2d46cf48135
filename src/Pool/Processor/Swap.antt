-- ===== src/Pool/Processor/Swap.antt =====
-- `process_swap`, `process_swap_exact_out` and `process_swap_generic` of program/src/processor.rs. The
-- blocks of the source that bind a value are definitions of their own.
use rome_dex.Base.{
  ℕ, ◌-◌, Bool, not, ◌||◌, leb, ◌==◌, if◌then◌else◌, Option, none, some, List, ◌∷◌, ok_or,
}
use rome_dex.Solana.Errors.{incorrect_program_id, not_enough_account_keys}
use rome_dex.Solana.Runtime.{
  Pubkey, AccountInfo, Action, ◌>>=◌, ◌>>◌, pure, fail, lift, require, owner_of,
}
use rome_dex.Curve.Calculator
use rome_dex.Curve.Calculator.{TradeDirection, a_to_b, b_to_a}
use rome_dex.Curve.SwapCurve
use rome_dex.Curve.SwapCurve.{SwapResult}
use rome_dex.Pool.Platform.{Platform, TransferFeeConfig}
use rome_dex.Pool.State.{SwapV2, from_error, lifted}
use rome_dex.Pool.Counters.{lp_reserves, accrued, saturating_add}
use rome_dex.Pool.Processor.Tokens.{to_u64, unpack_token_account, unpack_mint, token_transfer}
use rome_dex.Pool.Processor.Checks.{load_version, load_v2, store_v2, require_authority}

pub data SwapSpec : Type 0 where
  -- amount in, minimum amount out
  exact_in : ℕ → ℕ → SwapSpec
  -- amount out, maximum amount in
  exact_out : ℕ → ℕ → SwapSpec

unfoldable pub direction_from : AccountInfo → SwapV2 → TradeDirection
direction_from swap_source_info token_swap =
    if swap_source_info.key == token_swap.token_a then a_to_b else b_to_a

-- The exact-out guard, on the input side.
unfoldable pub guard_input : SwapSpec → ℕ → Action (Unit {0})
guard_input (exact_in amount_in minimum_amount_out) source_transfer_amount = pure tt
guard_input (exact_out amount_out maximum_amount_in) source_transfer_amount =
    require (leb source_transfer_amount maximum_amount_in) (from_error Calculator.exceeded_slippage)

-- The exact-in guard, on the output side.
unfoldable pub guard_output : SwapSpec → ℕ → Action (Unit {0})
guard_output (exact_in amount_in minimum_amount_out) amount_received =
    require (leb minimum_amount_out amount_received) (from_error Calculator.exceeded_slippage)
guard_output (exact_out amount_out maximum_amount_in) amount_received = pure tt

-- A vault of the pool.
abbrev pub is_vault : AccountInfo → SwapV2 → Bool
is_vault info token_swap = info.key == token_swap.token_a || info.key == token_swap.token_b

module _ (platform : Platform) where
  -- What arrives of an amount, on a mint that may have a transfer fee.
  unfoldable pub less_transfer_fee : Option TransferFeeConfig → ℕ → Action ℕ
  less_transfer_fee none amount = pure amount
  less_transfer_fee (some config) amount = do
    epoch ← lift platform.epoch
    fee ←
        lifted (ok_or (config.calculate_epoch_fee epoch amount) Calculator.fee_calculation_failure)
    pure (amount - fee)

  -- What must be sent for an amount to arrive.
  unfoldable pub plus_transfer_fee : Option TransferFeeConfig → ℕ → Action ℕ
  plus_transfer_fee none amount = pure amount
  plus_transfer_fee (some config) amount = do
    epoch ← lift platform.epoch
    fee ←
        lifted (
          ok_or (config.calculate_inverse_epoch_fee epoch amount)
            Calculator.fee_calculation_failure)
    pure (saturating_add amount fee)

  -- What the curve answers, on the reserves without the counters.
  unfoldable pub curve_result :
      SwapSpec → SwapV2 → AccountInfo → TradeDirection → ℕ → ℕ → Action SwapResult
  curve_result (exact_in amount_in minimum_amount_out) token_swap source_token_mint_info
        trade_direction lp_source lp_dest =
      do
        source_mint ← unpack_mint platform source_token_mint_info token_swap.token_program_id
        actual_amount_in ← less_transfer_fee source_mint.transfer_fee_config amount_in
        lifted (
            ok_or
              (SwapCurve.swap platform.math token_swap.swap_curve.calculator actual_amount_in
                lp_source lp_dest trade_direction token_swap.fees)
              Calculator.zero_trading_tokens)
  curve_result (exact_out amount_out maximum_amount_in) token_swap source_token_mint_info
        trade_direction lp_source lp_dest =
      lifted (
        ok_or
          (SwapCurve.swap_for_exact_out platform.math token_swap.swap_curve.calculator amount_out
            lp_source lp_dest trade_direction token_swap.fees)
          Calculator.zero_trading_tokens)

  -- The amount to take from the user, and the decimals of its mint.
  unfoldable pub source_side : SwapV2 → SwapResult → AccountInfo → Action (ℕ × ℕ)
  source_side token_swap result source_token_mint_info = do
    source_amount_swapped ← lifted (to_u64 result.source_amount_swapped)
    source_mint ← unpack_mint platform source_token_mint_info token_swap.token_program_id
    amount ← plus_transfer_fee source_mint.transfer_fee_config source_amount_swapped
    pure (amount, source_mint.decimals)

  -- The amount to pay out, and the decimals of its mint.
  unfoldable pub destination_side : SwapSpec → SwapV2 → SwapResult → AccountInfo → Action (ℕ × ℕ)
  destination_side spec token_swap result destination_token_mint_info = do
    destination_mint ← unpack_mint platform destination_token_mint_info token_swap.token_program_id
    amount_out ← lifted (to_u64 result.destination_amount_swapped)
    amount_received ← less_transfer_fee destination_mint.transfer_fee_config amount_out
    guard_output spec amount_received
    pure (amount_out, destination_mint.decimals)

module _ (platform : Platform) (program_id : Pubkey) where
  -- The accounts belong to the pool.
  unfoldable pub admit_swap :
      AccountInfo
      → AccountInfo
      → AccountInfo
      → AccountInfo
      → AccountInfo
      → AccountInfo
      → AccountInfo
      → AccountInfo
      → Action SwapV2
  admit_swap swap_info authority_info source_info swap_source_info swap_destination_info
        destination_info pool_mint_info pool_token_program_info =
      do
        owner ← owner_of swap_info
        require (owner == program_id) incorrect_program_id
        token_swap ← load_version platform swap_info
        require_authority platform program_id authority_info swap_info token_swap
        require (is_vault swap_source_info token_swap)
            (from_error Calculator.incorrect_swap_account)
        require (is_vault swap_destination_info token_swap)
            (from_error Calculator.incorrect_swap_account)
        require (not (swap_source_info.key == swap_destination_info.key))
            (from_error Calculator.invalid_input)
        require (not (swap_source_info.key == source_info.key))
            (from_error Calculator.invalid_input)
        require (not (swap_destination_info.key == destination_info.key))
            (from_error Calculator.invalid_input)
        require (pool_mint_info.key == token_swap.pool_mint)
            (from_error Calculator.incorrect_pool_mint)
        require (pool_token_program_info.key == token_swap.token_program_id)
            (from_error Calculator.incorrect_token_program_id)
        pure token_swap

  -- `v2` is read again after the first transfer.
  unfoldable pub accrue_fee : AccountInfo → TradeDirection → ℕ → Action (Unit {0})
  accrue_fee swap_info trade_direction owner_fee = do
    v2 ← load_v2 platform swap_info
    raised ← lifted (accrued v2 trade_direction owner_fee)
    store_v2 platform swap_info raised

  unfoldable pub swap_generic : SwapSpec → List AccountInfo → Action (Unit {0})
  swap_generic spec
        (swap_info ∷ authority_info ∷ user_transfer_authority_info ∷ source_info ∷ swap_source_info
          ∷ swap_destination_info ∷ destination_info ∷ pool_mint_info ∷ source_token_mint_info
          ∷ destination_token_mint_info ∷ source_token_program_info ∷ destination_token_program_info
          ∷ pool_token_program_info ∷ _) =
      do
        token_swap ←
            admit_swap swap_info authority_info source_info swap_source_info swap_destination_info
              destination_info pool_mint_info pool_token_program_info
        source_account ← unpack_token_account platform swap_source_info token_swap.token_program_id
        dest_account ←
            unpack_token_account platform swap_destination_info token_swap.token_program_id
        let trade_direction = direction_from swap_source_info token_swap
        reserves ←
            lifted
              (lp_reserves token_swap trade_direction source_account.amount dest_account.amount)
        result ←
            curve_result platform spec token_swap source_token_mint_info trade_direction reserves.0
              reserves.1
        sent ← source_side platform token_swap result source_token_mint_info
        guard_input spec sent.0
        paid ← destination_side platform spec token_swap result destination_token_mint_info
        token_transfer platform swap_info.key source_token_program_info source_info
            source_token_mint_info swap_source_info user_transfer_authority_info
            token_swap.bump_seed sent.0 sent.1
        owner_fee ← lifted (to_u64 result.owner_fee)
        accrue_fee swap_info trade_direction owner_fee
        token_transfer platform swap_info.key destination_token_program_info swap_destination_info
            destination_token_mint_info destination_info authority_info token_swap.bump_seed paid.0
            paid.1
  swap_generic spec _ = fail not_enough_account_keys

  unfoldable pub swap : ℕ → ℕ → List AccountInfo → Action (Unit {0})
  unfolding swap_generic
  swap amount_in minimum_amount_out accounts =
      swap_generic (exact_in amount_in minimum_amount_out) accounts

  unfoldable pub swap_exact_out : ℕ → ℕ → List AccountInfo → Action (Unit {0})
  unfolding swap_generic
  swap_exact_out amount_out maximum_amount_in accounts =
      swap_generic (exact_out amount_out maximum_amount_in) accounts
