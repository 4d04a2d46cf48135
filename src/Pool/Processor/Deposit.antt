-- ===== src/Pool/Processor/Deposit.antt =====
-- `process_deposit_all_token_types` and `process_deposit_single_token_type_exact_amount_in` of
-- program/src/processor.rs.
use rome_dex.Base.{ℕ, Option, none, some, List, ◌∷◌, ltb, leb, not, ◌==◌, if◌then◌else◌, ok_or}
use rome_dex.Solana.Errors.{not_enough_account_keys}
use rome_dex.Solana.Runtime.{Pubkey, AccountInfo, Action, ◌>>=◌, ◌>>◌, pure, fail, require}
use rome_dex.Curve.Calculator
use rome_dex.Curve.Calculator.{TradeDirection, a_to_b, b_to_a}
use rome_dex.Curve.SwapCurve
use rome_dex.Curve.SwapCurve.Dispatch
use rome_dex.Pool.Platform.{Platform, TokenAccount}
use rome_dex.Pool.State.{SwapV2, from_error, lifted}
use rome_dex.Pool.Counters.{lp_owned}
use rome_dex.Pool.Processor.Tokens.{
  to_u64, unpack_token_account, unpack_mint, token_transfer, token_mint_to,
}
use rome_dex.Pool.Processor.Checks.{load_version, check_accounts}

-- The direction of a single deposit or withdrawal: the side whose mint the user's account has.
unfoldable pub direction_of_mint :
    TokenAccount → TokenAccount → TokenAccount → Action TradeDirection
direction_of_mint account swap_token_a swap_token_b =
    if account.mint == swap_token_a.mint
    then pure a_to_b
    else if account.mint == swap_token_b.mint
    then pure b_to_a
    else fail (from_error Calculator.incorrect_swap_account)

-- The user's account stands on the side of the direction.
abbrev pub on_side_a : AccountInfo → TradeDirection → Option AccountInfo
on_side_a info a_to_b = some info
on_side_a info b_to_a = none

abbrev pub on_side_b : AccountInfo → TradeDirection → Option AccountInfo
on_side_b info a_to_b = none
on_side_b info b_to_a = some info

-- What is asked for, and the supply it is a part of; an empty pool mints its first supply.
abbrev pub share_of : ℕ → ℕ → ℕ × ℕ
share_of pool_token_amount supply =
    if ltb 0 supply
    then (pool_token_amount, supply)
    else (Dispatch.new_pool_supply, Dispatch.new_pool_supply)

-- A side's amount: a u64, at most what the user allows and not zero.
unfoldable pub require_paid : ℕ → ℕ → Action ℕ
require_paid computed maximum = do
  amount ← lifted (to_u64 computed)
  require (leb amount maximum) (from_error Calculator.exceeded_slippage)
  require (not (amount == 0)) (from_error Calculator.zero_trading_tokens)
  pure amount

module _ (platform : Platform) where
  -- `token_transfer` with the decimals of the mint that is passed.
  unfoldable pub transfer_unpacked :
      SwapV2
      → AccountInfo
      → AccountInfo
      → AccountInfo
      → AccountInfo
      → AccountInfo
      → AccountInfo
      → ℕ
      → Action (Unit {0})
  transfer_unpacked token_swap swap_info token_program source mint_info destination authority
        amount =
      do
        mint ← unpack_mint platform mint_info token_swap.token_program_id
        token_transfer platform swap_info.key token_program source mint_info destination authority
            token_swap.bump_seed amount mint.decimals

  -- The pool tokens for a single deposit.
  unfoldable pub pool_tokens_for : SwapV2 → ℕ → ℕ → ℕ → ℕ → TradeDirection → Action ℕ
  pool_tokens_for token_swap source_token_amount lp_a lp_b supply trade_direction =
      if ltb 0 supply
      then lifted (
          ok_or
            (SwapCurve.deposit_single_token_type platform.math token_swap.swap_curve.calculator
              source_token_amount lp_a lp_b supply trade_direction token_swap.fees)
            Calculator.zero_trading_tokens)
      else pure Dispatch.new_pool_supply

-- The vault of the side.
abbrev pub vault_of : AccountInfo → AccountInfo → TradeDirection → AccountInfo
vault_of swap_token_a_info swap_token_b_info a_to_b = swap_token_a_info
vault_of swap_token_a_info swap_token_b_info b_to_a = swap_token_b_info

module _ (platform : Platform) (program_id : Pubkey) where
  unfoldable pub deposit_all_token_types : ℕ → ℕ → ℕ → List AccountInfo → Action (Unit {0})
  deposit_all_token_types pool_token_amount maximum_token_a_amount maximum_token_b_amount
        (swap_info ∷ authority_info ∷ user_transfer_authority_info ∷ source_a_info ∷ source_b_info
          ∷ token_a_info ∷ token_b_info ∷ pool_mint_info ∷ dest_info ∷ token_a_mint_info
          ∷ token_b_mint_info ∷ token_a_program_info ∷ token_b_program_info
          ∷ pool_token_program_info ∷ _) =
      do
        token_swap ← load_version platform swap_info
        require (Dispatch.allows_deposits token_swap.swap_curve.calculator)
            (from_error Calculator.unsupported_curve_operation)
        check_accounts platform program_id token_swap swap_info authority_info token_a_info
            token_b_info pool_mint_info pool_token_program_info (some source_a_info)
            (some source_b_info)
        token_a ← unpack_token_account platform token_a_info token_swap.token_program_id
        token_b ← unpack_token_account platform token_b_info token_swap.token_program_id
        pool_mint ← unpack_mint platform pool_mint_info token_swap.token_program_id
        lp_a ← lifted (lp_owned token_a.amount token_swap.protocol_fees_a)
        lp_b ← lifted (lp_owned token_b.amount token_swap.protocol_fees_b)
        let share = share_of pool_token_amount pool_mint.supply
        results ← lifted (
            ok_or
              (Dispatch.pool_tokens_to_trading_tokens platform.math token_swap.swap_curve.calculator
                share.0 share.1 lp_a lp_b Calculator.ceiling)
              Calculator.zero_trading_tokens)
        token_a_amount ← require_paid results.token_a_amount maximum_token_a_amount
        token_b_amount ← require_paid results.token_b_amount maximum_token_b_amount
        minted ← lifted (to_u64 share.0)
        transfer_unpacked platform token_swap swap_info token_a_program_info source_a_info
            token_a_mint_info token_a_info user_transfer_authority_info token_a_amount
        transfer_unpacked platform token_swap swap_info token_b_program_info source_b_info
            token_b_mint_info token_b_info user_transfer_authority_info token_b_amount
        token_mint_to platform swap_info.key pool_token_program_info pool_mint_info dest_info
            authority_info token_swap.bump_seed minted
  deposit_all_token_types pool_token_amount maximum_token_a_amount maximum_token_b_amount _ =
      fail not_enough_account_keys

  unfoldable pub deposit_single_token_type_exact_amount_in :
      ℕ → ℕ → List AccountInfo → Action (Unit {0})
  deposit_single_token_type_exact_amount_in source_token_amount minimum_pool_token_amount
        (swap_info ∷ authority_info ∷ user_transfer_authority_info ∷ source_info ∷ swap_token_a_info
          ∷ swap_token_b_info ∷ pool_mint_info ∷ destination_info ∷ source_token_mint_info
          ∷ source_token_program_info ∷ pool_token_program_info ∷ _) =
      do
        token_swap ← load_version platform swap_info
        require (Dispatch.allows_deposits token_swap.swap_curve.calculator)
            (from_error Calculator.unsupported_curve_operation)
        source_account ← unpack_token_account platform source_info token_swap.token_program_id
        swap_token_a ← unpack_token_account platform swap_token_a_info token_swap.token_program_id
        swap_token_b ← unpack_token_account platform swap_token_b_info token_swap.token_program_id
        trade_direction ← direction_of_mint source_account swap_token_a swap_token_b
        check_accounts platform program_id token_swap swap_info authority_info swap_token_a_info
            swap_token_b_info pool_mint_info pool_token_program_info
            (on_side_a source_info trade_direction) (on_side_b source_info trade_direction)
        pool_mint ← unpack_mint platform pool_mint_info token_swap.token_program_id
        lp_a ← lifted (lp_owned swap_token_a.amount token_swap.protocol_fees_a)
        lp_b ← lifted (lp_owned swap_token_b.amount token_swap.protocol_fees_b)
        computed ←
            pool_tokens_for platform token_swap source_token_amount lp_a lp_b pool_mint.supply
              trade_direction
        pool_token_amount ← lifted (to_u64 computed)
        require (leb minimum_pool_token_amount pool_token_amount)
            (from_error Calculator.exceeded_slippage)
        require (not (pool_token_amount == 0)) (from_error Calculator.zero_trading_tokens)
        transfer_unpacked platform token_swap swap_info source_token_program_info source_info
            source_token_mint_info (vault_of swap_token_a_info swap_token_b_info trade_direction)
            user_transfer_authority_info source_token_amount
        token_mint_to platform swap_info.key pool_token_program_info pool_mint_info destination_info
            authority_info token_swap.bump_seed pool_token_amount
  deposit_single_token_type_exact_amount_in source_token_amount minimum_pool_token_amount _ =
      fail not_enough_account_keys
