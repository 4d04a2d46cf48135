-- ===== src/Pool/Processor/Withdraw.antt =====
-- `process_withdraw_all_token_types` and `process_withdraw_single_token_type_exact_amount_out` of
-- program/src/processor.rs.
use rome_dex.Base.{ℕ, ◌||◌, some, List, ◌∷◌, ltb, leb, not, ◌==◌, if◌then◌else◌, ok_or}
use rome_dex.Solana.Errors.{not_enough_account_keys}
use rome_dex.Solana.Runtime.{Pubkey, AccountInfo, Action, ◌>>=◌, ◌>>◌, pure, fail, require}
use rome_dex.Curve.Calculator
use rome_dex.Curve.Calculator.{TradeDirection, a_to_b, b_to_a}
use rome_dex.Curve.SwapCurve
use rome_dex.Curve.SwapCurve.Dispatch
use rome_dex.Pool.Platform.{Platform}
use rome_dex.Pool.State.{SwapV2, from_error, lifted}
use rome_dex.Pool.Counters.{lp_owned}
use rome_dex.Pool.Processor.Tokens.{to_u64, unpack_token_account, unpack_mint, token_burn}
use rome_dex.Pool.Processor.Checks.{load_version, check_accounts}
use rome_dex.Pool.Processor.Deposit.{
  direction_of_mint, on_side_a, on_side_b, vault_of, transfer_unpacked,
}

-- `std::cmp::min`
abbrev pub min : ℕ → ℕ → ℕ
min a b = if leb a b then a else b

-- A side's amount: no more than the reserve of the liquidity providers, at least what the user wants,
-- and zero only on an empty side.
unfoldable pub clamped : ℕ → ℕ → ℕ → Action ℕ
clamped computed lp minimum = do
  uncut ← lifted (to_u64 computed)
  let amount = min lp uncut
  require (leb minimum amount) (from_error Calculator.exceeded_slippage)
  require (not (amount == 0) || lp == 0) (from_error Calculator.zero_trading_tokens)
  pure amount

-- `match trade_direction` on the two sides.
abbrev pub side_of : ℕ → ℕ → TradeDirection → ℕ
side_of a b a_to_b = a
side_of a b b_to_a = b

module _ (platform : Platform) where
  -- A side that pays nothing is not called.
  unfoldable pub transfer_positive :
      SwapV2
      → AccountInfo
      → AccountInfo
      → AccountInfo
      → AccountInfo
      → AccountInfo
      → AccountInfo
      → ℕ
      → Action (Unit {0})
  transfer_positive token_swap swap_info token_program source mint_info destination authority
        amount =
      if ltb 0 amount
      then transfer_unpacked platform token_swap swap_info token_program source mint_info
          destination authority amount
      else pure tt

module _ (platform : Platform) (program_id : Pubkey) where
  unfoldable pub withdraw_all_token_types : ℕ → ℕ → ℕ → List AccountInfo → Action (Unit {0})
  withdraw_all_token_types pool_token_amount minimum_token_a_amount minimum_token_b_amount
        (swap_info ∷ authority_info ∷ user_transfer_authority_info ∷ pool_mint_info ∷ source_info
          ∷ token_a_info ∷ token_b_info ∷ dest_token_a_info ∷ dest_token_b_info ∷ token_a_mint_info
          ∷ token_b_mint_info ∷ pool_token_program_info ∷ token_a_program_info
          ∷ token_b_program_info ∷ _) =
      do
        token_swap ← load_version platform swap_info
        check_accounts platform program_id token_swap swap_info authority_info token_a_info
            token_b_info pool_mint_info pool_token_program_info (some dest_token_a_info)
            (some dest_token_b_info)
        token_a ← unpack_token_account platform token_a_info token_swap.token_program_id
        token_b ← unpack_token_account platform token_b_info token_swap.token_program_id
        pool_mint ← unpack_mint platform pool_mint_info token_swap.token_program_id
        lp_a ← lifted (lp_owned token_a.amount token_swap.protocol_fees_a)
        lp_b ← lifted (lp_owned token_b.amount token_swap.protocol_fees_b)
        results ← lifted (
            ok_or
              (Dispatch.pool_tokens_to_trading_tokens platform.math token_swap.swap_curve.calculator
                pool_token_amount pool_mint.supply lp_a lp_b Calculator.floor)
              Calculator.zero_trading_tokens)
        token_a_amount ← clamped results.token_a_amount lp_a minimum_token_a_amount
        token_b_amount ← clamped results.token_b_amount lp_b minimum_token_b_amount
        burned ← lifted (to_u64 pool_token_amount)
        token_burn platform swap_info.key pool_token_program_info source_info pool_mint_info
            user_transfer_authority_info token_swap.bump_seed burned
        transfer_positive platform token_swap swap_info token_a_program_info token_a_info
            token_a_mint_info dest_token_a_info authority_info token_a_amount
        transfer_positive platform token_swap swap_info token_b_program_info token_b_info
            token_b_mint_info dest_token_b_info authority_info token_b_amount
  withdraw_all_token_types pool_token_amount minimum_token_a_amount minimum_token_b_amount _ =
      fail not_enough_account_keys

  unfoldable pub withdraw_single_token_type_exact_amount_out :
      ℕ → ℕ → List AccountInfo → Action (Unit {0})
  withdraw_single_token_type_exact_amount_out destination_token_amount maximum_pool_token_amount
        (swap_info ∷ authority_info ∷ user_transfer_authority_info ∷ pool_mint_info ∷ source_info
          ∷ swap_token_a_info ∷ swap_token_b_info ∷ destination_info ∷ destination_token_mint_info
          ∷ pool_token_program_info ∷ destination_token_program_info ∷ _) =
      do
        token_swap ← load_version platform swap_info
        destination_account ←
            unpack_token_account platform destination_info token_swap.token_program_id
        swap_token_a ← unpack_token_account platform swap_token_a_info token_swap.token_program_id
        swap_token_b ← unpack_token_account platform swap_token_b_info token_swap.token_program_id
        trade_direction ← direction_of_mint destination_account swap_token_a swap_token_b
        check_accounts platform program_id token_swap swap_info authority_info swap_token_a_info
            swap_token_b_info pool_mint_info pool_token_program_info
            (on_side_a destination_info trade_direction)
            (on_side_b destination_info trade_direction)
        pool_mint ← unpack_mint platform pool_mint_info token_swap.token_program_id
        lp_a ← lifted (lp_owned swap_token_a.amount token_swap.protocol_fees_a)
        lp_b ← lifted (lp_owned swap_token_b.amount token_swap.protocol_fees_b)
        require (leb destination_token_amount (side_of lp_a lp_b trade_direction))
            (from_error Calculator.exceeded_lp_reserve)
        pool_token_amount ← lifted (
            ok_or
              (SwapCurve.withdraw_single_token_type_exact_out platform.math
                token_swap.swap_curve.calculator destination_token_amount lp_a lp_b pool_mint.supply
                trade_direction token_swap.fees)
              Calculator.zero_trading_tokens)
        burned ← lifted (to_u64 pool_token_amount)
        require (leb burned maximum_pool_token_amount) (from_error Calculator.exceeded_slippage)
        require (not (pool_token_amount == 0)) (from_error Calculator.zero_trading_tokens)
        token_burn platform swap_info.key pool_token_program_info source_info pool_mint_info
            user_transfer_authority_info token_swap.bump_seed burned
        transfer_unpacked platform token_swap swap_info destination_token_program_info
            (vault_of swap_token_a_info swap_token_b_info trade_direction)
            destination_token_mint_info destination_info authority_info destination_token_amount
  withdraw_single_token_type_exact_amount_out destination_token_amount maximum_pool_token_amount _ =
      fail not_enough_account_keys
