-- ===== src/Pool/Processor/Collect.antt =====
-- `process_collect_protocol_fees` of program/src/processor.rs.
use rome_dex.Base.{ℕ, not, ◌&&◌, List, ◌∷◌, ltb, ◌==◌, if◌then◌else◌}
use rome_dex.Solana.Errors.{incorrect_program_id, not_enough_account_keys}
use rome_dex.Solana.Runtime.{
  Pubkey, AccountInfo, Action, ◌>>=◌, ◌>>◌, pure, fail, require, owner_of,
}
use rome_dex.Curve.Calculator
use rome_dex.Pool.Platform.{Platform, TokenAccount}
use rome_dex.Pool.State.{SwapV2, ProtocolConfig, from_error}
use rome_dex.Pool.Config.{load_config}
use rome_dex.Pool.Processor.Tokens.{unpack_token_account, unpack_mint, token_transfer}
use rome_dex.Pool.Processor.Checks.{load_version, load_v2, store_v2, require_authority}

-- A destination belongs to the treasury, holds the side's mint and is not the vault.
unfoldable pub require_destination :
    TokenAccount → ProtocolConfig → Pubkey → AccountInfo → AccountInfo → Action (Unit {0})
require_destination dest config token_mint dest_info vault_info =
    require
      (dest.owner == config.treasury
        && dest.mint == token_mint
        && not (dest_info.key == vault_info.key))
      (from_error Calculator.invalid_treasury_destination)

module _ (platform : Platform) (program_id : Pubkey) where
  -- One side's transfer, of all its counter holds.
  unfoldable pub collect_side :
      SwapV2
      → ℕ
      → AccountInfo
      → AccountInfo
      → AccountInfo
      → AccountInfo
      → AccountInfo
      → AccountInfo
      → Action (Unit {0})
  collect_side token_swap counter pool_info authority_info vault_info dest_info mint_info
        token_program_info =
      if ltb 0 counter
      then (do
        mint ← unpack_mint platform mint_info token_program_info.key
        token_transfer platform pool_info.key token_program_info vault_info mint_info dest_info
            authority_info token_swap.bump_seed counter mint.decimals)
      else pure tt

  -- Both counters, of the pool as it is then.
  unfoldable pub zero_counters : AccountInfo → Action (Unit {0})
  zero_counters pool_info = do
    v2 ← load_v2 platform pool_info
    store_v2 platform pool_info (record v2 { protocol_fees_a = 0; protocol_fees_b = 0 })

  unfoldable pub collect_protocol_fees : List AccountInfo → Action (Unit {0})
  collect_protocol_fees
        (pool_info ∷ authority_info ∷ vault_a_info ∷ vault_b_info ∷ dest_a_info ∷ dest_b_info
          ∷ mint_a_info ∷ mint_b_info ∷ config_info ∷ token_program_a_info ∷ token_program_b_info
          ∷ _) =
      do
        owner ← owner_of pool_info
        require (owner == program_id) incorrect_program_id
        token_swap ← load_version platform pool_info
        require_authority platform program_id authority_info pool_info token_swap
        require (vault_a_info.key == token_swap.token_a && vault_b_info.key == token_swap.token_b)
            (from_error Calculator.incorrect_swap_account)
        vault_a_owner ← owner_of vault_a_info
        require (vault_a_owner == token_program_a_info.key)
            (from_error Calculator.incorrect_token_program_id)
        vault_b_owner ← owner_of vault_b_info
        require (vault_b_owner == token_program_b_info.key)
            (from_error Calculator.incorrect_token_program_id)
        config ← load_config platform program_id config_info Calculator.config_not_initialized
        dest_a ← unpack_token_account platform dest_a_info token_program_a_info.key
        dest_b ← unpack_token_account platform dest_b_info token_program_b_info.key
        require_destination dest_a config token_swap.token_a_mint dest_a_info vault_a_info
        require_destination dest_b config token_swap.token_b_mint dest_b_info vault_b_info
        collect_side token_swap token_swap.protocol_fees_a pool_info authority_info vault_a_info
            dest_a_info mint_a_info token_program_a_info
        collect_side token_swap token_swap.protocol_fees_b pool_info authority_info vault_b_info
            dest_b_info mint_b_info token_program_b_info
        zero_counters pool_info
  collect_protocol_fees _ = fail not_enough_account_keys
