-- ===== src/Pool/Processor/Tokens.antt =====
-- The token helpers of program/src/processor.rs. The `?` of an instruction's builder is part of the call
-- it is passed to, and `invoke_signed_wrapper` only logs on the way.
use rome_dex.Base.{ℕ, [], ◌∷◌, ◌||◌, ◌==◌, ltb, if◌then◌else◌, Result, ◌-◌, ok_or}
use rome_dex.Base.Words
use rome_dex.Base.Words.{checked_sub}
use rome_dex.Solana.Runtime.{
  Pubkey, to_bytes, AccountInfo, Instruction, Seeds, Action, ◌>>=◌, ◌>>◌, pure, lift, require,
  owner_of, lamports_of, contents_of, invoke,
}
use rome_dex.Curve.Calculator
use rome_dex.Curve.Calculator.{SwapError}
use rome_dex.Pool.Platform.{Platform, Mint, TokenAccount}
use rome_dex.Pool.State.{from_error, lifted}

-- `to_u64`
unfoldable pub to_u64 : ℕ → Result SwapError ℕ
to_u64 x = ok_or (Words.to_u64 x) Calculator.conversion_failure

-- The signer seeds of a pool's authority.
abbrev pub authority_seeds : Pubkey → ℕ → Seeds
authority_seeds pool bump_seed = to_bytes pool ∷ (bump_seed ∷ []) ∷ []

module _ (platform : Platform) where
  -- The account must belong to the pool's token program or to a known one.
  unfoldable pub require_token_owner : AccountInfo → Pubkey → Action (Unit {0})
  require_token_owner info token_program_id = do
    owner ← owner_of info
    require (owner == token_program_id || platform.is_spl_token_program owner)
        (from_error Calculator.incorrect_token_program_id)

  unfoldable pub unpack_token_account : AccountInfo → Pubkey → Action TokenAccount
  unpack_token_account info token_program_id = do
    require_token_owner info token_program_id
    bytes ← contents_of info
    lifted (ok_or (platform.unpack_account bytes) Calculator.expected_account)

  -- `unpack_mint`, and `unpack_mint_with_extensions` of the account's own data and owner.
  unfoldable pub unpack_mint : AccountInfo → Pubkey → Action Mint
  unpack_mint info token_program_id = do
    require_token_owner info token_program_id
    bytes ← contents_of info
    lifted (ok_or (platform.unpack_mint bytes) Calculator.expected_mint)

  unfoldable pub authority_id : Pubkey → Pubkey → ℕ → Result SwapError Pubkey
  authority_id program_id my_info bump_seed =
      ok_or (platform.runtime.create_program_address (authority_seeds my_info bump_seed) program_id)
        Calculator.invalid_program_address

  -- swap, token program, account, mint, authority
  unfoldable pub token_burn :
      Pubkey → AccountInfo → AccountInfo → AccountInfo → AccountInfo → ℕ → ℕ → Action (Unit {0})
  token_burn swap token_program burn_account mint authority bump_seed amount =
      invoke platform.runtime
        (Instruction.burn token_program.key burn_account.key mint.key authority.key amount)
        (authority_seeds swap bump_seed ∷ [])

  -- swap, token program, mint, destination, authority
  unfoldable pub token_mint_to :
      Pubkey → AccountInfo → AccountInfo → AccountInfo → AccountInfo → ℕ → ℕ → Action (Unit {0})
  token_mint_to swap token_program mint destination authority bump_seed amount =
      invoke platform.runtime
        (Instruction.mint_to token_program.key mint.key destination.key authority.key amount)
        (authority_seeds swap bump_seed ∷ [])

  -- swap, token program, source, mint, destination, authority
  unfoldable pub token_transfer :
      Pubkey
      → AccountInfo
      → AccountInfo
      → AccountInfo
      → AccountInfo
      → AccountInfo
      → ℕ
      → ℕ
      → ℕ
      → Action (Unit {0})
  token_transfer swap token_program source mint destination authority bump_seed amount decimals =
      invoke platform.runtime
        (Instruction.transfer_checked token_program.key source.key mint.key destination.key
          authority.key amount decimals)
        (authority_seeds swap bump_seed ∷ [])

  -- The lamports that are missing come from the payer.
  unfoldable pub top_up : AccountInfo → AccountInfo → ℕ → ℕ → Action (Unit {0})
  top_up payer_info target_info rent_needed current_lamports =
      if ltb current_lamports rent_needed
      then invoke platform.runtime
          (Instruction.system_transfer payer_info.key target_info.key
            (rent_needed - current_lamports))
          []
      else pure tt

  unfoldable pub create_pda_account :
      AccountInfo → AccountInfo → Seeds → ℕ → Pubkey → Action (Unit {0})
  create_pda_account payer_info target_info signer_seeds space owner = do
    rent_needed ← lift (platform.runtime.minimum_balance space)
    current_lamports ← lamports_of target_info
    top_up payer_info target_info rent_needed current_lamports
    invoke platform.runtime (Instruction.allocate target_info.key space) (signer_seeds ∷ [])
    invoke platform.runtime (Instruction.assign target_info.key owner) (signer_seeds ∷ [])
