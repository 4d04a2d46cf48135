-- ===== src/Pool/Processor/Create.antt =====
-- `init_pool_state` and `process_create_pool` of program/src/processor.rs.
use rome_dex.Base.{ℕ, true, not, ◌||◌, Option, none, some, List, [], ◌∷◌, ◌==◌, ok_or}
use rome_dex.Solana.Errors.{missing_required_signature, not_enough_account_keys}
use rome_dex.Solana.Bytes.{le_bytes}
use rome_dex.Solana.Runtime.{
  Pubkey, to_bytes, AccountInfo, Instruction, Seeds, Action, ◌>>=◌, ◌>>◌, pure, fail, lift, require,
  contents_of, write, invoke,
}
use rome_dex.Curve.Calculator
use rome_dex.Curve.Calculator.{SwapError}
use rome_dex.Curve.Fees
use rome_dex.Curve.Fees.{Fees}
use rome_dex.Curve.SwapCurve.Dispatch
use rome_dex.Pool.Platform.{Platform, Mint, TokenAccount}
use rome_dex.Pool.State.{SwapCurve, SwapV2, is_permissionless, latest_len, from_error, lifted}
use rome_dex.Pool.Version
use rome_dex.Pool.Config.{load_config}
use rome_dex.Pool.Constraints.{SwapConstraints, validate_curve, validate_fees}
use rome_dex.Pool.FeeTier.{check_fee_bps}
use rome_dex.Pool.Processor.Tokens.{
  to_u64, unpack_token_account, unpack_mint, token_mint_to, create_pda_account,
}

-- `if option.is_some() { return Err(e) }`
abbrev pub require_none : Option Pubkey → SwapError → Action (Unit {0})
require_none none e = pure tt
require_none (some key) e = fail (from_error e)

-- An extension that is there, and holds an authority.
abbrev pub close_authority_of : Mint → Option Pubkey
close_authority_of mint = elim mint.mint_close_authority [ none ↦ none | some key ↦ key ]

abbrev pub mints_for : Mint → Pubkey → Action (Unit {0})
mints_for mint authority = elim mint.mint_authority [
  | none ↦ fail (from_error Calculator.invalid_owner)
  | some key ↦ require (authority == key) (from_error Calculator.invalid_owner)
]

-- The checks of the vaults, the destination and the pool's mint.
unfoldable pub check_new_pool :
    SwapCurve → Pubkey → TokenAccount → TokenAccount → TokenAccount → Mint → Action (Unit {0})
check_new_pool swap_curve authority token_a token_b destination pool_mint = do
  require (authority == token_a.owner) (from_error Calculator.invalid_owner)
  require (authority == token_b.owner) (from_error Calculator.invalid_owner)
  require (not (authority == destination.owner)) (from_error Calculator.invalid_output_owner)
  mints_for pool_mint authority
  require (not (token_a.mint == token_b.mint)) (from_error Calculator.repeated_mint)
  lifted (Dispatch.validate_supply swap_curve.calculator token_a.amount token_b.amount)
  require_none token_a.delegate Calculator.invalid_delegate
  require_none token_b.delegate Calculator.invalid_delegate
  require_none token_a.close_authority Calculator.invalid_close_authority
  require_none token_b.close_authority Calculator.invalid_close_authority
  require (pool_mint.supply == 0) (from_error Calculator.invalid_supply)
  require_none pool_mint.freeze_authority Calculator.invalid_freeze_authority

unfoldable pub check_constraints : Option SwapConstraints → SwapCurve → Fees → Action (Unit {0})
check_constraints none swap_curve fees = pure tt
check_constraints (some constraints) swap_curve fees = do
  lifted (validate_curve constraints swap_curve)
  lifted (validate_fees constraints fees)

-- The bytes of "cp_pool", "cp_lp" and "cp_dest".
abbrev pub pool_seed : List ℕ
pool_seed = 99 ∷ 112 ∷ 95 ∷ 112 ∷ 111 ∷ 111 ∷ 108 ∷ []

abbrev pub lp_seed : List ℕ
lp_seed = 99 ∷ 112 ∷ 95 ∷ 108 ∷ 112 ∷ []

abbrev pub dest_seed : List ℕ
dest_seed = 99 ∷ 112 ∷ 95 ∷ 100 ∷ 101 ∷ 115 ∷ 116 ∷ []

abbrev pub pool_signer_seeds : AccountInfo → AccountInfo → ℕ → ℕ → Seeds
pool_signer_seeds mint_a_info mint_b_info fee_bps pool_bump =
    pool_seed
    ∷ to_bytes mint_a_info.key
    ∷ to_bytes mint_b_info.key
    ∷ le_bytes 2 fee_bps
    ∷ (pool_bump ∷ [])
    ∷ []

abbrev pub lp_signer_seeds : AccountInfo → ℕ → Seeds
lp_signer_seeds pool_info lp_bump = lp_seed ∷ to_bytes pool_info.key ∷ (lp_bump ∷ []) ∷ []

module _ (platform : Platform) (program_id : Pubkey) where
  -- `create_program_address(seeds)` must give the account that was passed.
  unfoldable pub require_derived : Seeds → AccountInfo → Action (Unit {0})
  require_derived seeds info = do
    expected ← lifted (
        ok_or (platform.runtime.create_program_address seeds program_id)
          Calculator.invalid_program_address)
    require (expected == info.key) (from_error Calculator.invalid_program_address)

  -- `SwapVersion::is_initialized`
  unfoldable pub require_new : AccountInfo → Action (Unit {0})
  require_new swap_info = do
    bytes ← contents_of swap_info
    taken ← lift (Version.is_initialized platform bytes)
    require (not taken) (from_error Calculator.already_in_use)

  unfoldable pub store_version : AccountInfo → SwapV2 → Action (Unit {0})
  store_version swap_info pool = do
    old ← contents_of swap_info
    bytes ← lift (Version.pack_version platform pool old)
    write swap_info bytes

  unfoldable pub init_pool_state :
      Fees → SwapCurve → List AccountInfo → Option SwapConstraints → Action (Unit {0})
  init_pool_state fees swap_curve
        (swap_info ∷ authority_info ∷ token_a_info ∷ token_b_info ∷ pool_mint_info
          ∷ destination_info ∷ pool_token_program_info ∷ _)
        swap_constraints =
      do
        require_new swap_info
        let found = platform.runtime.find_program_address (to_bytes swap_info.key ∷ []) program_id
        require (authority_info.key == found.0) (from_error Calculator.invalid_program_address)
        token_a ← unpack_token_account platform token_a_info pool_token_program_info.key
        token_b ← unpack_token_account platform token_b_info pool_token_program_info.key
        destination ← unpack_token_account platform destination_info pool_token_program_info.key
        pool_mint ← unpack_mint platform pool_mint_info pool_token_program_info.key
        require_none (close_authority_of pool_mint) Calculator.invalid_close_authority
        check_new_pool swap_curve authority_info.key token_a token_b destination pool_mint
        check_constraints swap_constraints swap_curve fees
        lifted (Fees.validate fees)
        lifted (Dispatch.validate swap_curve.calculator)
        initial_amount ← lifted (to_u64 Dispatch.new_pool_supply)
        token_mint_to platform swap_info.key pool_token_program_info pool_mint_info destination_info
            authority_info found.1 initial_amount
        store_version swap_info (record {
          is_initialized = true;
          bump_seed = found.1;
          token_program_id = pool_token_program_info.key;
          token_a = token_a_info.key;
          token_b = token_b_info.key;
          pool_mint = pool_mint_info.key;
          token_a_mint = token_a.mint;
          token_b_mint = token_b.mint;
          fees = fees;
          swap_curve = swap_curve;
          protocol_fees_a = 0;
          protocol_fees_b = 0;
        })
  init_pool_state fees swap_curve _ swap_constraints = fail not_enough_account_keys

  -- The policy gate: anyone, or the admin as the payer.
  unfoldable pub require_policy : AccountInfo → AccountInfo → Action (Unit {0})
  require_policy payer_info config_info = do
    config ← load_config platform program_id config_info Calculator.pool_creation_not_configured
    require (is_permissionless config || payer_info.key == config.admin)
        (from_error Calculator.pool_creation_restricted)

  -- The LP mint and the creator's account for it.
  unfoldable pub create_lp_accounts :
      ℕ
      → AccountInfo
      → AccountInfo
      → AccountInfo
      → AccountInfo
      → AccountInfo
      → AccountInfo
      → Action (Unit {0})
  create_lp_accounts lp_bump payer_info pool_info authority_info lp_mint_info destination_info
        pool_token_program_info =
      do
        require_derived (lp_signer_seeds pool_info lp_bump) lp_mint_info
        create_pda_account platform payer_info lp_mint_info (lp_signer_seeds pool_info lp_bump)
            platform.mint_len pool_token_program_info.key
        invoke platform.runtime
            (Instruction.initialize_mint2 pool_token_program_info.key lp_mint_info.key
              authority_info.key none 6)
            []
        let expected_dest =
            platform.runtime.find_program_address (dest_seed ∷ to_bytes pool_info.key ∷ [])
              program_id
        require (expected_dest.0 == destination_info.key)
            (from_error Calculator.invalid_program_address)
        create_pda_account platform payer_info destination_info
            (dest_seed ∷ to_bytes pool_info.key ∷ (expected_dest.1 ∷ []) ∷ []) platform.account_len
            pool_token_program_info.key
        invoke platform.runtime
            (Instruction.initialize_account3 pool_token_program_info.key destination_info.key
              lp_mint_info.key payer_info.key)
            []

  unfoldable pub create_pool :
      Fees → SwapCurve → ℕ → ℕ → ℕ → List AccountInfo → Option SwapConstraints → Action (Unit {0})
  create_pool fees swap_curve fee_bps pool_bump lp_bump
        (payer_info ∷ pool_info ∷ authority_info ∷ mint_a_info ∷ mint_b_info ∷ vault_a_info
          ∷ vault_b_info ∷ lp_mint_info ∷ destination_info ∷ pool_token_program_info
          ∷ system_program_info ∷ config_info ∷ _)
        swap_constraints =
      do
        require payer_info.is_signer missing_required_signature
        require_policy payer_info config_info
        require_new pool_info
        lifted (check_fee_bps fees fee_bps)
        require_derived (pool_signer_seeds mint_a_info mint_b_info fee_bps pool_bump) pool_info
        let found = platform.runtime.find_program_address (to_bytes pool_info.key ∷ []) program_id
        require (found.0 == authority_info.key) (from_error Calculator.invalid_program_address)
        create_pda_account platform payer_info pool_info
            (pool_signer_seeds mint_a_info mint_b_info fee_bps pool_bump) latest_len program_id
        create_lp_accounts lp_bump payer_info pool_info authority_info lp_mint_info destination_info
            pool_token_program_info
        init_pool_state fees swap_curve
            (pool_info ∷ authority_info ∷ vault_a_info ∷ vault_b_info ∷ lp_mint_info
              ∷ destination_info ∷ pool_token_program_info ∷ [])
            swap_constraints
  create_pool fees swap_curve fee_bps pool_bump lp_bump _ swap_constraints =
      fail not_enough_account_keys
