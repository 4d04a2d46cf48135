-- ===== src/Pool/Processor/Admin.antt =====
-- The instructions on the protocol's configuration: `process_initialize_config`,
-- `process_set_treasury`, `process_transfer_admin`, `process_accept_admin` and
-- `process_set_pool_creation` of program/src/processor.rs.
use rome_dex.Base.{ℕ, not, ◌&&◌, ◌||◌, leb, List, [], ◌∷◌, ◌==◌}
use rome_dex.Solana.Errors.{missing_required_signature, not_enough_account_keys}
use rome_dex.Solana.Runtime.{Pubkey, AccountInfo, Action, ◌>>=◌, ◌>>◌, fail, require, owner_of}
use rome_dex.Curve.Calculator
use rome_dex.Pool.Platform.{Platform}
use rome_dex.Pool.State.{
  from_error, protocol_config_len, config_version, default_key, mode_permissionless,
}
use rome_dex.Pool.Config.{config_seed, find_address, load_config, store_config, require_admin}
use rome_dex.Pool.Processor.Tokens.{create_pda_account}
use rome_dex.Pool.Processor.Checks.{verify_program_data}

module _ (platform : Platform) (program_id : Pubkey) where
  unfoldable pub initialize_config : Pubkey → Pubkey → ℕ → List AccountInfo → Action (Unit {0})
  initialize_config admin treasury mode
        (payer_info ∷ upgrade_authority_info ∷ config_info ∷ programdata_info ∷ system_program_info
          ∷ _) =
      do
        require payer_info.is_signer missing_required_signature
        let found = find_address platform program_id
        require (config_info.key == found.0) (from_error Calculator.invalid_program_address)
        owner ← owner_of config_info
        require (not (owner == program_id)) (from_error Calculator.config_already_initialized)
        require upgrade_authority_info.is_signer missing_required_signature
        parsed_authority ← verify_program_data platform program_id programdata_info
        require (upgrade_authority_info.key == parsed_authority)
            (from_error Calculator.invalid_config_authority)
        require (not (admin == default_key || treasury == default_key))
            (from_error Calculator.invalid_config_value)
        require (leb mode mode_permissionless) (from_error Calculator.invalid_pool_creation_mode)
        create_pda_account platform payer_info config_info (config_seed ∷ (found.1 ∷ []) ∷ [])
            protocol_config_len program_id
        store_config platform config_info (record {
          version = config_version;
          admin = admin;
          pending_admin = default_key;
          treasury = treasury;
          pool_creation_mode = mode;
        })
  initialize_config admin treasury mode _ = fail not_enough_account_keys

  unfoldable pub set_treasury : Pubkey → List AccountInfo → Action (Unit {0})
  set_treasury treasury (config_info ∷ admin_info ∷ _) = do
    config ← load_config platform program_id config_info Calculator.config_not_initialized
    require_admin admin_info config
    require (not (treasury == default_key)) (from_error Calculator.invalid_config_value)
    store_config platform config_info (record config { treasury = treasury })
  set_treasury treasury _ = fail not_enough_account_keys

  unfoldable pub transfer_admin : Pubkey → List AccountInfo → Action (Unit {0})
  transfer_admin pending_admin (config_info ∷ admin_info ∷ _) = do
    config ← load_config platform program_id config_info Calculator.config_not_initialized
    require_admin admin_info config
    store_config platform config_info (record config { pending_admin = pending_admin })
  transfer_admin pending_admin _ = fail not_enough_account_keys

  unfoldable pub accept_admin : List AccountInfo → Action (Unit {0})
  accept_admin (config_info ∷ pending_admin_info ∷ _) = do
    config ← load_config platform program_id config_info Calculator.config_not_initialized
    require pending_admin_info.is_signer missing_required_signature
    require
        (not (config.pending_admin == default_key)
          && pending_admin_info.key == config.pending_admin)
        (from_error Calculator.not_pending_admin)
    store_config platform config_info
        (record config { admin = config.pending_admin; pending_admin = default_key })
  accept_admin _ = fail not_enough_account_keys

  unfoldable pub set_pool_creation : ℕ → List AccountInfo → Action (Unit {0})
  set_pool_creation mode (config_info ∷ admin_info ∷ _) = do
    config ← load_config platform program_id config_info Calculator.config_not_initialized
    require_admin admin_info config
    require (leb mode mode_permissionless) (from_error Calculator.invalid_pool_creation_mode)
    store_config platform config_info (record config { pool_creation_mode = mode })
  set_pool_creation mode _ = fail not_enough_account_keys
