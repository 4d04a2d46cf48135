-- ===== src/Pool/Builders/Admin.antt =====
-- The instructions that the admin and the collector of fees build: program/src/instruction.rs.
use rome_dex.Base.{ℕ, [], ◌∷◌}
use rome_dex.Solana.Runtime.{Pubkey, Instruction}
use rome_dex.Pool.Instructions
use rome_dex.Pool.Instructions.{pack}
use rome_dex.Pool.Builders.{writable, readonly, writable_signer, readonly_signer}

unfoldable pub initialize_config :
    (system_program_id program_id payer_pubkey upgrade_authority_pubkey config_pubkey
      programdata_pubkey : Pubkey)
    → ℕ
    → ℕ
    → ℕ
    → Instruction
initialize_config system_program_id program_id payer_pubkey upgrade_authority_pubkey config_pubkey
      programdata_pubkey admin treasury pool_creation_mode =
    Instruction.raw program_id
      (writable_signer payer_pubkey
        ∷ readonly_signer upgrade_authority_pubkey
        ∷ writable config_pubkey
        ∷ readonly programdata_pubkey
        ∷ readonly system_program_id
        ∷ [])
      (pack (Instructions.initialize_config admin treasury pool_creation_mode))

unfoldable pub set_treasury : (program_id config_pubkey admin_pubkey : Pubkey) → ℕ → Instruction
set_treasury program_id config_pubkey admin_pubkey treasury =
    Instruction.raw program_id (writable config_pubkey ∷ readonly_signer admin_pubkey ∷ [])
      (pack (Instructions.set_treasury treasury))

unfoldable pub transfer_admin : (program_id config_pubkey admin_pubkey : Pubkey) → ℕ → Instruction
transfer_admin program_id config_pubkey admin_pubkey pending_admin =
    Instruction.raw program_id (writable config_pubkey ∷ readonly_signer admin_pubkey ∷ [])
      (pack (Instructions.transfer_admin pending_admin))

unfoldable pub accept_admin : (program_id config_pubkey pending_admin_pubkey : Pubkey) → Instruction
accept_admin program_id config_pubkey pending_admin_pubkey =
    Instruction.raw program_id (writable config_pubkey ∷ readonly_signer pending_admin_pubkey ∷ [])
      (pack Instructions.accept_admin)

unfoldable pub collect_protocol_fees :
    (program_id pool_pubkey pool_authority_pubkey vault_a_pubkey vault_b_pubkey dest_a_pubkey
      dest_b_pubkey mint_a_pubkey mint_b_pubkey config_pubkey token_program_a_pubkey
      token_program_b_pubkey : Pubkey)
    → Instruction
collect_protocol_fees program_id pool_pubkey pool_authority_pubkey vault_a_pubkey vault_b_pubkey
      dest_a_pubkey dest_b_pubkey mint_a_pubkey mint_b_pubkey config_pubkey token_program_a_pubkey
      token_program_b_pubkey =
    Instruction.raw program_id
      (writable pool_pubkey
        ∷ readonly pool_authority_pubkey
        ∷ writable vault_a_pubkey
        ∷ writable vault_b_pubkey
        ∷ writable dest_a_pubkey
        ∷ writable dest_b_pubkey
        ∷ readonly mint_a_pubkey
        ∷ readonly mint_b_pubkey
        ∷ readonly config_pubkey
        ∷ readonly token_program_a_pubkey
        ∷ readonly token_program_b_pubkey
        ∷ [])
      (pack Instructions.collect_protocol_fees)

unfoldable pub set_pool_creation :
    (program_id config_pubkey admin_pubkey : Pubkey) → ℕ → Instruction
set_pool_creation program_id config_pubkey admin_pubkey mode =
    Instruction.raw program_id (writable config_pubkey ∷ readonly_signer admin_pubkey ∷ [])
      (pack (Instructions.set_pool_creation mode))
