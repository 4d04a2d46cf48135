-- ===== src/Pool/Builders.antt =====
-- The instructions that clients build for the token swap program: the functions after `SwapInstruction`
-- in program/src/instruction.rs. `AccountMeta::new` is `writable`, `new_readonly` is `readonly`.
pub mod Admin
pub mod Exchange
use rome_dex.Base.{ℕ, true, false, List, [], ◌∷◌}
use rome_dex.Solana.Runtime.{Pubkey, AccountMeta, Instruction}
use rome_dex.Pool.Instructions
use rome_dex.Pool.Instructions.{pack}

abbrev pub writable : Pubkey → AccountMeta
writable key = record { key = key; is_signer = false; is_writable = true }

abbrev pub readonly : Pubkey → AccountMeta
readonly key = record { key = key; is_signer = false; is_writable = false }

abbrev pub writable_signer : Pubkey → AccountMeta
writable_signer key = record { key = key; is_signer = true; is_writable = true }

abbrev pub readonly_signer : Pubkey → AccountMeta
readonly_signer key = record { key = key; is_signer = true; is_writable = false }

unfoldable pub deposit_all_token_types :
    (program_id token_a_program_id token_b_program_id pool_token_program_id swap_pubkey
      authority_pubkey user_transfer_authority_pubkey deposit_token_a_pubkey deposit_token_b_pubkey
      swap_token_a_pubkey swap_token_b_pubkey pool_mint_pubkey destination_pubkey
      token_a_mint_pubkey token_b_mint_pubkey : Pubkey)
    → ℕ
    → ℕ
    → ℕ
    → Instruction
deposit_all_token_types program_id token_a_program_id token_b_program_id pool_token_program_id
      swap_pubkey authority_pubkey user_transfer_authority_pubkey deposit_token_a_pubkey
      deposit_token_b_pubkey swap_token_a_pubkey swap_token_b_pubkey pool_mint_pubkey
      destination_pubkey token_a_mint_pubkey token_b_mint_pubkey pool_token_amount
      maximum_token_a_amount maximum_token_b_amount =
    Instruction.raw program_id
      (readonly swap_pubkey
        ∷ readonly authority_pubkey
        ∷ readonly_signer user_transfer_authority_pubkey
        ∷ writable deposit_token_a_pubkey
        ∷ writable deposit_token_b_pubkey
        ∷ writable swap_token_a_pubkey
        ∷ writable swap_token_b_pubkey
        ∷ writable pool_mint_pubkey
        ∷ writable destination_pubkey
        ∷ readonly token_a_mint_pubkey
        ∷ readonly token_b_mint_pubkey
        ∷ readonly token_a_program_id
        ∷ readonly token_b_program_id
        ∷ readonly pool_token_program_id
        ∷ [])
      (pack (
        Instructions.deposit_all_token_types pool_token_amount maximum_token_a_amount
          maximum_token_b_amount))

unfoldable pub withdraw_all_token_types :
    (program_id pool_token_program_id token_a_program_id token_b_program_id swap_pubkey
      authority_pubkey user_transfer_authority_pubkey pool_mint_pubkey source_pubkey
      swap_token_a_pubkey swap_token_b_pubkey destination_token_a_pubkey destination_token_b_pubkey
      token_a_mint_pubkey token_b_mint_pubkey : Pubkey)
    → ℕ
    → ℕ
    → ℕ
    → Instruction
withdraw_all_token_types program_id pool_token_program_id token_a_program_id token_b_program_id
      swap_pubkey authority_pubkey user_transfer_authority_pubkey pool_mint_pubkey source_pubkey
      swap_token_a_pubkey swap_token_b_pubkey destination_token_a_pubkey destination_token_b_pubkey
      token_a_mint_pubkey token_b_mint_pubkey pool_token_amount minimum_token_a_amount
      minimum_token_b_amount =
    Instruction.raw program_id
      (readonly swap_pubkey
        ∷ readonly authority_pubkey
        ∷ readonly_signer user_transfer_authority_pubkey
        ∷ writable pool_mint_pubkey
        ∷ writable source_pubkey
        ∷ writable swap_token_a_pubkey
        ∷ writable swap_token_b_pubkey
        ∷ writable destination_token_a_pubkey
        ∷ writable destination_token_b_pubkey
        ∷ readonly token_a_mint_pubkey
        ∷ readonly token_b_mint_pubkey
        ∷ readonly pool_token_program_id
        ∷ readonly token_a_program_id
        ∷ readonly token_b_program_id
        ∷ [])
      (pack (
        Instructions.withdraw_all_token_types pool_token_amount minimum_token_a_amount
          minimum_token_b_amount))

unfoldable pub deposit_single_token_type_exact_amount_in :
    (program_id source_token_program_id pool_token_program_id swap_pubkey authority_pubkey
      user_transfer_authority_pubkey source_token_pubkey swap_token_a_pubkey swap_token_b_pubkey
      pool_mint_pubkey destination_pubkey source_mint_pubkey : Pubkey)
    → ℕ
    → ℕ
    → Instruction
deposit_single_token_type_exact_amount_in program_id source_token_program_id pool_token_program_id
      swap_pubkey authority_pubkey user_transfer_authority_pubkey source_token_pubkey
      swap_token_a_pubkey swap_token_b_pubkey pool_mint_pubkey destination_pubkey source_mint_pubkey
      source_token_amount minimum_pool_token_amount =
    Instruction.raw program_id
      (readonly swap_pubkey
        ∷ readonly authority_pubkey
        ∷ readonly_signer user_transfer_authority_pubkey
        ∷ writable source_token_pubkey
        ∷ writable swap_token_a_pubkey
        ∷ writable swap_token_b_pubkey
        ∷ writable pool_mint_pubkey
        ∷ writable destination_pubkey
        ∷ readonly source_mint_pubkey
        ∷ readonly source_token_program_id
        ∷ readonly pool_token_program_id
        ∷ [])
      (pack (
        Instructions.deposit_single_token_type_exact_amount_in source_token_amount
          minimum_pool_token_amount))

unfoldable pub withdraw_single_token_type_exact_amount_out :
    (program_id pool_token_program_id destination_token_program_id swap_pubkey authority_pubkey
      user_transfer_authority_pubkey pool_mint_pubkey pool_token_source_pubkey swap_token_a_pubkey
      swap_token_b_pubkey destination_pubkey destination_mint_pubkey : Pubkey)
    → ℕ
    → ℕ
    → Instruction
withdraw_single_token_type_exact_amount_out program_id pool_token_program_id
      destination_token_program_id swap_pubkey authority_pubkey user_transfer_authority_pubkey
      pool_mint_pubkey pool_token_source_pubkey swap_token_a_pubkey swap_token_b_pubkey
      destination_pubkey destination_mint_pubkey destination_token_amount
      maximum_pool_token_amount =
    Instruction.raw program_id
      (readonly swap_pubkey
        ∷ readonly authority_pubkey
        ∷ readonly_signer user_transfer_authority_pubkey
        ∷ writable pool_mint_pubkey
        ∷ writable pool_token_source_pubkey
        ∷ writable swap_token_a_pubkey
        ∷ writable swap_token_b_pubkey
        ∷ writable destination_pubkey
        ∷ readonly destination_mint_pubkey
        ∷ readonly pool_token_program_id
        ∷ readonly destination_token_program_id
        ∷ [])
      (pack (
        Instructions.withdraw_single_token_type_exact_amount_out destination_token_amount
          maximum_pool_token_amount))

unfoldable pub swap :
    (program_id source_token_program_id destination_token_program_id pool_token_program_id
      swap_pubkey authority_pubkey user_transfer_authority_pubkey source_pubkey swap_source_pubkey
      swap_destination_pubkey destination_pubkey pool_mint_pubkey source_mint_pubkey
      destination_mint_pubkey : Pubkey)
    → ℕ
    → ℕ
    → Instruction
swap program_id source_token_program_id destination_token_program_id pool_token_program_id
      swap_pubkey authority_pubkey user_transfer_authority_pubkey source_pubkey swap_source_pubkey
      swap_destination_pubkey destination_pubkey pool_mint_pubkey source_mint_pubkey
      destination_mint_pubkey amount_in minimum_amount_out =
    Instruction.raw program_id
      (writable swap_pubkey
        ∷ readonly authority_pubkey
        ∷ readonly_signer user_transfer_authority_pubkey
        ∷ writable source_pubkey
        ∷ writable swap_source_pubkey
        ∷ writable swap_destination_pubkey
        ∷ writable destination_pubkey
        ∷ writable pool_mint_pubkey
        ∷ readonly source_mint_pubkey
        ∷ readonly destination_mint_pubkey
        ∷ readonly source_token_program_id
        ∷ readonly destination_token_program_id
        ∷ readonly pool_token_program_id
        ∷ [])
      (pack (Instructions.swap amount_in minimum_amount_out))

unfoldable pub swap_exact_out :
    (program_id source_token_program_id destination_token_program_id pool_token_program_id
      swap_pubkey authority_pubkey user_transfer_authority_pubkey source_pubkey swap_source_pubkey
      swap_destination_pubkey destination_pubkey pool_mint_pubkey source_mint_pubkey
      destination_mint_pubkey : Pubkey)
    → ℕ
    → ℕ
    → Instruction
swap_exact_out program_id source_token_program_id destination_token_program_id pool_token_program_id
      swap_pubkey authority_pubkey user_transfer_authority_pubkey source_pubkey swap_source_pubkey
      swap_destination_pubkey destination_pubkey pool_mint_pubkey source_mint_pubkey
      destination_mint_pubkey amount_out maximum_amount_in =
    Instruction.raw program_id
      (writable swap_pubkey
        ∷ readonly authority_pubkey
        ∷ readonly_signer user_transfer_authority_pubkey
        ∷ writable source_pubkey
        ∷ writable swap_source_pubkey
        ∷ writable swap_destination_pubkey
        ∷ writable destination_pubkey
        ∷ writable pool_mint_pubkey
        ∷ readonly source_mint_pubkey
        ∷ readonly destination_mint_pubkey
        ∷ readonly source_token_program_id
        ∷ readonly destination_token_program_id
        ∷ readonly pool_token_program_id
        ∷ [])
      (pack (Instructions.swap_exact_out amount_out maximum_amount_in))
