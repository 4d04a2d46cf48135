-- ===== src/Pool/Builders/Exchange.antt =====
-- A swap that a client builds with program/src/instruction.rs, processed by program/src/processor.rs.
use rome_dex.Base.{ℕ, ◌<◌, ◌^◌, ◌≡◌, ap, true, false, Option, List, [], ◌∷◌}
use rome_dex.Solana.Errors.{ProgramError}
use rome_dex.Solana.Runtime.{
  Pubkey, AccountInfo, AccountMeta, Store, Action, Instruction, ◌>>=◌, lift, fail,
}
use rome_dex.Pool.Platform.{Platform, PackLaws}
use rome_dex.Pool.Constraints.{SwapConstraints}
use rome_dex.Pool.Instructions
use rome_dex.Pool.Instructions.{SwapInstruction, pack}
use rome_dex.Pool.Instructions.RoundTrip.{unpack-pack}
use rome_dex.Pool.Processor.Swap
use rome_dex.Pool.Processor.Entry.{dispatch, process_with_constraints}
use rome_dex.Pool.Builders

-- The account that a key of an instruction loads.
abbrev pub info : Pubkey → AccountInfo
info key = record { key = key; is_signer = false }

abbrev pub signer : Pubkey → AccountInfo
signer key = record { key = key; is_signer = true }

abbrev pub loaded : List AccountMeta → List AccountInfo
loaded [] = []
loaded (meta ∷ rest) = (record { key = meta.key; is_signer = meta.is_signer }) ∷ loaded rest

-- The accounts of a swap by their roles, in the order in which the handler takes them.
abbrev pub swap_accounts :
    (source_token_program_id destination_token_program_id pool_token_program_id swap_pubkey
      authority_pubkey user_transfer_authority_pubkey source_pubkey swap_source_pubkey
      swap_destination_pubkey destination_pubkey pool_mint_pubkey source_mint_pubkey
      destination_mint_pubkey : Pubkey)
    → List AccountInfo
swap_accounts source_token_program_id destination_token_program_id pool_token_program_id swap_pubkey
      authority_pubkey user_transfer_authority_pubkey source_pubkey swap_source_pubkey
      swap_destination_pubkey destination_pubkey pool_mint_pubkey source_mint_pubkey
      destination_mint_pubkey =
    info swap_pubkey
    ∷ info authority_pubkey
    ∷ signer user_transfer_authority_pubkey
    ∷ info source_pubkey
    ∷ info swap_source_pubkey
    ∷ info swap_destination_pubkey
    ∷ info destination_pubkey
    ∷ info pool_mint_pubkey
    ∷ info source_mint_pubkey
    ∷ info destination_mint_pubkey
    ∷ info source_token_program_id
    ∷ info destination_token_program_id
    ∷ info pool_token_program_id
    ∷ []

module _ (platform : Platform) (constraints : Option SwapConstraints) where
  -- The program processes an instruction that was sent to it.
  unfoldable pub receives : Instruction → Action (Unit {0})
  receives (Instruction.raw program accounts input) =
      process_with_constraints platform program (loaded accounts) input constraints
  receives _ = fail ProgramError.incorrect_program_id

module _ (platform : Platform) (laws : PackLaws platform) (program_id : Pubkey)
    (constraints : Option SwapConstraints) where
  -- The swaps that a client builds, in both modes, run the handler of their mode with the client's
  -- amounts, on the client's accounts in the handler's roles, the user's authority as the signer.
  -- Conditions: the amounts fit a u64, and `Pack` keeps `PackLaws`.
  pub swaps-receives :
      (source_token_program_id destination_token_program_id pool_token_program_id swap_pubkey
        authority_pubkey user_transfer_authority_pubkey source_pubkey swap_source_pubkey
        swap_destination_pubkey destination_pubkey pool_mint_pubkey source_mint_pubkey
        destination_mint_pubkey : Pubkey)
      (amount limit : ℕ) (s : Store)
      → amount < 256 ^ 8
      → limit < 256 ^ 8
      → (receives platform constraints
            (Builders.swap program_id source_token_program_id destination_token_program_id
              pool_token_program_id swap_pubkey authority_pubkey user_transfer_authority_pubkey
              source_pubkey swap_source_pubkey swap_destination_pubkey destination_pubkey
              pool_mint_pubkey source_mint_pubkey destination_mint_pubkey amount limit)
            s
          ≡ Swap.swap platform program_id amount limit
              (swap_accounts source_token_program_id destination_token_program_id
                pool_token_program_id swap_pubkey authority_pubkey user_transfer_authority_pubkey
                source_pubkey swap_source_pubkey swap_destination_pubkey destination_pubkey
                pool_mint_pubkey source_mint_pubkey destination_mint_pubkey)
              s)
        × (receives platform constraints
              (Builders.swap_exact_out program_id source_token_program_id
                destination_token_program_id pool_token_program_id swap_pubkey authority_pubkey
                user_transfer_authority_pubkey source_pubkey swap_source_pubkey
                swap_destination_pubkey destination_pubkey pool_mint_pubkey source_mint_pubkey
                destination_mint_pubkey amount limit)
              s
            ≡ Swap.swap_exact_out platform program_id amount limit
                (swap_accounts source_token_program_id destination_token_program_id
                  pool_token_program_id swap_pubkey authority_pubkey user_transfer_authority_pubkey
                  source_pubkey swap_source_pubkey swap_destination_pubkey destination_pubkey
                  pool_mint_pubkey source_mint_pubkey destination_mint_pubkey)
                s)
  unfolding receives process_with_constraints dispatch Builders.swap Builders.swap_exact_out
      Swap.swap ◌>>=◌ lift
  swaps-receives source_token_program_id destination_token_program_id pool_token_program_id
        swap_pubkey authority_pubkey user_transfer_authority_pubkey source_pubkey swap_source_pubkey
        swap_destination_pubkey destination_pubkey pool_mint_pubkey source_mint_pubkey
        destination_mint_pubkey amount limit s h k =
      let roles =
        swap_accounts source_token_program_id destination_token_program_id pool_token_program_id
          swap_pubkey authority_pubkey user_transfer_authority_pubkey source_pubkey
          swap_source_pubkey swap_destination_pubkey destination_pubkey pool_mint_pubkey
          source_mint_pubkey destination_mint_pubkey in
      (
        ap (λ i. (lift i >>= (λ x. dispatch platform program_id x roles constraints)) s)
            (unpack-pack platform laws (Instructions.swap amount limit) (h, k)),
        ap (λ i. (lift i >>= (λ x. dispatch platform program_id x roles constraints)) s)
            (unpack-pack platform laws (Instructions.swap_exact_out amount limit) (h, k)),
      )
