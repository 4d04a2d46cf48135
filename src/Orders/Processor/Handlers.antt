-- ===== src/Orders/Processor/Handlers.antt =====
-- The handlers of orders/src/processor.rs. `&mut` state is passed on, and written back where the source
-- packs it.
use rome_dex.Base.{
  ℕ, Bool, true, false, not, ◌&&◌, ◌||◌, List, [], ◌∷◌, ◌++◌, ltb, leb, ◌==◌, if◌then◌else◌,
}
use rome_dex.Base.Int.{pos, leb_ℤ}
use rome_dex.Solana.Errors.{ProgramError}
use rome_dex.Solana.Bytes.{le_bytes}
use rome_dex.Solana.Runtime.{
  Pubkey, AccountInfo, AccountMeta, Runtime, Instruction, Action, ◌>>=◌, ◌>>◌, pure, fail, lift,
  require, owner_of, contents_of, invoke,
}
use rome_dex.Orders.State.{
  Order, OrderError, from_error, order_len, max_keeper_fee_bps, max_interval_secs, status_open,
  status_filled, is_open, is_expired, dca_ready, next_tranche_in, effective_min_out, debit,
  split_output,
}
use rome_dex.Orders.Codec.{unpack_order}
use rome_dex.Orders.Processor.Checks.{
  lifted, store_order, load_order, check_dex_program, check_token_program, dex_program_id,
  order_seeds, signer_seeds, seeds_of, escrow_transfer, refund_escrow, close_escrow,
  close_state_account,
}
use rome_dex.Orders.Processor.Instructions.{OrderInstruction, Placement, unpack}

-- The account is an order already: `owner == program_id && unpack(..)?.is_initialized`.
abbrev already_placed : Pubkey → AccountInfo → Action Bool
already_placed program_id order_ai = do
  owner ← owner_of order_ai
  bytes ← contents_of order_ai
  if owner == program_id
      then (do order ← lift (unpack_order bytes); pure order.is_initialized)
      else pure false

abbrev readonly : AccountInfo → AccountMeta
readonly info = record { key = info.key; is_signer = false; is_writable = false }

abbrev writable : AccountInfo → AccountMeta
writable info = record { key = info.key; is_signer = false; is_writable = true }

-- The swap that `execute` asks the exchange for; the owner's account is its destination.
abbrev pub swap_instruction :
    (order_ai input_escrow_ai dst_ata_ai pool_ai pool_authority_ai src_vault_ai dst_vault_ai
      pool_mint_ai fee_account_ai src_mint_ai dst_mint_ai token_program_ai : AccountInfo)
    → ℕ
    → ℕ
    → Instruction
swap_instruction order_ai input_escrow_ai dst_ata_ai pool_ai pool_authority_ai src_vault_ai
      dst_vault_ai pool_mint_ai fee_account_ai src_mint_ai dst_mint_ai token_program_ai swap_in
      eff_min_out =
    Instruction.raw dex_program_id
      (readonly pool_ai
        ∷ readonly pool_authority_ai
        ∷ record { key = order_ai.key; is_signer = true; is_writable = false }
        ∷ writable input_escrow_ai
        ∷ writable src_vault_ai
        ∷ writable dst_vault_ai
        ∷ writable dst_ata_ai
        ∷ writable pool_mint_ai
        ∷ writable fee_account_ai
        ∷ readonly src_mint_ai
        ∷ readonly dst_mint_ai
        ∷ readonly token_program_ai
        ∷ readonly token_program_ai
        ∷ readonly token_program_ai
        ∷ [])
      (1 ∷ (le_bytes 8 swap_in ++ le_bytes 8 eff_min_out))

-- The opening checks of `place` on its parameters.
unfoldable pub check_placement : Placement → Action (Unit {0})
check_placement p = do
  require
      (not (p.amount_in_total == 0 || (p.tranche_in == 0 || ltb p.amount_in_total p.tranche_in)))
      (from_error OrderError.invalid_params)
  require (leb p.keeper_fee_bps max_keeper_fee_bps) (from_error OrderError.fee_too_high)
  require (not (p.interval_secs == 0 && p.min_out_per_tranche == 0))
      (from_error OrderError.invalid_params)
  require (leb p.interval_secs max_interval_secs) (from_error OrderError.invalid_params)

-- The order that `place` writes.
abbrev pub new_order : Placement → Pubkey → Pubkey → Pubkey → Pubkey → Order
new_order p owner pool input_escrow dst_ata = record {
  is_initialized = true;
  bump = p.bump;
  status = status_open;
  owner = owner;
  pool = pool;
  input_escrow = input_escrow;
  output_escrow = 0;
  dst_ata = dst_ata;
  nonce = p.nonce;
  a_to_b = p.a_to_b;
  amount_in_total = p.amount_in_total;
  remaining_in = p.amount_in_total;
  tranche_in = p.tranche_in;
  min_out_per_tranche = p.min_out_per_tranche;
  interval_secs = p.interval_secs;
  last_exec_ts = pos 0;
  expiry_ts = p.expiry_ts;
  keeper_fee_bps = p.keeper_fee_bps;
}

module _ (runtime : Runtime) (program_id : Pubkey) where
  unfoldable pub place : List AccountInfo → Placement → Action (Unit {0})
  place
        (order_ai ∷ owner_ai ∷ input_escrow_ai ∷ owner_src_ai ∷ dst_ata_ai ∷ src_mint_ai
          ∷ dst_mint_ai ∷ pool_ai ∷ payer_ai ∷ token_program_ai ∷ system_program_ai ∷ _)
        p =
      do
        check_token_program runtime token_program_ai.key
        require owner_ai.is_signer ProgramError.missing_required_signature
        require payer_ai.is_signer ProgramError.missing_required_signature
        check_placement p
        now ← lift runtime.unix_timestamp
        require (not (leb_ℤ p.expiry_ts now)) (from_error OrderError.invalid_params)
        let found = runtime.find_program_address (order_seeds owner_ai.key p.nonce) program_id
        require (found.0 == order_ai.key && found.1 == p.bump)
            (from_error OrderError.address_mismatch)
        taken ← already_placed program_id order_ai
        require (not taken) (from_error OrderError.already_initialized)
        escrow_bytes ← contents_of input_escrow_ai
        escrow ← lift (runtime.unpack_token_account escrow_bytes)
        require (escrow.owner == order_ai.key && escrow.mint == src_mint_ai.key)
            (from_error OrderError.invalid_token_account)
        lamports ← lift (runtime.minimum_balance order_len)
        invoke runtime
            (Instruction.create_account payer_ai.key order_ai.key lamports order_len program_id)
            (signer_seeds owner_ai.key p.nonce p.bump ∷ [])
        invoke runtime
            (Instruction.transfer token_program_ai.key owner_src_ai.key input_escrow_ai.key
              owner_ai.key p.amount_in_total)
            []
        store_order order_ai
            (new_order p owner_ai.key pool_ai.key input_escrow_ai.key dst_ata_ai.key)
  place _ p = fail ProgramError.not_enough_account_keys

  unfoldable pub execute : List AccountInfo → Action (Unit {0})
  execute
        (order_ai ∷ input_escrow_ai ∷ dst_ata_ai ∷ keeper_fee_ai ∷ dex_program_ai ∷ pool_ai
          ∷ pool_authority_ai ∷ src_vault_ai ∷ dst_vault_ai ∷ pool_mint_ai ∷ fee_account_ai
          ∷ src_mint_ai ∷ dst_mint_ai ∷ token_program_ai ∷ _) =
      do
        order ← load_order program_id order_ai
        require (is_open order) (from_error OrderError.not_open)
        now ← lift runtime.unix_timestamp
        require (not (is_expired order now)) (from_error OrderError.not_open)
        require (dca_ready order now) (from_error OrderError.interval_not_elapsed)
        check_dex_program dex_program_ai.key
        check_token_program runtime token_program_ai.key
        require
            (pool_ai.key == order.pool
              && (input_escrow_ai.key == order.input_escrow && dst_ata_ai.key == order.dst_ata))
            (from_error OrderError.invalid_token_account)
        dst_bytes ← contents_of dst_ata_ai
        dst ← lift (runtime.unpack_token_account dst_bytes)
        require (dst.owner == order.owner && dst.mint == dst_mint_ai.key)
            (from_error OrderError.invalid_token_account)
        keeper_bytes ← contents_of keeper_fee_ai
        keeper_fee_acct ← lift (runtime.unpack_token_account keeper_bytes)
        require (keeper_fee_acct.mint == src_mint_ai.key)
            (from_error OrderError.invalid_token_account)
        let tranche = next_tranche_in order
        eff_min_out ← lifted (effective_min_out order tranche)
        parts ← lifted (split_output tranche order.keeper_fee_bps)
        debited ← lifted (debit order tranche)
        store_order order_ai (record debited { last_exec_ts = now })
        if ltb 0 parts.0
            then escrow_transfer runtime token_program_ai input_escrow_ai keeper_fee_ai order_ai
                (seeds_of debited) parts.0
            else pure tt
        invoke runtime
            (swap_instruction order_ai input_escrow_ai dst_ata_ai pool_ai pool_authority_ai
              src_vault_ai dst_vault_ai pool_mint_ai fee_account_ai src_mint_ai dst_mint_ai
              token_program_ai parts.1 eff_min_out)
            (seeds_of debited ∷ [])
  execute _ = fail ProgramError.not_enough_account_keys

  unfoldable pub cancel : List AccountInfo → Action (Unit {0})
  cancel (order_ai ∷ owner_ai ∷ input_escrow_ai ∷ owner_src_ai ∷ token_program_ai ∷ _) = do
    order ← load_order program_id order_ai
    check_token_program runtime token_program_ai.key
    require (owner_ai.is_signer && owner_ai.key == order.owner) (from_error OrderError.unauthorized)
    require (is_open order) (from_error OrderError.not_open)
    require (input_escrow_ai.key == order.input_escrow)
        (from_error OrderError.invalid_token_account)
    refund_escrow runtime token_program_ai input_escrow_ai owner_src_ai order_ai order
    close_escrow runtime token_program_ai input_escrow_ai owner_ai order_ai order
    close_state_account order_ai owner_ai
  cancel _ = fail ProgramError.not_enough_account_keys

  unfoldable pub crank_expired : List AccountInfo → Action (Unit {0})
  crank_expired (order_ai ∷ owner_ai ∷ input_escrow_ai ∷ owner_src_ai ∷ token_program_ai ∷ _) = do
    order ← load_order program_id order_ai
    check_token_program runtime token_program_ai.key
    require (is_open order) (from_error OrderError.not_open)
    now ← lift runtime.unix_timestamp
    require (is_expired order now) (from_error OrderError.not_expired)
    require (input_escrow_ai.key == order.input_escrow)
        (from_error OrderError.invalid_token_account)
    require (owner_ai.key == order.owner) (from_error OrderError.invalid_token_account)
    src_program ← owner_of owner_src_ai
    require (src_program == runtime.spl_token_id) (from_error OrderError.invalid_token_account)
    bytes ← contents_of owner_src_ai
    refund ← lift (runtime.unpack_token_account bytes)
    require (refund.owner == order.owner) (from_error OrderError.invalid_token_account)
    refund_escrow runtime token_program_ai input_escrow_ai owner_src_ai order_ai order
    close_escrow runtime token_program_ai input_escrow_ai owner_ai order_ai order
    close_state_account order_ai owner_ai
  crank_expired _ = fail ProgramError.not_enough_account_keys

  unfoldable pub close_filled : List AccountInfo → Action (Unit {0})
  close_filled (order_ai ∷ owner_ai ∷ input_escrow_ai ∷ owner_src_ai ∷ token_program_ai ∷ _) = do
    order ← load_order program_id order_ai
    check_token_program runtime token_program_ai.key
    require (order.status == status_filled && order.remaining_in == 0)
        (from_error OrderError.not_open)
    require (owner_ai.key == order.owner && input_escrow_ai.key == order.input_escrow)
        (from_error OrderError.invalid_token_account)
    src_program ← owner_of owner_src_ai
    require (src_program == runtime.spl_token_id) (from_error OrderError.invalid_token_account)
    bytes ← contents_of owner_src_ai
    refund ← lift (runtime.unpack_token_account bytes)
    require (refund.owner == order.owner) (from_error OrderError.invalid_token_account)
    refund_escrow runtime token_program_ai input_escrow_ai owner_src_ai order_ai order
    close_escrow runtime token_program_ai input_escrow_ai owner_ai order_ai order
    close_state_account order_ai owner_ai
  close_filled _ = fail ProgramError.not_enough_account_keys

  unfoldable pub process : List AccountInfo → List ℕ → Action (Unit {0})
  process accounts input = do
    instruction ← lift (unpack input)
    elim instruction [
      | OrderInstruction.place placement ↦ place accounts placement
      | OrderInstruction.execute ↦ execute accounts
      | OrderInstruction.cancel ↦ cancel accounts
      | OrderInstruction.crank_expired ↦ crank_expired accounts
      | OrderInstruction.close_filled ↦ close_filled accounts
    ]
