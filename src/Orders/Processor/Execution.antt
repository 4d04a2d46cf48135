-- ===== src/Orders/Processor/Execution.antt =====
-- What `execute` has done when it succeeds.
use rome_dex.Base.{
  true, false, ℕ, ◌≡◌, ltb, if◌then◌else◌, ◌⊎◌, inl, inr, List, [], ◌∷◌, ◌++◌, ok, ap, sym, ◌∙◌,
}
use rome_dex.Base.Int.{ℤ}
use rome_dex.Solana.Runtime.{
  Pubkey, to_bytes, Seeds, AccountInfo, Store, Runtime, RuntimeLaws, Instruction, ◌>>=◌, ◌>>◌, pure,
  invoke,
}
use rome_dex.Solana.Steps.{check_step, invoked, update_self}
use rome_dex.Orders.State.{Order, next_tranche_in, effective_min_out, split_output, debit}
use rome_dex.Orders.Codec.{pack_order}
use rome_dex.Solana.Bytes.{le_bytes}
use rome_dex.Orders.Processor.Checks.{
  dex_program_id, lifted, store_order, escrow_transfer, seeds_of,
}
use rome_dex.Orders.Processor.Loads.{LoadsOrder, lifted_step, store_order_step, fee_step}
use rome_dex.Orders.Processor.Pinning.{IsDue, Pinned, opening_step, accounts_step}
use rome_dex.Orders.Processor.Handlers.{execute, swap_instruction}

-- The numbers of one execution, and the order after it.
pub record IsTranche (order debited : Order) (floor fee swap_in : ℕ) : Type 0 where
  pub floored : effective_min_out order (next_tranche_in order) ≡ ok floor
  pub split : split_output (next_tranche_in order) order.keeper_fee_bps ≡ ok (fee, swap_in)
  pub debited_by : debit order (next_tranche_in order) ≡ ok debited

-- The seeds of the order's address: "order", its owner, its nonce and its bump.
abbrev pub order_signer : Order → Seeds
order_signer order =
    (111 ∷ 114 ∷ 100 ∷ 101 ∷ 114 ∷ [])
    ∷ to_bytes order.owner
    ∷ le_bytes 8 order.nonce
    ∷ (order.bump ∷ [])
    ∷ []

module _ (runtime : Runtime) (program_id : Pubkey) (laws : RuntimeLaws runtime program_id)
    (order_ai input_escrow_ai dst_ata_ai keeper_fee_ai dex_program_ai pool_ai pool_authority_ai
      src_vault_ai dst_vault_ai pool_mint_ai fee_account_ai src_mint_ai dst_mint_ai
      token_program_ai : AccountInfo) where
  -- The calls of an execution, over a store that has the debited order already.
  pub record Called (debited : Order) (fee swap_in floor : ℕ) (s1 s' : Store) : Type 0 where
    pub paid_store : Store
    pub paid :
        ((fee ≡ 0) × (paid_store ≡ s1))
        ⊎ (runtime.invoke_signed
              (Instruction.transfer token_program_ai.key input_escrow_ai.key keeper_fee_ai.key
                order_ai.key fee)
              (order_signer debited ∷ [])
              s1
            ≡ ok paid_store)
    -- The exchange is sent its own tag, the rest of the tranche and the floor; the order signs, the escrow
    -- pays, and the output goes to the order's account.
    pub swapped :
        runtime.invoke_signed
          (Instruction.raw dex_program_id
            (record { key = pool_ai.key; is_signer = false; is_writable = false }
              ∷ record { key = pool_authority_ai.key; is_signer = false; is_writable = false }
              ∷ record { key = order_ai.key; is_signer = true; is_writable = false }
              ∷ record { key = input_escrow_ai.key; is_signer = false; is_writable = true }
              ∷ record { key = src_vault_ai.key; is_signer = false; is_writable = true }
              ∷ record { key = dst_vault_ai.key; is_signer = false; is_writable = true }
              ∷ record { key = dst_ata_ai.key; is_signer = false; is_writable = true }
              ∷ record { key = pool_mint_ai.key; is_signer = false; is_writable = true }
              ∷ record { key = fee_account_ai.key; is_signer = false; is_writable = true }
              ∷ record { key = src_mint_ai.key; is_signer = false; is_writable = false }
              ∷ record { key = dst_mint_ai.key; is_signer = false; is_writable = false }
              ∷ record { key = token_program_ai.key; is_signer = false; is_writable = false }
              ∷ record { key = token_program_ai.key; is_signer = false; is_writable = false }
              ∷ record { key = token_program_ai.key; is_signer = false; is_writable = false }
              ∷ [])
            (1 ∷ (le_bytes 8 swap_in ++ le_bytes 8 floor)))
          (order_signer debited ∷ [])
          paid_store
        ≡ ok s'

  calls_keep :
      (debited : Order) (fee swap_in floor : ℕ) (s1 s' : Store)
      → Called debited fee swap_in floor s1 s'
      → (s1 order_ai.key).owner ≡ program_id
      → (s' order_ai.key).contents ≡ (s1 order_ai.key).contents
  calls_keep debited fee swap_in floor s1 s' c own =
      let (own', kept) : ((c.paid_store order_ai.key).owner ≡ program_id)
          × ((c.paid_store order_ai.key).contents ≡ (s1 order_ai.key).contents) =
        elim c.paid [
          | inl (_, same) ↦ (
            ap (λ st. (st order_ai.key).owner) same ∙ own,
            ap (λ st. (st order_ai.key).contents) same,
          )
          | inr moved ↦ laws.keeps_own _ _ s1 c.paid_store order_ai.key moved own
        ] in
      (laws.keeps_own _ _ c.paid_store s' order_ai.key c.swapped own').1 ∙ kept

  calls_step :
      (stamped debited : Order) (fee swap_in floor : ℕ) (s : Store) {r : Unit {0} × Store}
      → (s order_ai.key).owner ≡ program_id
      → (store_order order_ai stamped
            >> ((if ltb 0 fee
                  then escrow_transfer runtime token_program_ai input_escrow_ai keeper_fee_ai
                      order_ai
                      (seeds_of debited)
                      fee
                  else pure tt)
                >> invoke runtime
                    (swap_instruction order_ai input_escrow_ai dst_ata_ai pool_ai pool_authority_ai
                      src_vault_ai dst_vault_ai pool_mint_ai fee_account_ai src_mint_ai dst_mint_ai
                      token_program_ai swap_in floor)
                    (seeds_of debited ∷ [])))
          s
        ≡ ok r
      → (s1 : Store) × Called debited fee swap_in floor s1 r.1
        × (pack_order stamped (s order_ai.key).contents ≡ ok (s1 order_ai.key).contents)
        × (pack_order stamped (s order_ai.key).contents ≡ ok (r.1 order_ai.key).contents)
  calls_step stamped debited fee swap_in floor s {r} own h =
      let (p16, e16, h16) = check_step _ _ s h in
      let (bytes, packed, s16) = store_order_step order_ai stamped s e16 in
      let (p17, e17, h17) = check_step _ _ p16.1 h16 in
      let stored = ap (λ st. st order_ai.key) s16 ∙ update_self s order_ai.key _ in
      let called : Called debited fee swap_in floor p16.1 r.1 = record {
        paid_store = p17.1;
        paid =
            fee_step runtime token_program_ai input_escrow_ai keeper_fee_ai order_ai
              (seeds_of debited) fee p16.1 e17;
        swapped = invoked runtime _ _ p17.1 h17;
      } in
      let written = packed ∙ ap (λ a. ok a.contents) (sym stored) in
      let kept =
        calls_keep debited fee swap_in floor p16.1 r.1 called (ap (λ a. a.owner) stored ∙ own) in
      (p16.1, called, written, written ∙ ap ok (sym kept))

  -- The end of an execution: the debit is stored, and then the calls are made.
  pub end_step :
      (order : Order) (now : ℤ) (s : Store) {r : Unit {0} × Store}
      → (s order_ai.key).owner ≡ program_id
      → (lifted (effective_min_out order (next_tranche_in order)) >>= λ floor.
            lifted (split_output (next_tranche_in order) order.keeper_fee_bps) >>= λ parts.
            lifted (debit order (next_tranche_in order)) >>= λ debited.
            store_order order_ai (record debited { last_exec_ts = now })
            >> ((if ltb 0 parts.0
                  then escrow_transfer runtime token_program_ai input_escrow_ai keeper_fee_ai
                      order_ai
                      (seeds_of debited)
                      parts.0
                  else pure tt)
                >> invoke runtime
                    (swap_instruction order_ai input_escrow_ai dst_ata_ai pool_ai pool_authority_ai
                      src_vault_ai dst_vault_ai pool_mint_ai fee_account_ai src_mint_ai dst_mint_ai
                      token_program_ai parts.1 floor)
                    (seeds_of debited ∷ [])))
          s
        ≡ ok r
      → (debited : Order) × (floor fee swap_in : ℕ) × (s1 : Store) × IsTranche order debited floor
          fee swap_in
        × Called debited fee swap_in floor s1 r.1
        × (pack_order (record debited { last_exec_ts = now }) (s order_ai.key).contents
            ≡ ok (s1 order_ai.key).contents)
        × (pack_order (record debited { last_exec_ts = now }) (s order_ai.key).contents
            ≡ ok (r.1 order_ai.key).contents)
  end_step order now s own h =
      let (floor, floored, h13) = lifted_step _ _ s h in
      let (parts, split, h14) = lifted_step _ _ s h13 in
      let (debited, debited_by, h15) = lifted_step _ _ s h14 in
      let (s1, called, written, kept) =
        calls_step (record debited { last_exec_ts = now }) debited parts.0 parts.1 floor s own
          h15 in
      (
        debited,
        floor,
        parts.0,
        parts.1,
        s1,
        record { floored = floored; split = split; debited_by = debited_by },
        called,
        written,
        kept,
      )

  abbrev pub Executed : Store → Store → Type 0
  Executed s s' =
      (order debited : Order) × (now : ℤ) × (floor fee swap_in : ℕ) × (s1 : Store) × LoadsOrder
        program_id order_ai s order
      × IsDue runtime order now
      × Pinned runtime dex_program_ai token_program_ai pool_ai input_escrow_ai dst_ata_ai
          dst_mint_ai keeper_fee_ai src_mint_ai s order
      × IsTranche order debited floor fee swap_in
      × Called debited fee swap_in floor s1 s'
      × (pack_order (record debited { last_exec_ts = now }) (s order_ai.key).contents
          ≡ ok (s1 order_ai.key).contents)
      × (pack_order (record debited { last_exec_ts = now }) (s order_ai.key).contents
          ≡ ok (s' order_ai.key).contents)

  -- An execution that succeeded, whoever asked for it: the order is the program's own and due; the
  -- accounts are the order's; one tranche was debited, and the order without it, stamped with the time,
  -- was stored before any call, which is what the account holds in the end; the fee went from the escrow to
  -- the keeper, and the exchange program was sent the rest of the tranche and the floor of the tranche, as
  -- its instruction 1, with the escrow as the source and the order's account as the destination.
  -- Condition: the runtime keeps `RuntimeLaws`.
  pub execute_outcome :
      (rest : List AccountInfo) (s s' : Store)
      → execute runtime program_id
          (order_ai ∷ input_escrow_ai ∷ dst_ata_ai ∷ keeper_fee_ai ∷ dex_program_ai ∷ pool_ai
            ∷ pool_authority_ai ∷ src_vault_ai ∷ dst_vault_ai ∷ pool_mint_ai ∷ fee_account_ai
            ∷ src_mint_ai ∷ dst_mint_ai ∷ token_program_ai ∷ rest)
          s
        ≡ ok (tt, s')
      → Executed s s'
  unfolding execute
  execute_outcome rest s s' h =
      let (order, now, loaded, due, h1) = opening_step runtime program_id order_ai _ _ _ _ s h in
      let (pinned, h2) =
        accounts_step runtime dex_program_ai token_program_ai pool_ai input_escrow_ai dst_ata_ai
          dst_mint_ai keeper_fee_ai src_mint_ai order _ _ _ _ s h1 in
      let (debited, floor, fee, swap_in, s1, tranche, called, written, kept) =
        end_step order now s loaded.owned h2 in
      (
        order, debited, now, floor, fee, swap_in, s1, loaded, due, pinned, tranche, called, written,
        kept,
      )
