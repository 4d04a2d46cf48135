-- ===== src/Orders/Processor/Closing.antt =====
-- The end that `cancel`, `crank_expired` and `close_filled` share: what it leaves behind.
use rome_dex.Base.{ℕ, ◌+◌, ◌≡◌, ◌≢◌, ◌⊎◌, refl, [], ◌∷◌, ok, arith}
use rome_dex.Solana.Runtime.{
  Pubkey, AccountInfo, Store, Runtime, Instruction, TokenAccount, update, lift, ◌>>=◌, ◌>>◌, write,
}
use rome_dex.Solana.Steps.{check_step, invoke_step, lift_step, contents_step}
use rome_dex.Orders.State.{Order}
use rome_dex.Orders.Processor.Checks.{refund_escrow, close_escrow, close_state_account, seeds_of}
use rome_dex.Orders.Processor.Loads.{refund_step}

module _ (runtime : Runtime)
    (token_program_ai input_escrow_ai owner_src_ai owner_ai order_ai : AccountInfo)
    (order : Order) where
  -- The whole balance of the escrow went to the source account, or there was none.
  pub record Refunded (s s1 : Store) (balance : ℕ) : Type 0 where
    pub escrow : TokenAccount
    pub escrow_read : runtime.unpack_token_account (s input_escrow_ai.key).contents ≡ ok escrow
    pub whole : escrow.amount ≡ balance
    pub moved :
        ((balance ≡ 0) × (s1 ≡ s))
        ⊎ (runtime.invoke_signed
              (Instruction.transfer token_program_ai.key input_escrow_ai.key owner_src_ai.key
                order_ai.key balance)
              (seeds_of order ∷ [])
              s
            ≡ ok s1)

  pub refund_escrow_step :
      (s : Store) {p : Unit {0} × Store}
      → refund_escrow runtime token_program_ai input_escrow_ai owner_src_ai order_ai order s ≡ ok p
      → (balance : ℕ) × Refunded s p.1 balance
  unfolding refund_escrow
  refund_escrow_step s h =
      let (escrow, read, h1) = lift_step _ _ s (contents_step input_escrow_ai _ s h) in
      (
        escrow.amount,
        record {
          escrow = escrow;
          escrow_read = read;
          whole = refl;
          moved =
              refund_step runtime token_program_ai input_escrow_ai owner_src_ai order_ai
                (seeds_of order) escrow.amount s h1;
        },
      )

  -- The order's account: its lamports went to the owner, and it holds nothing.
  pub record Reclaimed (s s' : Store) : Type 0 where
    pub credited :
        (s' owner_ai.key).lamports ≡ (s owner_ai.key).lamports + (s order_ai.key).lamports
    pub drained : (s' order_ai.key).lamports ≡ 0
    pub emptied : (s' order_ai.key).contents ≡ []
    pub others : (k : Pubkey) → k ≢ owner_ai.key → k ≢ order_ai.key → s' k ≡ s k

  -- The store after a close, with the sum that the owner's account then holds.
  abbrev closed_store : Store → ℕ → Store
  closed_store s sum =
      let s1 = update s owner_ai.key (record (s owner_ai.key) { lamports = sum }) in
      let s2 = update s1 order_ai.key (record (s1 order_ai.key) { lamports = 0 }) in
      update s2 order_ai.key (record (s2 order_ai.key) { contents = [] })

  closed_store_step :
      (s : Store) {p : Unit {0} × Store}
      → close_state_account order_ai owner_ai s ≡ ok p
      → p.1 ≡ closed_store s ((s owner_ai.key).lamports + (s order_ai.key).lamports)
  unfolding close_state_account ◌>>=◌ ◌>>◌ write lift
  closed_store_step s h = ground arith

  pub close_state_account_step :
      (s : Store) {p : Unit {0} × Store}
      → owner_ai.key ≢ order_ai.key
      → close_state_account order_ai owner_ai s ≡ ok p
      → Reclaimed s p.1
  close_state_account_step s apart h =
      let same = closed_store_step s h in
      rw same (record {
        credited = ground arith;
        drained = ground arith;
        emptied = ground arith;
        others = λ k e e'. ground arith;
      })

  -- The escrow is emptied to the source account and closed to the owner, and then the order's account is.
  pub record Closed (s s' : Store) : Type 0 where
    pub refunded_store : Store
    pub closed_store : Store
    pub balance : ℕ
    pub refunded : Refunded s refunded_store balance
    pub escrow_closed :
        runtime.invoke_signed
          (Instruction.close_account token_program_ai.key input_escrow_ai.key owner_ai.key
            order_ai.key)
          (seeds_of order ∷ [])
          refunded_store
        ≡ ok closed_store
    pub reclaimed : Reclaimed closed_store s'

  pub close_step :
      (s : Store) {p : Unit {0} × Store}
      → owner_ai.key ≢ order_ai.key
      → (refund_escrow runtime token_program_ai input_escrow_ai owner_src_ai order_ai order
            >> (close_escrow runtime token_program_ai input_escrow_ai owner_ai order_ai order
                >> close_state_account order_ai owner_ai))
          s
        ≡ ok p
      → Closed s p.1
  unfolding close_escrow
  close_step s apart h =
      let (p1, e1, h1) = check_step _ _ s h in
      let (balance, refunded) = refund_escrow_step s e1 in
      let (s2, closed, h2) = invoke_step runtime _ _ _ p1.1 h1 in
      record {
        refunded_store = p1.1;
        closed_store = s2;
        balance = balance;
        refunded = refunded;
        escrow_closed = closed;
        reclaimed = close_state_account_step s2 apart h2;
      }
