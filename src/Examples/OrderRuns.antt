-- ===== src/Examples/OrderRuns.antt =====
-- The handlers of the order program, run on the order of the examples: orders/src/processor.rs.
use rome_dex.Base.{ℕ, ◌≡◌, ◌≢◌, ◌==◌, refl, List, [], ◌∷◌, ◌++◌, ok, if◌then◌else◌, arith}
use rome_dex.Base.Int.{◌+ℤ◌, pos}
use rome_dex.Solana.Bytes.{from_le_bytes, le_bytes}
use rome_dex.Solana.Codec.{number, flag, signed}
use rome_dex.Solana.Runtime.{
  AccountInfo, Store, ◌>>=◌, ◌>>◌, pure, fail, lift, require, owner_of, contents_of, write, invoke,
}
use rome_dex.Orders.State.{
  Order, is_open, is_expired, dca_ready, next_tranche_in, effective_min_out, debit, split_output,
}
use rome_dex.Orders.Codec.{read_order, unpack_order, pack_order}
use rome_dex.Orders.Processor.Checks.{
  dex_program_id, store_order, load_order, check_dex_program, check_token_program,
  close_state_account, escrow_transfer, refund_escrow, close_escrow,
}
use rome_dex.Orders.Processor.Handlers.{execute, cancel, crank_expired, close_filled}
use rome_dex.Orders.Processor.Closings.{
  Cancelled, CrankedExpired, ClosedFilled, cancel_outcome, crank_expired_outcome,
  close_filled_outcome,
}
use rome_dex.Orders.Processor.Execution.{Executed, execute_outcome}
use rome_dex.Examples.Host.{runtime, laws, account_at, signer_at, with_bytes, left_by}
use rome_dex.Examples.Orders.{order, with_left}

abbrev bytes_of : Order → List ℕ
bytes_of o = elim (pack_order o (le_bytes 230 0)) [ ok bytes ↦ bytes | _ ↦ [] ]

-- A token account: its mint, its owner and its amount.
abbrev token_account : ℕ → ℕ → ℕ → List ℕ
token_account mint owner amount = le_bytes 32 mint ++ (le_bytes 32 owner ++ le_bytes 8 amount)

-- The order, the escrow, and the owner's two token accounts.
abbrev before : Order → Store
before o key =
    if key == 1
    then with_bytes 9 5 (bytes_of o)
    else if key == 23
    then with_bytes 15 5 (token_account 31 1 250)
    else if key == 24
    then with_bytes 15 5 (token_account 32 21 0)
    else if key == 25
    then with_bytes 15 5 (token_account 31 21 0)
    else with_bytes 15 5 (token_account 31 40 0)

apart : (signer_at 21).key ≢ (account_at 1).key
apart = λ e. absurd (omega arith)

abbrev cancel_accounts : List AccountInfo
cancel_accounts = account_at 1 ∷ signer_at 21 ∷ account_at 23 ∷ account_at 25 ∷ account_at 15 ∷ []

abbrev cancel_before : Store
cancel_before = before (order)

abbrev after_cancel : Store
after_cancel = left_by (cancel runtime 9 cancel_accounts cancel_before) cancel_before

cancel_run : cancel runtime 9 cancel_accounts cancel_before ≡ ok (tt, after_cancel)
unfolding cancel load_order check_dex_program check_token_program close_state_account
    escrow_transfer refund_escrow close_escrow store_order is_open is_expired dca_ready
    next_tranche_in effective_min_out debit split_output ◌+ℤ◌ read_order unpack_order pack_order
    number flag signed from_le_bytes le_bytes ◌>>=◌ ◌>>◌ pure fail lift require owner_of contents_of
    write invoke
cancel_run = refl

cancel_outcome_example :
    Cancelled runtime 9
      (account_at 1)
      (signer_at 21)
      (account_at 23)
      (account_at 25)
      (account_at 15)
      cancel_before
      after_cancel
cancel_outcome_example =
    cancel_outcome runtime 9 (account_at 1) (signer_at 21) (account_at 23) (account_at 25)
      (account_at 15) [] cancel_before after_cancel apart cancel_run

abbrev crank_expired_accounts : List AccountInfo
crank_expired_accounts =
    account_at 1 ∷ signer_at 21 ∷ account_at 23 ∷ account_at 25 ∷ account_at 15 ∷ []

abbrev crank_expired_before : Store
crank_expired_before = before (record order { expiry_ts = pos 1_000 })

abbrev after_crank_expired : Store
after_crank_expired =
    left_by (crank_expired runtime 9 crank_expired_accounts crank_expired_before)
      crank_expired_before

crank_expired_run :
    crank_expired runtime 9 crank_expired_accounts crank_expired_before
    ≡ ok (tt, after_crank_expired)
unfolding crank_expired load_order check_dex_program check_token_program close_state_account
    escrow_transfer refund_escrow close_escrow store_order is_open is_expired dca_ready
    next_tranche_in effective_min_out debit split_output ◌+ℤ◌ read_order unpack_order pack_order
    number flag signed from_le_bytes le_bytes ◌>>=◌ ◌>>◌ pure fail lift require owner_of contents_of
    write invoke
crank_expired_run = refl

crank_expired_outcome_example :
    CrankedExpired runtime 9
      (account_at 1)
      (signer_at 21)
      (account_at 23)
      (account_at 25)
      (account_at 15)
      crank_expired_before
      after_crank_expired
crank_expired_outcome_example =
    crank_expired_outcome runtime 9 (account_at 1) (signer_at 21) (account_at 23) (account_at 25)
      (account_at 15) [] crank_expired_before after_crank_expired apart crank_expired_run

abbrev close_filled_accounts : List AccountInfo
close_filled_accounts =
    account_at 1 ∷ signer_at 21 ∷ account_at 23 ∷ account_at 25 ∷ account_at 15 ∷ []

abbrev close_filled_before : Store
close_filled_before = before (with_left 1 0)

abbrev after_close_filled : Store
after_close_filled =
    left_by (close_filled runtime 9 close_filled_accounts close_filled_before) close_filled_before

close_filled_run :
    close_filled runtime 9 close_filled_accounts close_filled_before ≡ ok (tt, after_close_filled)
unfolding close_filled load_order check_dex_program check_token_program close_state_account
    escrow_transfer refund_escrow close_escrow store_order is_open is_expired dca_ready
    next_tranche_in effective_min_out debit split_output ◌+ℤ◌ read_order unpack_order pack_order
    number flag signed from_le_bytes le_bytes ◌>>=◌ ◌>>◌ pure fail lift require owner_of contents_of
    write invoke
close_filled_run = refl

close_filled_outcome_example :
    ClosedFilled runtime 9
      (account_at 1)
      (signer_at 21)
      (account_at 23)
      (account_at 25)
      (account_at 15)
      close_filled_before
      after_close_filled
close_filled_outcome_example =
    close_filled_outcome runtime 9 (account_at 1) (signer_at 21) (account_at 23) (account_at 25)
      (account_at 15) [] close_filled_before after_close_filled apart close_filled_run

abbrev execute_accounts : List AccountInfo
execute_accounts =
    account_at 1
    ∷ account_at 23
    ∷ account_at 24
    ∷ account_at 26
    ∷ account_at dex_program_id
    ∷ account_at 22
    ∷ account_at 27
    ∷ account_at 28
    ∷ account_at 29
    ∷ account_at 30
    ∷ account_at 33
    ∷ account_at 31
    ∷ account_at 32
    ∷ account_at 15
    ∷ []

abbrev execute_before : Store
execute_before = before (record order {
  interval_secs = 10;
  keeper_fee_bps = 50;
  amount_in_total = 2_500;
  remaining_in = 2_500;
  tranche_in = 1_000;
})

abbrev after_execute : Store
after_execute = left_by (execute runtime 9 execute_accounts execute_before) execute_before

execute_run : execute runtime 9 execute_accounts execute_before ≡ ok (tt, after_execute)
unfolding execute load_order check_dex_program check_token_program close_state_account
    escrow_transfer refund_escrow close_escrow store_order is_open is_expired dca_ready
    next_tranche_in effective_min_out debit split_output ◌+ℤ◌ read_order unpack_order pack_order
    number flag signed from_le_bytes le_bytes ◌>>=◌ ◌>>◌ pure fail lift require owner_of contents_of
    write invoke
execute_run = refl

execute_outcome_example :
    Executed runtime 9 laws
      (account_at 1)
      (account_at 23)
      (account_at 24)
      (account_at 26)
      (account_at dex_program_id)
      (account_at 22)
      (account_at 27)
      (account_at 28)
      (account_at 29)
      (account_at 30)
      (account_at 33)
      (account_at 31)
      (account_at 32)
      (account_at 15)
      execute_before
      after_execute
execute_outcome_example =
    execute_outcome runtime 9 laws (account_at 1) (account_at 23) (account_at 24) (account_at 26)
      (account_at dex_program_id) (account_at 22) (account_at 27) (account_at 28) (account_at 29)
      (account_at 30) (account_at 33) (account_at 31) (account_at 32) (account_at 15) []
      execute_before after_execute execute_run
