-- ===== src/Pool/Processor/Entry.antt =====
-- `process` and `process_with_constraints` of program/src/processor.rs.
use rome_dex.Base.{ℕ, Bool, Option, List}
use rome_dex.Solana.Runtime.{Pubkey, AccountInfo, Action, ◌>>=◌, fail, lift}
use rome_dex.Curve.Calculator.{instruction_retired}
use rome_dex.Pool.Platform.{Platform}
use rome_dex.Pool.State.{from_error}
use rome_dex.Pool.Constraints.{SwapConstraints, swap_constraints}
use rome_dex.Pool.Instructions
use rome_dex.Pool.Instructions.{SwapInstruction}
use rome_dex.Pool.Processor.Swap.{swap, swap_exact_out}
use rome_dex.Pool.Processor.Deposit.{
  deposit_all_token_types, deposit_single_token_type_exact_amount_in,
}
use rome_dex.Pool.Processor.Withdraw.{
  withdraw_all_token_types, withdraw_single_token_type_exact_amount_out,
}
use rome_dex.Pool.Processor.Create.{create_pool}
use rome_dex.Pool.Processor.Collect.{collect_protocol_fees}
use rome_dex.Pool.Processor.Admin.{
  initialize_config, set_treasury, transfer_admin, accept_admin, set_pool_creation,
}

module _ (platform : Platform) (program_id : Pubkey) where
  unfoldable pub dispatch :
      SwapInstruction → List AccountInfo → Option SwapConstraints → Action (Unit {0})
  dispatch instruction accounts constraints = elim instruction [
    | Instructions.initialize ↦ fail (from_error instruction_retired)
    | Instructions.accept_admin ↦ accept_admin platform program_id accounts
    | Instructions.collect_protocol_fees ↦ collect_protocol_fees platform program_id accounts
    | Instructions.swap amount_in minimum_amount_out ↦
        swap platform program_id amount_in minimum_amount_out accounts
    | Instructions.deposit_all_token_types pool_token_amount maximum_a maximum_b ↦
        deposit_all_token_types platform program_id pool_token_amount maximum_a maximum_b accounts
    | Instructions.withdraw_all_token_types pool_token_amount minimum_a minimum_b ↦
        withdraw_all_token_types platform program_id pool_token_amount minimum_a minimum_b accounts
    | Instructions.deposit_single_token_type_exact_amount_in source_amount minimum ↦
        deposit_single_token_type_exact_amount_in platform program_id source_amount minimum accounts
    | Instructions.withdraw_single_token_type_exact_amount_out destination_amount maximum ↦
        withdraw_single_token_type_exact_amount_out platform program_id destination_amount maximum
          accounts
    | Instructions.swap_exact_out amount_out maximum_amount_in ↦
        swap_exact_out platform program_id amount_out maximum_amount_in accounts
    | Instructions.create_pool fees swap_curve fee_bps pool_bump lp_bump ↦
        create_pool platform program_id fees swap_curve fee_bps pool_bump lp_bump accounts
          constraints
    | Instructions.initialize_config admin treasury mode ↦
        initialize_config platform program_id admin treasury mode accounts
    | Instructions.set_treasury treasury ↦ set_treasury platform program_id treasury accounts
    | Instructions.transfer_admin pending_admin ↦
        transfer_admin platform program_id pending_admin accounts
    | Instructions.set_pool_creation mode ↦ set_pool_creation platform program_id mode accounts
  ]

  unfoldable pub process_with_constraints :
      List AccountInfo → List ℕ → Option SwapConstraints → Action (Unit {0})
  process_with_constraints accounts input constraints = do
    instruction ← lift (Instructions.unpack platform input)
    dispatch instruction accounts constraints

  -- The flag is the feature `production`.
  unfoldable pub process : Bool → List AccountInfo → List ℕ → Action (Unit {0})
  process production accounts input =
      process_with_constraints accounts input (swap_constraints production)
