-- ===== src/Examples/PoolExits.antt =====
-- Withdrawals from the pool of the examples: program/src/processor.rs.
use rome_dex.Base.{◌≡◌, refl, List, [], ◌∷◌, ok}
use rome_dex.Solana.Bytes.{from_le_bytes, le_bytes}
use rome_dex.Solana.Codec.{number, flag}
use rome_dex.Solana.Runtime.{
  AccountInfo, Store, ◌>>=◌, ◌>>◌, pure, fail, lift, require, owner_of, contents_of, write, invoke,
}
use rome_dex.Curve.Fees.{
  calculate_fee, ceil_div, pre_fee_amount, pre_trading_fee_amount, trading_fee, owner_trading_fee,
}
use rome_dex.Curve.ConstantProduct
use rome_dex.Curve.SwapCurve
use rome_dex.Curve.SwapCurve.Dispatch
use rome_dex.Curve.SwapCurve.Dispatch.{try_from, as_u8}
use rome_dex.Pool.Codec.{
  read_fees, fees_bytes, chunk, as_curve_type, calculator_from, calculator_bytes, read_swap_curve,
  swap_curve_bytes, read_swap_v2, swap_v2_bytes,
}
use rome_dex.Pool.Version.{unpack_version}
use rome_dex.Pool.Counters.{lp_owned}
use rome_dex.Pool.Processor.Tokens.{
  to_u64, require_token_owner, unpack_token_account, unpack_mint, authority_id, token_transfer,
  token_burn,
}
use rome_dex.Pool.Processor.Checks.{load_version, require_authority, require_other, check_accounts}
use rome_dex.Pool.Processor.Deposit.{direction_of_mint, transfer_unpacked}
use rome_dex.Pool.Processor.Withdraw.{
  clamped, transfer_positive, withdraw_all_token_types, withdraw_single_token_type_exact_amount_out,
}
use rome_dex.Pool.Redemption.Both.{WithdrawnBoth, withdraw_both_outcome}
use rome_dex.Pool.Redemption.Single.{WithdrawnSingle, withdraw_single_outcome}
use rome_dex.Examples.Curve.{up, ceil}
use rome_dex.Examples.Host.{account_at, signer_at, left_by}
use rome_dex.Examples.PoolHost.{live_only, of_length, platform}
use rome_dex.Examples.PoolRuns.{pool, before}
use rome_dex.Examples.PoolSwaps.{held}

abbrev both_accounts : List AccountInfo
both_accounts =
    account_at 1
    ∷ account_at 3
    ∷ signer_at 4
    ∷ account_at 7
    ∷ account_at 34
    ∷ account_at 5
    ∷ account_at 6
    ∷ account_at 14
    ∷ account_at 33
    ∷ account_at 11
    ∷ account_at 12
    ∷ account_at 15
    ∷ account_at 15
    ∷ account_at 15
    ∷ []

abbrev after_both : Store
after_both =
    left_by (withdraw_all_token_types platform 9 1_000 900 1_900 both_accounts before) before

both_run :
    withdraw_all_token_types platform 9 1_000 900 1_900 both_accounts before ≡ ok (tt, after_both)
unfolding withdraw_all_token_types load_version unpack_version live_only of_length read_swap_v2
    read_fees read_swap_curve chunk as_curve_type calculator_from try_from number flag swap_v2_bytes
    fees_bytes swap_curve_bytes calculator_bytes as_u8 from_le_bytes le_bytes check_accounts
    require_other require_authority authority_id unpack_token_account require_token_owner
    unpack_mint lp_owned Dispatch.pool_tokens_to_trading_tokens
    ConstantProduct.pool_tokens_to_trading_tokens clamped to_u64 token_burn transfer_positive
    transfer_unpacked token_transfer ◌>>=◌ ◌>>◌ pure fail lift require owner_of contents_of write
    invoke
both_run = refl

withdraw_both_outcome_example :
    WithdrawnBoth platform 9
      (account_at 1)
      (account_at 3)
      (signer_at 4)
      (account_at 7)
      (account_at 34)
      (account_at 5)
      (account_at 6)
      (account_at 14)
      (account_at 33)
      (account_at 11)
      (account_at 12)
      (account_at 15)
      (account_at 15)
      (account_at 15)
      []
      pool
      before
      after_both
      1_000
      900
      1_900
withdraw_both_outcome_example =
    withdraw_both_outcome platform 9 (account_at 1) (account_at 3) (signer_at 4) (account_at 7)
      (account_at 34) (account_at 5) (account_at 6) (account_at 14) (account_at 33) (account_at 11)
      (account_at 12) (account_at 15) (account_at 15) (account_at 15) [] pool before after_both
      1_000 900 1_900 held both_run

abbrev single_accounts : List AccountInfo
single_accounts =
    account_at 1
    ∷ account_at 3
    ∷ signer_at 4
    ∷ account_at 7
    ∷ account_at 34
    ∷ account_at 5
    ∷ account_at 6
    ∷ account_at 33
    ∷ account_at 12
    ∷ account_at 15
    ∷ account_at 15
    ∷ []

abbrev after_single : Store
after_single =
    left_by
      (withdraw_single_token_type_exact_amount_out platform 9 2_000_000 1_000_000 single_accounts
        before)
      before

single_run :
    withdraw_single_token_type_exact_amount_out platform 9 2_000_000 1_000_000 single_accounts
      before
    ≡ ok (tt, after_single)
unfolding withdraw_single_token_type_exact_amount_out load_version unpack_version live_only
    of_length read_swap_v2 read_fees read_swap_curve chunk as_curve_type calculator_from try_from
    number flag swap_v2_bytes fees_bytes swap_curve_bytes calculator_bytes as_u8 from_le_bytes
    le_bytes direction_of_mint check_accounts require_other require_authority authority_id
    unpack_token_account require_token_owner unpack_mint lp_owned
    SwapCurve.withdraw_single_token_type_exact_out Dispatch.withdraw_single_token_type_exact_out
    ConstantProduct.withdraw_single_token_type_exact_out ConstantProduct.rounded
    pre_trading_fee_amount pre_fee_amount ceil_div trading_fee owner_trading_fee calculate_fee up
    ceil to_u64 token_burn transfer_unpacked token_transfer ◌>>=◌ ◌>>◌ pure fail lift require
    owner_of contents_of write invoke
single_run = refl

withdraw_single_outcome_example :
    WithdrawnSingle platform 9
      (account_at 1)
      (account_at 3)
      (signer_at 4)
      (account_at 7)
      (account_at 34)
      (account_at 5)
      (account_at 6)
      (account_at 33)
      (account_at 12)
      (account_at 15)
      (account_at 15)
      []
      pool
      before
      after_single
      2_000_000
      1_000_000
withdraw_single_outcome_example =
    withdraw_single_outcome platform 9 (account_at 1) (account_at 3) (signer_at 4) (account_at 7)
      (account_at 34) (account_at 5) (account_at 6) (account_at 33) (account_at 12) (account_at 15)
      (account_at 15) [] pool before after_single 2_000_000 1_000_000 held single_run
