-- ===== src/Examples/PoolDeposits.antt =====
-- A deposit into the pool of the examples: program/src/processor.rs.
use rome_dex.Base.{◌≡◌, refl, List, [], ◌∷◌, ok}
use rome_dex.Solana.Bytes.{from_le_bytes, le_bytes}
use rome_dex.Solana.Codec.{number, flag}
use rome_dex.Solana.Runtime.{
  AccountInfo, Store, ◌>>=◌, ◌>>◌, pure, fail, lift, require, owner_of, contents_of, write, invoke,
}
use rome_dex.Curve.Fees.{calculate_fee, trading_fee, owner_trading_fee}
use rome_dex.Curve.ConstantProduct
use rome_dex.Curve.SwapCurve
use rome_dex.Curve.SwapCurve.Dispatch
use rome_dex.Curve.SwapCurve.Dispatch.{try_from, as_u8}
use rome_dex.Pool.Codec.{
  read_fees, fees_bytes, chunk, as_curve_type, calculator_from, calculator_bytes, read_swap_curve,
  swap_curve_bytes, read_swap_v2, swap_v2_bytes,
}
use rome_dex.Pool.Version.{unpack_version}
use rome_dex.Pool.Counters.{lp_owned}
use rome_dex.Pool.Processor.Tokens.{
  to_u64, require_token_owner, unpack_token_account, unpack_mint, authority_id, token_transfer,
  token_mint_to,
}
use rome_dex.Pool.Processor.Checks.{load_version, require_authority, require_other, check_accounts}
use rome_dex.Pool.Processor.Deposit.{
  direction_of_mint, require_paid, transfer_unpacked, pool_tokens_for, deposit_all_token_types,
  deposit_single_token_type_exact_amount_in,
}
use rome_dex.Pool.Funding.Both.{DepositedBoth, deposit_both_outcome}
use rome_dex.Pool.Funding.Single.{DepositedSingle, deposit_single_outcome}
use rome_dex.Examples.Curve.{up, ceil}
use rome_dex.Examples.Host.{account_at, signer_at, left_by}
use rome_dex.Examples.PoolHost.{live_only, of_length, platform}
use rome_dex.Examples.PoolRuns.{pool, before}
use rome_dex.Examples.PoolSwaps.{held}

abbrev both_accounts : List AccountInfo
both_accounts =
    account_at 1
    ∷ account_at 3
    ∷ signer_at 4
    ∷ account_at 13
    ∷ account_at 14
    ∷ account_at 5
    ∷ account_at 6
    ∷ account_at 7
    ∷ account_at 34
    ∷ account_at 11
    ∷ account_at 12
    ∷ account_at 15
    ∷ account_at 15
    ∷ account_at 15
    ∷ []

abbrev after_both : Store
after_both =
    left_by (deposit_all_token_types platform 9 1_000 1_100 2_000 both_accounts before) before

both_run :
    deposit_all_token_types platform 9 1_000 1_100 2_000 both_accounts before ≡ ok (tt, after_both)
unfolding deposit_all_token_types load_version unpack_version live_only of_length read_swap_v2
    read_fees read_swap_curve chunk as_curve_type calculator_from try_from number flag swap_v2_bytes
    fees_bytes swap_curve_bytes calculator_bytes as_u8 from_le_bytes le_bytes check_accounts
    require_other require_authority authority_id unpack_token_account require_token_owner
    unpack_mint lp_owned Dispatch.allows_deposits Dispatch.pool_tokens_to_trading_tokens
    ConstantProduct.pool_tokens_to_trading_tokens require_paid to_u64 token_mint_to
    transfer_unpacked token_transfer ◌>>=◌ ◌>>◌ pure fail lift require owner_of contents_of write
    invoke
both_run = refl

deposit_both_outcome_example :
    DepositedBoth platform 9
      (account_at 1)
      (account_at 3)
      (signer_at 4)
      (account_at 13)
      (account_at 14)
      (account_at 5)
      (account_at 6)
      (account_at 7)
      (account_at 34)
      (account_at 11)
      (account_at 12)
      (account_at 15)
      (account_at 15)
      (account_at 15)
      []
      pool
      before
      after_both
      1_000
      1_100
      2_000
deposit_both_outcome_example =
    deposit_both_outcome platform 9 (account_at 1) (account_at 3) (signer_at 4) (account_at 13)
      (account_at 14) (account_at 5) (account_at 6) (account_at 7) (account_at 34) (account_at 11)
      (account_at 12) (account_at 15) (account_at 15) (account_at 15) [] pool before after_both
      1_000 1_100 2_000 held both_run

abbrev single_accounts : List AccountInfo
single_accounts =
    account_at 1
    ∷ account_at 3
    ∷ signer_at 4
    ∷ account_at 33
    ∷ account_at 5
    ∷ account_at 6
    ∷ account_at 7
    ∷ account_at 34
    ∷ account_at 12
    ∷ account_at 15
    ∷ account_at 15
    ∷ []

abbrev after_single : Store
after_single =
    left_by
      (deposit_single_token_type_exact_amount_in platform 9 10_000_000 1 single_accounts before)
      before

single_run :
    deposit_single_token_type_exact_amount_in platform 9 10_000_000 1 single_accounts before
    ≡ ok (tt, after_single)
unfolding deposit_single_token_type_exact_amount_in load_version unpack_version live_only of_length
    read_swap_v2 read_fees read_swap_curve chunk as_curve_type calculator_from try_from number flag
    swap_v2_bytes fees_bytes swap_curve_bytes calculator_bytes as_u8 from_le_bytes le_bytes
    direction_of_mint check_accounts require_other require_authority authority_id
    unpack_token_account require_token_owner unpack_mint lp_owned Dispatch.allows_deposits
    SwapCurve.deposit_single_token_type Dispatch.deposit_single_token_type
    ConstantProduct.deposit_single_token_type ConstantProduct.rounded pool_tokens_for trading_fee
    owner_trading_fee calculate_fee up ceil to_u64 token_mint_to transfer_unpacked token_transfer
    ◌>>=◌ ◌>>◌ pure fail lift require owner_of contents_of write invoke
single_run = refl

deposit_single_outcome_example :
    DepositedSingle platform 9
      (account_at 1)
      (account_at 3)
      (signer_at 4)
      (account_at 33)
      (account_at 5)
      (account_at 6)
      (account_at 7)
      (account_at 34)
      (account_at 12)
      (account_at 15)
      (account_at 15)
      []
      pool
      before
      after_single
      10_000_000
      1
deposit_single_outcome_example =
    deposit_single_outcome platform 9 (account_at 1) (account_at 3) (signer_at 4) (account_at 33)
      (account_at 5) (account_at 6) (account_at 7) (account_at 34) (account_at 12) (account_at 15)
      (account_at 15) [] pool before after_single 10_000_000 1 held single_run
