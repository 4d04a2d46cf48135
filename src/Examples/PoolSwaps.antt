-- ===== src/Examples/PoolSwaps.antt =====
-- A swap on the pool of the examples: program/src/processor.rs.
use rome_dex.Base.{inr, arith, ◌≡◌, refl, List, [], ◌∷◌, ok}
use rome_dex.Solana.Bytes.{from_le_bytes, le_bytes}
use rome_dex.Solana.Codec.{number, flag}
use rome_dex.Solana.Runtime.{
  AccountInfo, Store, ◌>>=◌, ◌>>◌, pure, fail, lift, require, owner_of, contents_of, write, invoke,
}
use rome_dex.Curve.Fees.{calculate_fee, trading_fee, owner_trading_fee}
use rome_dex.Curve.ConstantProduct
use rome_dex.Curve.SwapCurve
use rome_dex.Curve.SwapCurve.Dispatch
use rome_dex.Curve.SwapCurve.Dispatch.{try_from, as_u8}
use rome_dex.Curve.Calculator.{map_zero_to_none}
use rome_dex.Pool.Codec.{
  read_fees, fees_bytes, chunk, as_curve_type, calculator_from, calculator_bytes, read_swap_curve,
  swap_curve_bytes, read_swap_v2, swap_v2_bytes,
}
use rome_dex.Pool.Version.{unpack_version, unpack_v2, pack_v2}
use rome_dex.Pool.Counters.{lp_owned, lp_reserves, accrued}
use rome_dex.Pool.Processor.Tokens.{
  to_u64, require_token_owner, unpack_token_account, unpack_mint, authority_id, token_transfer,
}
use rome_dex.Pool.Processor.Checks.{load_version, load_v2, store_v2, require_authority}
use rome_dex.Pool.Processor.Swap.{
  exact_in, direction_from, guard_input, guard_output, less_transfer_fee, plus_transfer_fee,
  curve_result, source_side, destination_side, admit_swap, accrue_fee, swap_generic,
}
use rome_dex.Pool.Repack.{HoldsPool}
use rome_dex.Pool.Exchange.Outcome.{Swapped, swap_outcome}
use rome_dex.Pool.Exchange.Coverage.{PaysOwn, swap_covers_fees}
use rome_dex.Examples.Curve.{up, ceil}
use rome_dex.Examples.Host.{laws, account_at, signer_at, left_by}
use rome_dex.Examples.PoolHost.{live_only, of_length, platform, packs}
use rome_dex.Examples.PoolRuns.{pool, pool_fits, before}

pub held : HoldsPool platform 9 (account_at 1) before pool
unfolding unpack_version live_only of_length read_swap_v2 read_fees read_swap_curve chunk
    as_curve_type calculator_from try_from number flag swap_v2_bytes fees_bytes swap_curve_bytes
    calculator_bytes as_u8 from_le_bytes le_bytes
held = record { owned = refl; unpacked = refl }

abbrev accounts : List AccountInfo
accounts =
    account_at 1
    ∷ account_at 3
    ∷ signer_at 4
    ∷ account_at 14
    ∷ account_at 5
    ∷ account_at 6
    ∷ account_at 33
    ∷ account_at 7
    ∷ account_at 11
    ∷ account_at 12
    ∷ account_at 15
    ∷ account_at 15
    ∷ account_at 15
    ∷ []

abbrev after : Store
after = left_by (swap_generic platform 9 (exact_in 10_000 19_000) accounts before) before

swap_run : swap_generic platform 9 (exact_in 10_000 19_000) accounts before ≡ ok (tt, after)
unfolding swap_generic admit_swap load_version unpack_version live_only of_length read_swap_v2
    read_fees read_swap_curve chunk as_curve_type calculator_from try_from number flag swap_v2_bytes
    fees_bytes swap_curve_bytes calculator_bytes as_u8 from_le_bytes le_bytes require_authority
    authority_id unpack_token_account require_token_owner unpack_mint direction_from lp_reserves
    lp_owned curve_result less_transfer_fee plus_transfer_fee SwapCurve.swap trading_fee
    owner_trading_fee calculate_fee Dispatch.swap_without_fees ConstantProduct.swap map_zero_to_none
    ceil up source_side destination_side to_u64 guard_input guard_output token_transfer accrue_fee
    load_v2 unpack_v2 accrued store_v2 pack_v2 ◌>>=◌ ◌>>◌ pure fail lift require owner_of
    contents_of write invoke
swap_run = refl

swap_outcome_example :
    Swapped platform 9 packs laws
      (account_at 1)
      (account_at 3)
      (signer_at 4)
      (account_at 14)
      (account_at 5)
      (account_at 6)
      (account_at 33)
      (account_at 7)
      (account_at 11)
      (account_at 12)
      (account_at 15)
      (account_at 15)
      (account_at 15)
      []
      pool
      before
      after
      (exact_in 10_000 19_000)
swap_outcome_example =
    swap_outcome platform 9 packs laws (account_at 1) (account_at 3) (signer_at 4) (account_at 14)
      (account_at 5) (account_at 6) (account_at 33) (account_at 7) (account_at 11) (account_at 12)
      (account_at 15) (account_at 15) (account_at 15) [] pool before after (exact_in 10_000 19_000)
      held pool_fits swap_run

swap_covers_fees_example :
    PaysOwn platform 9 packs laws
      (account_at 1)
      (account_at 3)
      (signer_at 4)
      (account_at 14)
      (account_at 5)
      (account_at 6)
      (account_at 33)
      (account_at 7)
      (account_at 11)
      (account_at 12)
      (account_at 15)
      (account_at 15)
      (account_at 15)
      []
      pool
      before
      after
      (exact_in 10_000 19_000)
swap_covers_fees_example =
    swap_covers_fees platform 9 packs laws (account_at 1) (account_at 3) (signer_at 4)
      (account_at 14) (account_at 5) (account_at 6) (account_at 33) (account_at 7) (account_at 11)
      (account_at 12) (account_at 15) (account_at 15) (account_at 15) [] pool before after
      (exact_in 10_000 19_000) (inr (omega arith)) held pool_fits swap_run
