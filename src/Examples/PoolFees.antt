-- ===== src/Examples/PoolFees.antt =====
-- A collection of the fees of the pool of the examples: program/src/processor.rs.
use rome_dex.Base.{◌≡◌, refl, List, [], ◌∷◌, ok}
use rome_dex.Solana.Bytes.{from_le_bytes, le_bytes}
use rome_dex.Solana.Codec.{number, flag}
use rome_dex.Solana.Runtime.{
  AccountInfo, Store, ◌>>=◌, ◌>>◌, pure, fail, lift, require, owner_of, contents_of, write, invoke,
}
use rome_dex.Curve.SwapCurve.Dispatch.{try_from, as_u8}
use rome_dex.Pool.Codec.{
  read_fees, fees_bytes, chunk, as_curve_type, calculator_from, calculator_bytes, read_swap_curve,
  swap_curve_bytes, read_swap_v2, swap_v2_bytes, read_protocol_config, protocol_config_bytes,
}
use rome_dex.Pool.Version.{unpack_version, unpack_v2, pack_v2}
use rome_dex.Pool.Config.{find_address, load_config}
use rome_dex.Pool.Processor.Tokens.{
  require_token_owner, unpack_token_account, unpack_mint, authority_id, token_transfer,
}
use rome_dex.Pool.Processor.Checks.{load_version, load_v2, store_v2, require_authority}
use rome_dex.Pool.Processor.Collect.{
  require_destination, collect_side, zero_counters, collect_protocol_fees,
}
use rome_dex.Pool.Collection.{Collected, collect_outcome}
use rome_dex.Examples.Host.{laws, account_at, left_by}
use rome_dex.Examples.PoolHost.{live_only, of_length, platform, packs}
use rome_dex.Examples.PoolRuns.{pool, pool_fits, before}
use rome_dex.Examples.PoolSwaps.{held}

abbrev accounts : List AccountInfo
accounts =
    account_at 1
    ∷ account_at 3
    ∷ account_at 5
    ∷ account_at 6
    ∷ account_at 31
    ∷ account_at 32
    ∷ account_at 11
    ∷ account_at 12
    ∷ account_at 2
    ∷ account_at 15
    ∷ account_at 15
    ∷ []

abbrev after : Store
after = left_by (collect_protocol_fees platform 9 accounts before) before

collect_run : collect_protocol_fees platform 9 accounts before ≡ ok (tt, after)
unfolding collect_protocol_fees load_version unpack_version live_only of_length read_swap_v2
    read_fees read_swap_curve chunk as_curve_type calculator_from try_from number flag swap_v2_bytes
    fees_bytes swap_curve_bytes calculator_bytes as_u8 from_le_bytes le_bytes require_authority
    authority_id unpack_token_account require_token_owner unpack_mint find_address load_config
    read_protocol_config protocol_config_bytes require_destination collect_side token_transfer
    zero_counters load_v2 unpack_v2 store_v2 pack_v2 ◌>>=◌ ◌>>◌ pure fail lift require owner_of
    contents_of write invoke
collect_run = refl

collect_outcome_example :
    Collected platform 9 packs laws
      (account_at 1)
      (account_at 3)
      pool
      (account_at 5)
      (account_at 6)
      (account_at 31)
      (account_at 32)
      (account_at 11)
      (account_at 12)
      (account_at 2)
      (account_at 15)
      (account_at 15)
      []
      before
      after
collect_outcome_example =
    collect_outcome platform 9 packs laws (account_at 1) (account_at 3) pool (account_at 5)
      (account_at 6) (account_at 31) (account_at 32) (account_at 11) (account_at 12) (account_at 2)
      (account_at 15) (account_at 15) [] before after held pool_fits collect_run
