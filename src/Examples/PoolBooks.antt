-- ===== src/Examples/PoolBooks.antt =====
-- The books, the bytes and the instructions of the pool of the examples: program/src.
use rome_dex.Base.{ℕ, ◌≤◌, ◌≡◌, refl, List, [], ◌∷◌, ok, some, arith}
use rome_dex.Solana.Bytes.{length, from_le_bytes, le_bytes}
use rome_dex.Curve.Calculator.{a_to_b, map_zero_to_none}
use rome_dex.Curve.Fees.{calculate_fee, trading_fee, owner_trading_fee}
use rome_dex.Curve.ConstantProduct
use rome_dex.Curve.SwapCurve
use rome_dex.Curve.SwapCurve.{SwapResult}
use rome_dex.Curve.SwapCurve.Dispatch
use rome_dex.Curve.SwapCurve.Dispatch.{product, as_u8}
use rome_dex.Pool.Codec.{fees_bytes, calculator_bytes, swap_curve_bytes, swap_v2_bytes}
use rome_dex.Pool.Version.{pack_version, unpack_version}
use rome_dex.Pool.Version.Laws.{unpack-pack_version}
use rome_dex.Pool.Counters.{lp_owned}
use rome_dex.Pool.Instructions
use rome_dex.Pool.Instructions.RoundTrip.{unpack-pack}
use rome_dex.Pool.Ledger.{Ledger, exchanged, Trade, swapped, collected, Trades, idle, trade}
use rome_dex.Pool.Ledger.Growth.{lp_product, lp_product_grows}
use rome_dex.Examples.Curve.{up, ceil, math, laws}
use rome_dex.Examples.PoolHost.{of_length, platform, packs}
use rome_dex.Examples.PoolRuns.{pool, pool_fits, fees}

abbrev opening : Ledger
opening = record { vault_a = 1_000_100; vault_b = 2_000_000; fees_a = 100; fees_b = 0 }

abbrev answer : SwapResult
answer = record {
  new_swap_source_amount = 1_010_000;
  new_swap_destination_amount = 1_980_257;
  source_amount_swapped = 10_000;
  destination_amount_swapped = 19_743;
  trade_fee = 25;
  owner_fee = 5;
}

answers : SwapCurve.swap math product 10_000 1_000_000 2_000_000 a_to_b fees ≡ some answer
unfolding SwapCurve.swap trading_fee owner_trading_fee calculate_fee Dispatch.swap_without_fees
    ConstantProduct.swap map_zero_to_none ceil up
answers = refl

abbrev traded_ledger : Ledger
traded_ledger = exchanged opening a_to_b 10_000 19_743 5

one_swap : Trade math product fees opening traded_ledger
unfolding lp_owned
one_swap =
    swapped opening a_to_b 10_000 1_000_000 2_000_000 10_000 answer refl refl answers (omega arith)

abbrev collected_ledger : Ledger
collected_ledger = record { vault_a = 1_009_995; vault_b = 1_980_257; fees_a = 0; fees_b = 0 }

trades : Trades math product fees opening collected_ledger
trades = trade (trade (idle opening) one_swap) (collected traded_ledger)

lp_product_grows_example : lp_product opening ≤ lp_product collected_ledger
lp_product_grows_example = lp_product_grows math laws fees trades

unpack-pack_example :
    Instructions.unpack platform (Instructions.pack (Instructions.swap 10_000 19_000))
    ≡ ok (Instructions.swap 10_000 19_000)
unpack-pack_example =
    unpack-pack platform packs (Instructions.swap 10_000 19_000) (omega arith, omega arith)

abbrev packed_pool : List ℕ
packed_pool = 2 ∷ swap_v2_bytes pool (le_bytes 32 0) []

pool_packed : pack_version platform pool (le_bytes 308 0) ≡ ok packed_pool
unfolding pack_version of_length swap_v2_bytes fees_bytes swap_curve_bytes calculator_bytes as_u8
    from_le_bytes le_bytes
pool_packed = refl

unpack-pack_version_example :
    (unpack_version platform packed_pool ≡ ok pool) × (length packed_pool ≡ length (le_bytes 308 0))
unpack-pack_version_example =
    unpack-pack_version platform packs pool (le_bytes 308 0) pool_fits refl pool_packed
