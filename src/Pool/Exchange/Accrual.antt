-- ===== src/Pool/Exchange/Accrual.antt =====
-- The fee counter of a pool after a swap.
use mathlib.Core.Path.{subst}
use rome_dex.Base.{ℕ, ◌+◌, ◌<◌, ◌^◌, ◌≡◌, ◌≢◌, true, ok, arith}
use rome_dex.Solana.Runtime.{Pubkey, AccountInfo, Store}
use rome_dex.Curve.Calculator.{TradeDirection, a_to_b, b_to_a}
use rome_dex.Pool.Platform.{Platform, PackLaws}
use rome_dex.Pool.State.{SwapV2}
use rome_dex.Pool.Version.Laws.{version_live}
use rome_dex.Pool.Codec.RoundTrips.{IsSwapV2}
use rome_dex.Pool.Counters.{accrued}
use rome_dex.Pool.Exchange.Admission.{fees_in}
use rome_dex.Pool.Loads.{lifted_step}
use rome_dex.Pool.Repack.{HoldsPool, held_v2_step, repack_step}
use rome_dex.Pool.Processor.Checks.{store_v2}
use rome_dex.Pool.Processor.Swap.{accrue_fee}

-- The pool with the fee on the counter of the source's side.
abbrev pub with_fee : SwapV2 → TradeDirection → ℕ → SwapV2
with_fee pool a_to_b fee = record pool { protocol_fees_a = pool.protocol_fees_a + fee }
with_fee pool b_to_a fee = record pool { protocol_fees_b = pool.protocol_fees_b + fee }

accrued_lem :
    (pool : SwapV2) (direction : TradeDirection) (fee : ℕ) {raised : SwapV2}
    → accrued pool direction fee ≡ ok raised
    → (fees_in pool direction + fee < 2 ^ 64) × (raised ≡ with_fee pool direction fee)
unfolding accrued
accrued_lem pool a_to_b fee h = (ground arith, ground arith)
accrued_lem pool b_to_a fee h = (ground arith, ground arith)

with_fee-IsSwapV2 :
    (pool : SwapV2) (direction : TradeDirection) (fee : ℕ)
    → IsSwapV2 pool
    → fees_in pool direction + fee < 2 ^ 64
    → IsSwapV2 (with_fee pool direction fee)
with_fee-IsSwapV2 pool a_to_b fee fits small = record {
  bump_seed_fits = fits.bump_seed_fits;
  token_program_id_fits = fits.token_program_id_fits;
  token_a_fits = fits.token_a_fits;
  token_b_fits = fits.token_b_fits;
  pool_mint_fits = fits.pool_mint_fits;
  token_a_mint_fits = fits.token_a_mint_fits;
  token_b_mint_fits = fits.token_b_mint_fits;
  fees_fit = fits.fees_fit;
  curve_fits = fits.curve_fits;
  protocol_fees_a_fits = omega arith;
  protocol_fees_b_fits = fits.protocol_fees_b_fits;
}
with_fee-IsSwapV2 pool b_to_a fee fits small = record {
  bump_seed_fits = fits.bump_seed_fits;
  token_program_id_fits = fits.token_program_id_fits;
  token_a_fits = fits.token_a_fits;
  token_b_fits = fits.token_b_fits;
  pool_mint_fits = fits.pool_mint_fits;
  token_a_mint_fits = fits.token_a_mint_fits;
  token_b_mint_fits = fits.token_b_mint_fits;
  fees_fit = fits.fees_fit;
  curve_fits = fits.curve_fits;
  protocol_fees_a_fits = fits.protocol_fees_a_fits;
  protocol_fees_b_fits = omega arith;
}

live_with :
    (pool : SwapV2) (direction : TradeDirection) (fee : ℕ)
    → pool.is_initialized ≡ true
    → (with_fee pool direction fee).is_initialized ≡ true
live_with pool a_to_b fee live = live
live_with pool b_to_a fee live = live

pub accrue_fee_step :
    (platform : Platform) (laws : PackLaws platform) (program_id : Pubkey) (info : AccountInfo)
    (pool : SwapV2) (direction : TradeDirection) (fee : ℕ) (s : Store) {p : Unit {0} × Store}
    → HoldsPool platform program_id info s pool
    → IsSwapV2 pool
    → accrue_fee platform program_id info direction fee s ≡ ok p
    → HoldsPool platform program_id info p.1 (with_fee pool direction fee)
      × (fees_in pool direction + fee < 2 ^ 64)
      × ((k : Pubkey) → k ≢ info.key → p.1 k ≡ s k)
unfolding accrue_fee
accrue_fee_step platform laws program_id info pool direction fee s {p} held fits h =
    let h1 = held_v2_step platform program_id info pool _ s held h in
    let (raised, e, h2) = lifted_step _ _ s h1 in
    let (small, same) = accrued_lem pool direction fee e in
    let h3 = subst (λ x. store_v2 platform info x s ≡ ok p) same h2 in
    let (now, others) =
      repack_step platform laws program_id info pool (with_fee pool direction fee) s held
        (with_fee-IsSwapV2 pool direction fee fits small)
        (live_with pool direction _ (version_live platform laws pool _ held.unpacked)) h3 in
    (now, small, others)
