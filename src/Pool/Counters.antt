-- ===== src/Pool/Counters.antt =====
-- The protocol's fee counters of a pool and the reserves without them: `lp_owned`, and the parts of
-- `process_swap_generic` in program/src/processor.rs that read and raise the counters.
use rome_dex.Base.{ℕ, ◌+◌, ◌-◌, ◌^◌, Result, ok, ok_or, ◌>>=◌, ltb, if◌then◌else◌}
use rome_dex.Base.Words.{checked_sub, checked_add_u64}
use rome_dex.Curve.Calculator.{
  SwapError, calculation_failure, fee_calculation_failure, TradeDirection, a_to_b, b_to_a,
}
use rome_dex.Pool.State.{SwapV2}

unfoldable pub lp_owned : ℕ → ℕ → Result SwapError ℕ
lp_owned vault_amount protocol_fees =
    ok_or (checked_sub vault_amount protocol_fees) calculation_failure

-- The counters of the source's and of the destination's side.
abbrev pub source_counter : SwapV2 → TradeDirection → ℕ
source_counter pool a_to_b = pool.protocol_fees_a
source_counter pool b_to_a = pool.protocol_fees_b

abbrev pub destination_counter : SwapV2 → TradeDirection → ℕ
destination_counter pool a_to_b = pool.protocol_fees_b
destination_counter pool b_to_a = pool.protocol_fees_a

-- The reserves that the curve sees: source, then destination.
unfoldable pub lp_reserves : SwapV2 → TradeDirection → ℕ → ℕ → Result SwapError (ℕ × ℕ)
lp_reserves pool direction source_amount dest_amount = do
  lp_source ← lp_owned source_amount (source_counter pool direction)
  lp_dest ← lp_owned dest_amount (destination_counter pool direction)
  ok (lp_source, lp_dest)

abbrev pub with_source_counter : SwapV2 → TradeDirection → ℕ → SwapV2
with_source_counter pool a_to_b counter = record pool { protocol_fees_a = counter }
with_source_counter pool b_to_a counter = record pool { protocol_fees_b = counter }

-- The owner's fee on top of the counter of the source's side.
unfoldable pub accrued : SwapV2 → TradeDirection → ℕ → Result SwapError SwapV2
accrued pool direction owner_fee = do
  counter ←
      ok_or (checked_add_u64 (source_counter pool direction) owner_fee) fee_calculation_failure
  ok (with_source_counter pool direction counter)

-- `saturating_add` on a u64
abbrev pub saturating_add : ℕ → ℕ → ℕ
saturating_add a b = if ltb (a + b) (2 ^ 64) then a + b else 2 ^ 64 - 1
