-- ===== src/Curve/Offset/Invariant.antt =====
-- The offset curve keeps the product of token A and of token B with its offset.
use rome_dex.Base.{ℕ, ◌+◌, ◌≡◌, some, arith}
use rome_dex.Curve.SplMath.{SplMath, CeilDivLaws}
use rome_dex.Curve.Calculator.{TradeDirection, a_to_b, b_to_a, SwapWithoutFeesResult}
use rome_dex.Curve.ConstantProduct.Invariant.{KeepsProduct, swap-KeepsProduct}
use rome_dex.Curve.Offset.{OffsetCurve, offset_source, offset_destination, swap_without_fees}

-- The reserves that the curve sees.
abbrev pub OffsetKeepsProduct :
    OffsetCurve → TradeDirection → ℕ → ℕ → ℕ → SwapWithoutFeesResult → Type 0
OffsetKeepsProduct curve a_to_b offered source destination r =
    KeepsProduct offered source (destination + curve.token_b_offset) r
OffsetKeepsProduct curve b_to_a offered source destination r =
    KeepsProduct offered (source + curve.token_b_offset) destination r

module _ (math : SplMath) (laws : CeilDivLaws math) where
  -- A successful exchange on the offset curve, in either direction, keeps the product of the reserves with
  -- the offset added to that of token B, takes no more than was offered, and pays out at least one token and
  -- no more than that side of the product. (The curve itself does not look at the real reserve of token B.)
  -- Condition: `spl_math` keeps `CeilDivLaws`.
  pub swap_without_fees-KeepsProduct :
      (curve : OffsetCurve) (offered source destination : ℕ) (direction : TradeDirection)
      {r : SwapWithoutFeesResult}
      → swap_without_fees curve math offered source destination direction ≡ some r
      → OffsetKeepsProduct curve direction offered source destination r
  unfolding swap_without_fees offset_source offset_destination
  swap_without_fees-KeepsProduct curve offered source destination a_to_b {r} h = ground (
    arith,
    swap-KeepsProduct math laws offered source (destination + curve.token_b_offset) {r = r},
  )
  swap_without_fees-KeepsProduct curve offered source destination b_to_a {r} h = ground (
    arith,
    swap-KeepsProduct math laws offered (source + curve.token_b_offset) destination {r = r},
  )
