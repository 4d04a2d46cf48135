-- ===== src/Curve/ConstantPrice/Value.antt =====
-- An exchange at a constant price moves equal values, and takes no more than was offered.
use rome_dex.Base.{ℕ, ◌+◌, ◌-◌, ◌/◌, ◌%◌, ◌*◌, ◌≤◌, ◌<◌, ◌≡◌, some, arith}
use native.Mathlib.Nat.{div-add-mod', mod-lt}
use rome_dex.Curve.Calculator.{
  TradeDirection, a_to_b, b_to_a, SwapWithoutFeesResult, map_zero_to_none,
}
use rome_dex.Curve.ConstantPrice.{ConstantPriceCurve, swap_without_fees}

-- What token A pays for token B, by the direction of the exchange.
abbrev pub SameValue : ConstantPriceCurve → TradeDirection → SwapWithoutFeesResult → Type 0
SameValue curve a_to_b r =
    r.source_amount_swapped ≡ r.destination_amount_swapped * curve.token_b_price
SameValue curve b_to_a r =
    r.destination_amount_swapped ≡ r.source_amount_swapped * curve.token_b_price

-- The exchange of token A for token B.
bought :
    (curve : ConstantPriceCurve) (offered source destination : ℕ) {r : SwapWithoutFeesResult}
    → swap_without_fees curve offered source destination a_to_b ≡ some r
    → (0 < curve.token_b_price)
      × (r.destination_amount_swapped ≡ offered / curve.token_b_price)
      × (r.source_amount_swapped ≡ offered - offered % curve.token_b_price)
      × (0 < r.source_amount_swapped)
      × (0 < r.destination_amount_swapped)
unfolding swap_without_fees map_zero_to_none
bought curve offered source destination h = ground arith

-- A successful exchange at a constant price moves two amounts of exactly the same value, takes more
-- than nothing and no more than was offered, keeps back less than the price of one token B, and pays
-- out at least one token.
pub swap_without_fees-SameValue :
    (curve : ConstantPriceCurve) (offered source destination : ℕ) (direction : TradeDirection)
    {r : SwapWithoutFeesResult}
    → swap_without_fees curve offered source destination direction ≡ some r
    → SameValue curve direction r
      × (r.source_amount_swapped ≤ offered)
      × (offered < r.source_amount_swapped + curve.token_b_price)
      × (0 < r.source_amount_swapped)
      × (0 < r.destination_amount_swapped)
unfolding swap_without_fees map_zero_to_none
swap_without_fees-SameValue curve offered source destination a_to_b {r} h =
    let (positive, out_eq, in_eq, some_in, some_out) =
      bought curve offered source destination {r = r} h in
    let split = div-add-mod' offered curve.token_b_price in
    let left = mod-lt offered positive in
    (rw out_eq (omega arith), omega arith, omega arith, some_in, some_out)
swap_without_fees-SameValue curve offered source destination b_to_a {r} h = grind arith
