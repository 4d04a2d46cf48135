-- ===== src/Pool/Constraints.antt =====
-- The constraints of a deployment on new pools: program/src/constraints.rs.
use rome_dex.Base.{
  Bool, true, false, ◌&&◌, ◌||◌, Option, none, some, List, [], ◌∷◌, ◌==◌, leb, if◌then◌else◌,
  Result, ok, err,
}
use rome_dex.Curve.Calculator.{SwapError, unsupported_curve_type, invalid_fee}
use rome_dex.Curve.Fees.{Fees}
use rome_dex.Curve.SwapCurve.Dispatch.{CurveType, constant_product, as_u8}
use rome_dex.Pool.State.{SwapCurve}

pub record SwapConstraints : Type 0 where
  pub valid_curve_types : List CurveType
  pub fees : Fees

-- `contains`
unfoldable pub contains : List CurveType → CurveType → Bool
contains [] curve_type = false
contains (valid ∷ rest) curve_type = (as_u8 valid == as_u8 curve_type) || contains rest curve_type

unfoldable pub validate_curve : SwapConstraints → SwapCurve → Result SwapError (Unit {0})
validate_curve constraints swap_curve =
    if contains constraints.valid_curve_types swap_curve.curve_type
    then ok tt
    else err unsupported_curve_type

unfoldable pub validate_fees : SwapConstraints → Fees → Result SwapError (Unit {0})
validate_fees constraints fees =
    let least = constraints.fees in
    if leb least.trade_fee_numerator fees.trade_fee_numerator
      && (fees.trade_fee_denominator == least.trade_fee_denominator)
      && leb least.owner_trade_fee_numerator fees.owner_trade_fee_numerator
      && (fees.owner_trade_fee_denominator == least.owner_trade_fee_denominator)
      && leb least.owner_withdraw_fee_numerator fees.owner_withdraw_fee_numerator
      && (fees.owner_withdraw_fee_denominator == least.owner_withdraw_fee_denominator)
      && (fees.host_fee_numerator == least.host_fee_numerator)
      && (fees.host_fee_denominator == least.host_fee_denominator)
    then ok tt
    else err invalid_fee

-- `FEES` of the feature `production`.
abbrev pub production_fees : Fees
production_fees = record {
  trade_fee_numerator = 1;
  trade_fee_denominator = 10_000;
  owner_trade_fee_numerator = 0;
  owner_trade_fee_denominator = 10_000;
  owner_withdraw_fee_numerator = 0;
  owner_withdraw_fee_denominator = 0;
  host_fee_numerator = 0;
  host_fee_denominator = 0;
}

-- `SWAP_CONSTRAINTS`, with and without the feature `production`.
unfoldable pub swap_constraints : Bool → Option SwapConstraints
swap_constraints true =
    some (record { valid_curve_types = constant_product ∷ []; fees = production_fees })
swap_constraints false = none
