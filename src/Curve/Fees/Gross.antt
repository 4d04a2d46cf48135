-- ===== src/Curve/Fees/Gross.antt =====
-- The gross amount against the net amount: at least it, unless the fees take everything.
use rome_dex.Base.{ℕ, ◌+◌, ◌-◌, ◌*◌, ◌≤◌, ◌<◌, ◌≡◌, ◌⊎◌, some, arith}
use rome_dex.Base.Arith.{mul_pos, mul_mono, le-of_mul_lt}
use rome_dex.Curve.Fees.{Fees, pre_fee_amount, pre_trading_fee_amount}
use rome_dex.Curve.Fees.Bounds.{IsFraction}
use rome_dex.Curve.Fees.Inverse.{pre_trading_fee_amount_both, ceil_div_lem}

-- The two fees of an exchange take less than the whole amount: each is a fraction, and where both are
-- charged they add up to less than one.
abbrev pub TakesLessThanAll : Fees → Type 0
TakesLessThanAll fees =
    IsFraction fees.trade_fee_numerator fees.trade_fee_denominator
    × IsFraction fees.owner_trade_fee_numerator fees.owner_trade_fee_denominator
    × ((fees.trade_fee_numerator ≡ 0)
        ⊎ (fees.owner_trade_fee_numerator ≡ 0)
        ⊎ (fees.trade_fee_numerator * fees.owner_trade_fee_denominator
              + fees.owner_trade_fee_numerator * fees.trade_fee_denominator
            < fees.trade_fee_denominator * fees.owner_trade_fee_denominator))

gross-ge : (post num den pre : ℕ) → num < den → post * den ≤ pre * (den - num) → post ≤ pre
gross-ge post num den pre h g =
    le-of_mul_lt post pre den (grind (arith, mul_mono pre pre (den - num) den))

pre_fee_amount-ge :
    (post num den : ℕ) {pre : ℕ}
    → IsFraction num den
    → pre_fee_amount post num den ≡ some pre
    → post ≤ pre
unfolding pre_fee_amount
pre_fee_amount-ge post num den {pre} h e =
    ground (arith, ceil_div_lem (post * den) (den - num) {q = pre}, gross-ge post num den pre)

pub pre_trading_fee_amount-ge :
    (fees : Fees) (post : ℕ) {pre : ℕ}
    → TakesLessThanAll fees
    → pre_trading_fee_amount fees post ≡ some pre
    → post ≤ pre
unfolding pre_trading_fee_amount
pre_trading_fee_amount-ge fees post {pre} h e = ground (
  arith,
  pre_fee_amount-ge post fees.trade_fee_numerator fees.trade_fee_denominator {pre = pre},
  pre_fee_amount-ge post fees.owner_trade_fee_numerator fees.owner_trade_fee_denominator
      {pre = pre},
  pre_fee_amount-ge post
      (fees.trade_fee_numerator * fees.owner_trade_fee_denominator
        + fees.owner_trade_fee_numerator * fees.trade_fee_denominator)
      (fees.trade_fee_denominator * fees.owner_trade_fee_denominator) {pre = pre},
)

-- The gross amount at a fee of everything.
pre_fee_amount_whole :
    (post num den : ℕ) {pre : ℕ}
    → num ≡ den
    → 0 < den
    → pre_fee_amount post num den ≡ some pre
    → pre ≡ 0
unfolding pre_fee_amount
pre_fee_amount_whole post num den h k e = ground arith

-- Two charged fees that add up to exactly one make every gross amount zero.
pub pre_trading_fee_amount_whole :
    (fees : Fees) (post : ℕ) {pre : ℕ}
    → 0 < fees.trade_fee_numerator
    → fees.trade_fee_numerator < fees.trade_fee_denominator
    → 0 < fees.owner_trade_fee_numerator
    → fees.owner_trade_fee_numerator < fees.owner_trade_fee_denominator
    → fees.trade_fee_numerator * fees.owner_trade_fee_denominator
        + fees.owner_trade_fee_numerator * fees.trade_fee_denominator
      ≡ fees.trade_fee_denominator * fees.owner_trade_fee_denominator
    → pre_trading_fee_amount fees post ≡ some pre
    → pre ≡ 0
pre_trading_fee_amount_whole fees post h1 k1 h2 k2 whole e =
    pre_fee_amount_whole post _ _ whole
      (mul_pos fees.trade_fee_denominator fees.owner_trade_fee_denominator (omega arith)
        (omega arith))
      (pre_trading_fee_amount_both fees post h1 k1 h2 k2 e)
