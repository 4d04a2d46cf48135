-- ===== src/Curve/SwapCurve/Exchange.antt =====
-- The exchange with fees on top of the constant product: what moves, and what the pool keeps.
use rome_dex.Base.{zero, suc, ℕ, ◌+◌, ◌-◌, ◌*◌, ◌≤◌, ◌<◌, ◌≡◌, inl, inr, some, Option-cases, arith}
use rome_dex.Base.Checked.{>>=-eq-some}
use rome_dex.Curve.SplMath.{SplMath, CeilDivLaws}
use rome_dex.Curve.Calculator.{TradeDirection, SwapWithoutFeesResult}
use rome_dex.Curve.Fees.{Fees, trading_fee, owner_trading_fee, pre_trading_fee_amount}
use rome_dex.Curve.Fees.Gross.{
  TakesLessThanAll, pre_trading_fee_amount-ge, pre_trading_fee_amount_whole,
}
use rome_dex.Base.Arith.{mul_mono}
use rome_dex.Curve.ConstantProduct.Invariant.{swap-KeepsProduct}
use rome_dex.Curve.ConstantProduct.ExactOut.{swap_to_exact_out-ExactOut}
use rome_dex.Curve.SwapCurve.{SwapResult, swap, swap_for_exact_out}
use rome_dex.Curve.SwapCurve.Dispatch.{Calculator, product, swap_without_fees, swap_to_exact_out}

-- The books of an exchange balance: each reserve moves by what was swapped.
pub record Balances (source destination : ℕ) (r : SwapResult) : Type 0 where
  pub source_in : r.new_swap_source_amount ≡ source + r.source_amount_swapped
  pub destination_out : r.new_swap_destination_amount + r.destination_amount_swapped ≡ destination

-- What `swap` computed, for any curve.
pub swap_steps :
    (math : SplMath) (c : Calculator) (offered source destination : ℕ) (direction : TradeDirection)
    (fees : Fees) {r : SwapResult}
    → swap math c offered source destination direction fees ≡ some r
    → (x : SwapWithoutFeesResult) × (swap_without_fees math c
          (offered - (r.trade_fee + r.owner_fee))
          source
          destination
          direction
        ≡ some x)
      × (trading_fee fees offered ≡ some r.trade_fee)
      × (owner_trading_fee fees offered ≡ some r.owner_fee)
      × (r.trade_fee + r.owner_fee ≤ offered)
      × (r.source_amount_swapped ≡ x.source_amount_swapped + (r.trade_fee + r.owner_fee))
      × (r.destination_amount_swapped ≡ x.destination_amount_swapped)
      × Balances source destination r
unfolding swap
swap_steps math c offered source destination direction fees {r} h =
    let (trade, e1, h1) = >>=-eq-some (trading_fee fees offered) _ h in
    let (owner, e2, h2) = >>=-eq-some (owner_trading_fee fees offered) _ h1 in
    elim (Option-cases
      (swap_without_fees math c (offered - (trade + owner)) source destination direction)) [
        | inl e ↦ ground arith
        | inr (x, e) ↦ (
          x,
          ground arith,
          ground arith,
          ground arith,
          ground arith,
          ground arith,
          ground arith,
          ground arith,
        )
      ]

pub exact_out_steps :
    (math : SplMath) (c : Calculator) (wanted source destination : ℕ) (direction : TradeDirection)
    (fees : Fees) {r : SwapResult}
    → swap_for_exact_out math c wanted source destination direction fees ≡ some r
    → (x : SwapWithoutFeesResult) × (swap_to_exact_out math c wanted source destination direction
        ≡ some x)
      × (pre_trading_fee_amount fees x.source_amount_swapped ≡ some r.source_amount_swapped)
      × (trading_fee fees r.source_amount_swapped ≡ some r.trade_fee)
      × (owner_trading_fee fees r.source_amount_swapped ≡ some r.owner_fee)
      × (r.destination_amount_swapped ≡ x.destination_amount_swapped)
      × Balances source destination r
unfolding swap_for_exact_out
exact_out_steps math c wanted source destination direction fees {r} h =
    let (x, e, h1) =
      >>=-eq-some (swap_to_exact_out math c wanted source destination direction) _ h in
    let (gross, e1, h2) = >>=-eq-some (pre_trading_fee_amount fees x.source_amount_swapped) _ h1 in
    let (trade, e2, h3) = >>=-eq-some (trading_fee fees gross) _ h2 in
    let (owner, e3, h4) = >>=-eq-some (owner_trading_fee fees gross) _ h3 in
    (x, e, ground arith, ground arith, ground arith, ground arith, ground arith)

module _ (math : SplMath) (laws : CeilDivLaws math) where
  -- Exact input on the constant product: the reserves move by what is reported, the pool takes no more
  -- than was offered, and the fees stay in the pool on top of the product of the reserves.
  -- Condition: `spl_math` keeps `CeilDivLaws`.
  pub swap-keeps_fees :
      (offered source destination : ℕ) (direction : TradeDirection) (fees : Fees) {r : SwapResult}
      → swap math product offered source destination direction fees ≡ some r
      → Balances source destination r
        × (r.source_amount_swapped ≤ offered)
        × (0 < r.destination_amount_swapped)
        × (r.trade_fee + r.owner_fee ≤ r.source_amount_swapped)
        × (source * destination + (r.trade_fee + r.owner_fee) * r.new_swap_destination_amount
            ≤ r.new_swap_source_amount * r.new_swap_destination_amount)
  unfolding swap_without_fees
  swap-keeps_fees offered source destination direction fees {r} h =
      let (x, e, _, _, fits, source_eq, destination_eq, balances) =
        swap_steps math product offered source destination direction fees {r = r} h in
      let keeps =
        swap-KeepsProduct math laws (offered - (r.trade_fee + r.owner_fee)) source destination
          {r = x} e in
      let left : destination - x.destination_amount_swapped ≡ r.new_swap_destination_amount =
        omega arith in
      let kept : source * destination
          ≤ (source + x.source_amount_swapped) * r.new_swap_destination_amount =
        rw left at keeps.product in
      let total : r.new_swap_source_amount
          ≡ source + x.source_amount_swapped + (r.trade_fee + r.owner_fee) =
        omega arith in
      (balances, omega arith, omega arith, omega arith, rw total (omega arith))

  -- Exact output on the constant product, with fees that take less than the whole amount: the output
  -- is delivered exactly, the reserves move by what is reported, and the product of the reserves does
  -- not fall.
  -- Condition: `spl_math` keeps `CeilDivLaws`.
  pub swap_for_exact_out-keeps :
      (wanted source destination : ℕ) (direction : TradeDirection) (fees : Fees) {r : SwapResult}
      → TakesLessThanAll fees
      → swap_for_exact_out math product wanted source destination direction fees ≡ some r
      → Balances source destination r
        × (r.destination_amount_swapped ≡ wanted)
        × (0 < r.source_amount_swapped)
        × (source * destination ≤ r.new_swap_source_amount * r.new_swap_destination_amount)
  unfolding swap_to_exact_out
  swap_for_exact_out-keeps wanted source destination direction fees {r} below h =
      let (x, e, gross, _, _, destination_eq, balances) =
        exact_out_steps math product wanted source destination direction fees {r = r} h in
      let exact = swap_to_exact_out-ExactOut math laws wanted source destination {r = x} e in
      let more = pre_trading_fee_amount-ge fees x.source_amount_swapped below gross in
      let left : destination - wanted ≡ r.new_swap_destination_amount = omega arith in
      let kept : source * destination
          ≤ (source + x.source_amount_swapped) * r.new_swap_destination_amount =
        rw left at exact.product in
      let delivered : r.destination_amount_swapped ≡ wanted = omega arith in
      (
        balances,
        delivered,
        omega arith,
        omega (
          arith,
          mul_mono (source + x.source_amount_swapped) r.new_swap_source_amount
              r.new_swap_destination_amount r.new_swap_destination_amount (omega arith)
              (omega arith),
        ),
      )

-- An exchange that takes something delivers something.
wanted_positive :
    (wanted source destination taken : ℕ)
    → 0 < taken
    → (source + taken - 1) * (destination - wanted) < source * destination
    → 0 < wanted
wanted_positive zero source destination taken h least = omega (
  arith,
  mul_mono source (source + taken - 1) destination (destination - zero) (omega arith) (omega arith),
)
wanted_positive (suc n) source destination taken h least = omega arith

-- With a trade fee and an owner fee that both pass `validate` and add up to exactly one, an exchange for
-- an exact output on the constant product delivers exactly the wanted amount, which is positive, and
-- takes nothing for it: the source reserve stays as it is and the destination reserve pays.
-- Conditions: the exchange answers, and `spl_math` keeps `CeilDivLaws`.
pub swap_for_exact_out_free :
    (math : SplMath) (laws : CeilDivLaws math) (wanted source destination : ℕ)
    (direction : TradeDirection) (fees : Fees) {r : SwapResult}
    → 0 < fees.trade_fee_numerator
    → fees.trade_fee_numerator < fees.trade_fee_denominator
    → 0 < fees.owner_trade_fee_numerator
    → fees.owner_trade_fee_numerator < fees.owner_trade_fee_denominator
    → fees.trade_fee_numerator * fees.owner_trade_fee_denominator
        + fees.owner_trade_fee_numerator * fees.trade_fee_denominator
      ≡ fees.trade_fee_denominator * fees.owner_trade_fee_denominator
    → swap_for_exact_out math product wanted source destination direction fees ≡ some r
    → (r.source_amount_swapped ≡ 0)
      × (r.destination_amount_swapped ≡ wanted)
      × (0 < wanted)
      × (r.new_swap_source_amount ≡ source)
      × (r.new_swap_destination_amount + wanted ≡ destination)
unfolding swap_to_exact_out
swap_for_exact_out_free math laws wanted source destination direction fees {r} h1 k1 h2 k2 whole h =
    let (x, e, gross, _, _, destination_eq, balances) =
      exact_out_steps math product wanted source destination direction fees {r = r} h in
    let exact = swap_to_exact_out-ExactOut math laws wanted source destination {r = x} e in
    let nothing : r.source_amount_swapped ≡ 0 =
      pre_trading_fee_amount_whole fees x.source_amount_swapped h1 k1 h2 k2 whole gross in
    (
      nothing,
      omega arith,
      wanted_positive wanted source destination _ exact.charges exact.least,
      omega arith,
      omega arith,
    )
