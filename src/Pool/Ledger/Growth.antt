-- ===== src/Pool/Ledger/Growth.antt =====
-- Trading on the constant product curve never costs the liquidity providers: the product of the reserves
-- without the fee counters.
use rome_dex.Base.{ℕ, ◌+◌, ◌-◌, ◌*◌, ◌≤◌, ◌≡◌, some, ok, arith}
use rome_dex.Base.Arith.{mul_mono, sub_mul}
use native.Mathlib.Nat.{mul_comm}
use rome_dex.Curve.SplMath.{SplMath, CeilDivLaws}
use rome_dex.Curve.Calculator.{TradeDirection, a_to_b, b_to_a}
use rome_dex.Curve.Fees.{Fees}
use rome_dex.Curve.SwapCurve.{SwapResult, swap}
use rome_dex.Curve.SwapCurve.Dispatch.{product}
use rome_dex.Curve.SwapCurve.Exchange.{swap-keeps_fees}
use rome_dex.Pool.Counters.{lp_owned}
use rome_dex.Pool.Ledger.{Ledger, owned, Trade, swapped, collected, Trades, idle, trade}

-- The product of what the liquidity providers own.
unfoldable pub lp_product : Ledger → ℕ
lp_product l = (l.vault_a - l.fees_a) * (l.vault_b - l.fees_b)

grown :
    (before news newd trade_fee owner_fee after : ℕ)
    → before + (trade_fee + owner_fee) * newd ≤ news * newd
    → news - owner_fee ≤ after
    → before ≤ after * newd
grown before news newd trade_fee owner_fee after h more =
    let part = sub_mul news owner_fee newd in
    let big = mul_mono (news - owner_fee) after newd newd more (omega arith) in
    let both = mul_mono owner_fee (trade_fee + owner_fee) newd newd (omega arith) (omega arith) in
    omega (arith, part, big, both)

le_refl : (n : ℕ) → n ≤ n
le_refl n = omega arith

module _ (math : SplMath) (laws : CeilDivLaws math) (fees : Fees) where
  -- One swap, from the vault and the counter of each side.
  side_grows :
      (direction : TradeDirection)
      (offered lp_source lp_dest received vault_in fees_in vault_out fees_out : ℕ) (r : SwapResult)
      → lp_owned vault_in fees_in ≡ ok lp_source
      → lp_owned vault_out fees_out ≡ ok lp_dest
      → swap math product offered lp_source lp_dest direction fees ≡ some r
      → r.source_amount_swapped ≤ received
      → (vault_in - fees_in) * (vault_out - fees_out)
        ≤ (vault_in + received - (fees_in + r.owner_fee))
          * (vault_out - r.destination_amount_swapped - fees_out)
  side_grows direction offered lp_source lp_dest received vault_in fees_in vault_out fees_out r
        source dest answer more =
      let (source_in, source_is) = owned vault_in fees_in source in
      let (dest_in, dest_is) = owned vault_out fees_out dest in
      let (balances, _, _, _, keeps) =
        swap-keeps_fees math laws offered lp_source lp_dest direction fees {r = r} answer in
      let into = balances.source_in in
      let out = balances.destination_out in
      let left : vault_out - r.destination_amount_swapped - fees_out
          ≡ r.new_swap_destination_amount =
        omega arith in
      let more' : r.new_swap_source_amount - r.owner_fee
          ≤ vault_in + received - (fees_in + r.owner_fee) =
        omega arith in
      rw (left, ← source_is, ← dest_is)
        (grown (lp_source * lp_dest) r.new_swap_source_amount r.new_swap_destination_amount
          r.trade_fee r.owner_fee (vault_in + received - (fees_in + r.owner_fee)) keeps more')

  one_grows : {l next : Ledger} → Trade math product fees l next → lp_product l ≤ lp_product next
  unfolding lp_product
  one_grows (swapped l a_to_b offered lp_source lp_dest received r source dest answer more) =
      side_grows a_to_b offered lp_source lp_dest received l.vault_a l.fees_a l.vault_b l.fees_b r
        source dest answer more
  one_grows (swapped l b_to_a offered lp_source lp_dest received r source dest answer more) =
      omega (
        arith,
        side_grows b_to_a offered lp_source lp_dest received l.vault_b l.fees_b l.vault_a l.fees_a r
            source dest answer more,
        mul_comm (l.vault_a - l.fees_a) (l.vault_b - l.fees_b),
        mul_comm (l.vault_a - r.destination_amount_swapped - l.fees_a)
            (l.vault_b + received - (l.fees_b + r.owner_fee)),
      )
  one_grows (collected l) = mul_mono _ _ _ _ (omega arith) (omega arith)

  -- Through any sequence of exact-in swaps, in both directions, and of fee collections on the constant
  -- product curve, the product of the reserves that the liquidity providers own never falls, whatever
  -- the fee schedule is.
  -- Conditions: `spl_math` keeps `CeilDivLaws`, and a vault receives at least what the curve counts.
  pub lp_product_grows :
      {first last : Ledger}
      → Trades math product fees first last
      → lp_product first ≤ lp_product last
  lp_product_grows (idle l) = le_refl _
  lp_product_grows (trade past t) = omega (arith, lp_product_grows past, one_grows t)
