-- ===== src/Curve/ConstantProduct/ExactOut.antt =====
-- `swap_to_exact_out` charges the least input that keeps the product.
use rome_dex.Base.{
  ℕ, ◌+◌, ◌-◌, ◌*◌, ◌≤◌, ◌<◌, ◌≡◌, zero, suc, refl, inl, inr, some, Option-cases, arith,
}
use rome_dex.Curve.SplMath.{SplMath, CeilDivLaws}
use rome_dex.Curve.Calculator.{SwapWithoutFeesResult, map_zero_to_none}
use rome_dex.Curve.ConstantProduct.{swap_to_exact_out}

pub record ExactOut (wanted source destination : ℕ) (r : SwapWithoutFeesResult) : Type 0 where
  pub delivers : r.destination_amount_swapped ≡ wanted
  pub leaves : wanted < destination
  pub charges : 0 < r.source_amount_swapped
  pub product : source * destination ≤ (source + r.source_amount_swapped) * (destination - wanted)
  pub least : (source + r.source_amount_swapped - 1) * (destination - wanted) < source * destination

-- What a successful `swap_to_exact_out` computed.
exact_out_steps :
    (math : SplMath) (wanted source destination : ℕ) {r : SwapWithoutFeesResult}
    → swap_to_exact_out math wanted source destination ≡ some r
    → (p : ℕ × ℕ) × (math.checked_ceil_div (source * destination) (destination - wanted) ≡ some p)
      × (wanted < destination)
      × (source < p.0)
      × (r.source_amount_swapped ≡ p.0 - source)
      × (r.destination_amount_swapped ≡ wanted)
unfolding swap_to_exact_out map_zero_to_none
exact_out_steps math wanted source destination h =
    elim (Option-cases (math.checked_ceil_div (source * destination) (destination - wanted))) [
      | inl e ↦ ground arith
      | inr (p, e) ↦ (p, e, ground arith, ground arith, ground arith, ground arith)
    ]

least_input :
    (left wanted source destination new_source taken : ℕ)
    → left ≡ destination - wanted
    → source < new_source
    → taken ≡ new_source - source
    → new_source * left < source * destination + left
    → (source + taken - 1) * left < source * destination
least_input left wanted source destination (suc k) taken e h f k' = grind arith
least_input left wanted source destination zero taken e h f k' = absurd (omega arith)

module _ (math : SplMath) (laws : CeilDivLaws math) where
  -- A successful exact-output exchange on the constant product delivers exactly the wanted amount, which
  -- is less than the reserve; it charges more than nothing; the product of the reserves does not fall; and
  -- with one token less of input the product would fall.
  -- Condition: `spl_math` keeps `CeilDivLaws`.
  pub swap_to_exact_out-ExactOut :
      (wanted source destination : ℕ) {r : SwapWithoutFeesResult}
      → swap_to_exact_out math wanted source destination ≡ some r
      → ExactOut wanted source destination r
  swap_to_exact_out-ExactOut wanted source destination {r} h =
      let (p, e, less, more, source_eq, destination_eq) =
        exact_out_steps math wanted source destination {r = r} h in
      let (up, tight) = laws.rounds_up (source * destination) (destination - wanted) p.0 p.1 e in
      record {
        delivers = destination_eq;
        leaves = less;
        charges = omega arith;
        product = let total : source + r.source_amount_swapped ≡ p.0 = omega arith in rw total up;
        least =
            least_input (destination - wanted) wanted source destination p.0 _ refl more source_eq
              tight;
      }
