-- ===== src/Curve/ConstantProduct/Invariant.antt =====
-- The product of the reserves never falls under `swap`, exact input.
use rome_dex.Base.{ℕ, ◌+◌, ◌-◌, ◌*◌, ◌≤◌, ◌<◌, ◌≡◌, inl, inr, some, Option-cases, arith}
use rome_dex.Curve.SplMath.{SplMath, CeilDivLaws}
use rome_dex.Curve.Calculator.{SwapWithoutFeesResult, map_zero_to_none}
use rome_dex.Curve.ConstantProduct.{swap}

-- What an exchange against reserves `source` and `destination` may do: the pool takes in no more than
-- was offered, pays out at least one token and no more than it has, and keeps the product.
pub record KeepsProduct (offered source destination : ℕ) (r : SwapWithoutFeesResult) : Type 0 where
  pub takes : r.source_amount_swapped ≤ offered
  pub pays : 0 < r.destination_amount_swapped
  pub covered : r.destination_amount_swapped ≤ destination
  pub product :
      source * destination
      ≤ (source + r.source_amount_swapped) * (destination - r.destination_amount_swapped)

keep_product :
    (source destination new_destination new_source taken paid : ℕ)
    → source ≤ new_source
    → taken ≡ new_source - source
    → new_destination < destination
    → paid ≡ destination - new_destination
    → source * destination ≤ new_destination * new_source
    → source * destination ≤ (source + taken) * (destination - paid)
keep_product source destination new_destination new_source taken paid h e k f product =
    let total : source + taken ≡ new_source = omega arith in
    let left : destination - paid ≡ new_destination = omega arith in rw (total, left) (omega arith)

-- What a successful `swap` computed: the new reserve of the destination, and that of the source.
swap_steps :
    (math : SplMath) (offered source destination : ℕ) {r : SwapWithoutFeesResult}
    → swap math offered source destination ≡ some r
    → (p : ℕ × ℕ) × (math.checked_ceil_div (source * destination) (source + offered) ≡ some p)
      × (source ≤ p.1)
      × (r.source_amount_swapped ≡ p.1 - source)
      × (p.0 < destination)
      × (r.destination_amount_swapped ≡ destination - p.0)
unfolding swap map_zero_to_none
swap_steps math offered source destination h =
    elim (Option-cases (math.checked_ceil_div (source * destination) (source + offered))) [
      | inl e ↦ ground arith
      | inr (p, e) ↦ (p, e, ground arith, ground arith, ground arith, ground arith)
    ]

module _ (math : SplMath) (laws : CeilDivLaws math) where
  -- A successful exchange keeps the product of the reserves, takes no more than was offered, and pays
  -- out at least one token.
  pub swap-KeepsProduct :
      (offered source destination : ℕ) {r : SwapWithoutFeesResult}
      → swap math offered source destination ≡ some r
      → KeepsProduct offered source destination r
  swap-KeepsProduct offered source destination {r} h =
      let (p, e, enough, source_eq, less, destination_eq) =
        swap_steps math offered source destination {r = r} h in
      let (product, smaller) = laws.adjusts (source * destination) (source + offered) p.0 p.1 e in
      record {
        takes = omega arith;
        pays = omega arith;
        covered = omega arith;
        product =
            keep_product source destination p.0 p.1 _ _ enough source_eq less destination_eq
              product;
      }
