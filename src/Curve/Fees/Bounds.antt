-- ===== src/Curve/Fees/Bounds.antt =====
-- Fees never exceed the amount that they are taken from, once the schedule passed `validate`.
use rome_dex.Base.{
  ℕ, ◌*◌, ◌/◌, ◌^◌, ◌≤◌, ◌<◌, ◌≡◌, ◌⊎◌, some, ok, arith, ◌||◌, ◌==◌, if◌then◌else◌, ◌-◌,
}
use rome_dex.Base.Words.{IsU64}
use rome_dex.Base.Arith.{div-le, mul_mono}
use rome_dex.Curve.Fees.{at_least_one, calculate_fee, validate_fraction}

-- A fraction that `validate_fraction` lets pass.
abbrev pub IsFraction : ℕ → ℕ → Type 0
IsFraction num den = ((num ≡ 0) × (den ≡ 0)) ⊎ (num < den)

pub validate_fraction_lem : (num den : ℕ) → validate_fraction num den ≡ ok tt → IsFraction num den
unfolding validate_fraction
validate_fraction_lem num den h = ground arith

-- The fee of a fraction that validation lets pass never exceeds the amount.
pub calculate_fee-le :
    (amount num den : ℕ) {fee : ℕ}
    → IsFraction num den
    → calculate_fee amount num den ≡ some fee
    → fee ≤ amount
unfolding calculate_fee
calculate_fee-le amount num den f h = ground (arith, div-le amount num den)

-- On an amount and a numerator of 64 bits, the fee of a fraction that validation lets pass is always
-- computed: the product stays below 2 ^ 128 and the denominator is not zero.
pub calculate_fee_total :
    (amount num den : ℕ)
    → IsFraction num den
    → IsU64 amount
    → IsU64 num
    → (fee : ℕ) × (calculate_fee amount num den ≡ some fee)
unfolding calculate_fee
calculate_fee_total amount num den f ha hn = (
  if num == 0 || amount == 0 then 0 else at_least_one (amount * num / den),
  ground (arith, mul_mono amount (2 ^ 64 - 1) num (2 ^ 64 - 1)),
)
