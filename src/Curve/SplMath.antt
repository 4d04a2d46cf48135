-- ===== src/Curve/SplMath.antt =====
-- What the curves use of the crate `spl_math`: `checked_ceil_div`, `PreciseNumber` and `U256`. The crate
-- is not part of the repository, so it is a parameter of the curves.
use rome_dex.Base.{ℕ, ◌+◌, ◌*◌, ◌≤◌, ◌<◌, ◌≡◌, Option, some}

pub record SplMath : Type 1 where
  -- `u128::checked_ceil_div`: the quotient rounded up, and the divisor adjusted to it.
  pub checked_ceil_div : ℕ → ℕ → Option (ℕ × ℕ)
  pub PreciseNumber : Type 0
  pub new : ℕ → Option PreciseNumber
  pub to_imprecise : PreciseNumber → Option ℕ
  pub checked_add : PreciseNumber → PreciseNumber → Option PreciseNumber
  pub checked_sub : PreciseNumber → PreciseNumber → Option PreciseNumber
  pub checked_mul : PreciseNumber → PreciseNumber → Option PreciseNumber
  pub checked_div : PreciseNumber → PreciseNumber → Option PreciseNumber
  pub sqrt : PreciseNumber → Option PreciseNumber
  pub floor : PreciseNumber → Option PreciseNumber
  pub ceiling : PreciseNumber → Option PreciseNumber
  -- `PreciseNumber::new(0).unwrap()`
  pub zero_number : PreciseNumber
  pub u256_checked_mul : ℕ → ℕ → Option ℕ
  pub u256_checked_add : ℕ → ℕ → Option ℕ
  pub u256_checked_div : ℕ → ℕ → Option ℕ
  pub u256_checked_ceil_div : ℕ → ℕ → Option (ℕ × ℕ)
  -- `U256::as_u128`. The crate panics from 2 ^ 128 on, which is left out here; no theorem is about it.
  pub as_u128 : ℕ → ℕ

-- The documented behaviour of `checked_ceil_div` that the exchange relies on: a quotient rounded up by
-- less than one, and a divisor, no larger than the given one, that still reaches the dividend.
pub record CeilDivLaws (math : SplMath) : Type 0 where
  pub rounds_up :
      (n d q r : ℕ) → math.checked_ceil_div n d ≡ some (q, r) → (n ≤ q * d) × (q * d < n + d)
  pub adjusts : (n d q r : ℕ) → math.checked_ceil_div n d ≡ some (q, r) → (n ≤ q * r) × (r ≤ d)
