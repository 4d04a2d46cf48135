-- ===== src/Base/Words.antt =====
-- Rust's unsigned integers: a number below 2 ^ w, with the operations of the standard library.
use rome_dex.Base.Tests.{ltb, leb, ◌==◌, if◌then◌else◌}
use Prim.Native.Nat.{ℕ, ◌+◌, ◌-◌, ◌*◌, ◌/◌, ◌%◌, ◌^◌, ◌<◌}
use mathlib.Core.Option.{Option, none, some}

abbrev pub IsU16 : ℕ → Type 0
IsU16 x = x < 2 ^ 16

abbrev pub IsU64 : ℕ → Type 0
IsU64 x = x < 2 ^ 64

abbrev pub IsU128 : ℕ → Type 0
IsU128 x = x < 2 ^ 128

-- A value that must stay below `bound`, as `checked_add`, `checked_mul` and `try_from` test it.
abbrev pub fits : ℕ → ℕ → Option ℕ
fits bound x = if ltb x bound then some x else none

-- `checked_sub`, the same at every width.
abbrev pub checked_sub : ℕ → ℕ → Option ℕ
checked_sub a b = if leb b a then some (a - b) else none

-- `checked_div` and `checked_rem`
abbrev pub checked_div : ℕ → ℕ → Option ℕ
checked_div a b = if b == 0 then none else some (a / b)

abbrev pub checked_rem : ℕ → ℕ → Option ℕ
checked_rem a b = if b == 0 then none else some (a % b)

abbrev pub checked_add_u64 : ℕ → ℕ → Option ℕ
checked_add_u64 a b = fits (2 ^ 64) (a + b)

abbrev pub checked_add_u128 : ℕ → ℕ → Option ℕ
checked_add_u128 a b = fits (2 ^ 128) (a + b)

abbrev pub checked_mul_u128 : ℕ → ℕ → Option ℕ
checked_mul_u128 a b = fits (2 ^ 128) (a * b)

-- `u64::try_from`
abbrev pub to_u64 : ℕ → Option ℕ
to_u64 x = fits (2 ^ 64) x

-- `wrapping_sub` on a u128
abbrev pub wrapping_sub_u128 : ℕ → ℕ → ℕ
wrapping_sub_u128 a b = (a + 2 ^ 128 - b) % 2 ^ 128

-- `a.div_ceil(b)` for a nonzero `b`
abbrev pub div_ceil : ℕ → ℕ → ℕ
div_ceil a b = if a % b == 0 then a / b else a / b + 1
