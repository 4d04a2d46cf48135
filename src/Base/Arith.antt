-- ===== src/Base/Arith.antt =====
-- Nonlinear facts on the native numbers that the components share.
use Prim.Native.Nat.{ℕ, suc, ◌+◌, ◌-◌, ◌*◌, ◌/◌, ◌≤◌, ◌<◌}
use mathlib.Core.Path.{◌≡◌, ap₂, ◌∙◌}
use native.Mathlib.Omega.{arith}
use native.Mathlib.Nat.{mul_comm, mul-sub}

pub mul_mono : (a b c d : ℕ) → a ≤ b → c ≤ d → a * c ≤ b * d
mul_mono a b c d h k = grind arith

pub le-of_mul_lt : (a b c : ℕ) → a * c < suc b * c → a ≤ b
le-of_mul_lt a b c h = grind arith

pub div-le : (a n d : ℕ) → n ≤ d → a * n / d ≤ a
div-le a n d h = grind arith

pub div-mul-le : (a d : ℕ) → a / d * d ≤ a
div-mul-le a d = grind arith

pub lt-div_suc : (a d : ℕ) → 0 < d → a < (a / d + 1) * d
lt-div_suc a d h = grind arith

pub le-div : (q a d : ℕ) → 0 < d → q * d ≤ a → q ≤ a / d
le-div q a d h k = grind arith

pub div-lt : (q a d : ℕ) → 0 < d → a < q * d → a / d < q
div-lt q a d h k = grind arith

pub mul_pos : (a b : ℕ) → 0 < a → 0 < b → 0 < a * b
mul_pos a b h k = grind arith

pub lt-of_mul_lt : (a b c : ℕ) → a * c < b * c → a < b
lt-of_mul_lt a b c h = grind arith

pub sub_mul : (a b c : ℕ) → (a - b) * c ≡ a * c - b * c
sub_mul a b c = mul_comm (a - b) c ∙ mul-sub c a b ∙ ap₂ ◌-◌ (mul_comm c a) (mul_comm c b)

pub div-le_self : (a d : ℕ) → a / d ≤ a
div-le_self a d = grind arith
