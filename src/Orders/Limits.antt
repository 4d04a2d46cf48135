-- ===== src/Orders/Limits.antt =====
-- The numbers of one execution: the split of a tranche, its floor, and when it is due
-- (orders/src/state.rs).
use rome_dex.Base.{
  ℕ, ◌+◌, ◌-◌, ◌*◌, ◌/◌, ◌^◌, ◌≤◌, ◌<◌, ◌≡◌, refl, ok, leb, arith, Bool-cases, leb→le, inl, inr,
}
use rome_dex.Base.Arith.{mul_mono, le-of_mul_lt}
use rome_dex.Base.Words.{IsU64, div_ceil}
use rome_dex.Base.Int.{ℤ, pos, pos_part, leb_ℤ, ◌+ℤ◌}
use rome_dex.Solana.Codec.{IsI64}
use rome_dex.Orders.State.{
  Order, dca_ready, effective_min_out, split_output, max_keeper_fee_bps, max_interval_secs,
  bps_denom,
}

split_output_at :
    (tranche bps fee : ℕ)
    → tranche * bps < 2 ^ 128
    → fee ≡ tranche * bps / bps_denom
    → fee ≤ tranche
    → IsU64 tranche
    → split_output tranche bps ≡ ok (fee, tranche - fee)
unfolding split_output
split_output_at tranche bps fee fits e h bounded = ground arith

split_bounds :
    (tranche bps fee : ℕ)
    → tranche * bps ≤ tranche * 50
    → fee ≡ tranche * bps / bps_denom
    → (fee * bps_denom ≤ tranche * bps)
      × (tranche * bps < (fee + 1) * bps_denom)
      × (fee * 200 ≤ tranche)
split_bounds tranche bps fee share e = (omega arith, omega arith, omega arith)

-- For a tranche of 64 bits and a fee at most the cap the split succeeds; the parts add up to the tranche;
-- the fee is the share of the tranche rounded down; and it is at most half a percent of the tranche.
pub split_output_lem :
    (tranche bps : ℕ)
    → IsU64 tranche
    → bps ≤ max_keeper_fee_bps
    → (fee swap_in : ℕ) × (split_output tranche bps ≡ ok (fee, swap_in))
      × (fee + swap_in ≡ tranche)
      × (fee * bps_denom ≤ tranche * bps)
      × (tranche * bps < (fee + 1) * bps_denom)
      × (fee * 200 ≤ tranche)
split_output_lem tranche bps h small =
    let share = mul_mono tranche tranche bps 50 (omega arith) small in
    let fee = tranche * bps / bps_denom in
    let (low, high, capped) = split_bounds tranche bps fee share refl in
    (
      fee,
      tranche - fee,
      split_output_at tranche bps fee (omega (arith, share)) refl (omega (arith, capped)) h,
      omega (arith, capped),
      low,
      high,
      capped,
    )

-- The least number whose product with `b` reaches `a`.
ceil_bounds : (a b : ℕ) → 1 ≤ b → (a ≤ div_ceil a b * b) × (div_ceil a b * b < a + b)
ceil_bounds a b h = grind arith

effective_min_out-whole :
    (order : Order) (used : ℕ)
    → order.tranche_in ≤ used
    → effective_min_out order used ≡ ok order.min_out_per_tranche
unfolding effective_min_out
effective_min_out-whole order used h = ground arith

effective_min_out-part :
    (order : Order) (used : ℕ)
    → used < order.tranche_in
    → order.min_out_per_tranche * used < 2 ^ 128
    → IsU64 (div_ceil (order.min_out_per_tranche * used) order.tranche_in)
    → effective_min_out order used
      ≡ ok (div_ceil (order.min_out_per_tranche * used) order.tranche_in)
unfolding effective_min_out
effective_min_out-part order used h fits fits' = ground arith

-- A share of at most the whole, rounded up, is at most the whole.
ceil-le : (a b u : ℕ) → 1 ≤ b → u ≤ b → div_ceil (a * u) b ≤ a
ceil-le a b u h k =
    let (low, high) = ceil_bounds (a * u) b h in
    le-of_mul_lt (div_ceil (a * u) b) a b (omega (arith, mul_mono a a u b (omega arith) k, high))

product_fits : (a b : ℕ) → IsU64 a → IsU64 b → a * b < 2 ^ 128
product_fits a b h k =
    omega (arith, mul_mono a (2 ^ 64 - 1) b (2 ^ 64 - 1) (omega arith) (omega arith))

-- For a tranche that fits the order and a floor of 64 bits there is a floor of the tranche: it is the
-- least output that pays at least the price of the whole tranche, and at most the floor of that.
pub effective_min_out_lem :
    (order : Order) (used : ℕ)
    → 1 ≤ order.tranche_in
    → used ≤ order.tranche_in
    → IsU64 order.tranche_in
    → IsU64 order.min_out_per_tranche
    → (floor : ℕ) × (effective_min_out order used ≡ ok floor)
      × (order.min_out_per_tranche * used ≤ floor * order.tranche_in)
      × (floor * order.tranche_in < order.min_out_per_tranche * used + order.tranche_in)
      × (floor ≤ order.min_out_per_tranche)
effective_min_out_lem order used positive within tranche_fits min_fits =
    elim (Bool-cases (leb order.tranche_in used)) [
      | inl e ↦
          let same : used ≡ order.tranche_in = grind (arith, leb→le order.tranche_in used e) in
          (
            order.min_out_per_tranche,
            effective_min_out-whole order used (omega (arith, same)),
            rw same (omega arith),
            rw same (omega arith),
            omega arith,
          )
      | inr e ↦
          let low : used < order.tranche_in = ground arith in
          let fits = product_fits order.min_out_per_tranche used min_fits (omega arith) in
          let (covers, tight) =
            ceil_bounds (order.min_out_per_tranche * used) order.tranche_in positive in
          let bounded = ceil-le order.min_out_per_tranche order.tranche_in used positive within in
          (
            div_ceil (order.min_out_per_tranche * used) order.tranche_in,
            effective_min_out-part order used low fits (omega (arith, bounded)),
            covers,
            tight,
            bounded,
          )
    ]

-- With an interval of at most a year and a last execution at least as far from the end of time, an order
-- is due exactly when the interval has passed.
pub dca_ready_lem :
    (order : Order) (now : ℤ)
    → order.interval_secs ≤ max_interval_secs
    → IsI64 order.last_exec_ts
    → pos_part order.last_exec_ts + max_interval_secs < 2 ^ 63
    → dca_ready order now ≡ leb_ℤ (order.last_exec_ts +ℤ pos order.interval_secs) now
unfolding dca_ready ◌+ℤ◌
dca_ready_lem order now short fits room = ground arith
