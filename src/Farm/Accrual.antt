-- ===== src/Farm/Accrual.antt =====
-- The accumulator of a farm: how it grows, and that the rate cap keeps it from ever overflowing.
use rome_dex.Base.{
  ℕ, ◌+◌, ◌-◌, ◌*◌, ◌/◌, ◌^◌, ◌≤◌, ◌<◌, ◌≡◌, ◌⊎◌, refl, ok, inl, inr, arith, ap, ◌∙◌,
}
use rome_dex.Base.Arith.{mul_mono, div-le_self}
use rome_dex.Base.Int.{ℤ, pos, ◌≤ℤ◌, ◌-ℤ◌}
use native.Mathlib.Decide.{dec_lt}
use rome_dex.Farm.State.{Farm, acc_precision, max_reward_per_second, grown, accrue}

-- What an update leaves alone, and the directions of what it moves.
pub record Accrues (farm farm' : Farm) (now : ℤ) : Type 0 where
  pub same_rate : farm'.reward_per_second ≡ farm.reward_per_second
  pub same_stake : farm'.total_staked ≡ farm.total_staked
  pub grows : farm.acc_reward_per_share ≤ farm'.acc_reward_per_share
  pub later : farm.last_update_ts ≤ℤ farm'.last_update_ts
  pub reaches : now ≤ℤ farm'.last_update_ts

-- An update of a farm that succeeds leaves the rate and the total staked alone, never lowers the
-- accumulator, never sets the clock back, and leaves it at the given time or later.
pub accrue-Accrues :
    (farm : Farm) (now : ℤ) {farm' : Farm} → accrue farm now ≡ ok farm' → Accrues farm farm' now
unfolding accrue
accrue-Accrues farm now {farm'} e = ground arith

-- Timestamps are seconds since 1970; 2 ^ 58 of them are nine thousand million years.
pub record IsCapped (farm : Farm) (t : ℕ) : Type 0 where
  pub rate : farm.reward_per_second ≤ max_reward_per_second
  pub clock : farm.last_update_ts ≡ pos t
  pub early : t ≤ 2 ^ 58
  pub acc : farm.acc_reward_per_share ≤ t * (max_reward_per_second * acc_precision)

-- The reward of `elapsed` seconds at a capped rate.
reward-le :
    (elapsed rate : ℕ)
    → rate ≤ max_reward_per_second
    → elapsed * rate * acc_precision ≤ elapsed * (max_reward_per_second * acc_precision)
reward-le elapsed rate h = grind (arith, mul_mono elapsed elapsed rate max_reward_per_second)

grown_lem :
    (farm : Farm) (elapsed : ℕ)
    → farm.reward_per_second ≤ max_reward_per_second
    → farm.acc_reward_per_share + elapsed * (max_reward_per_second * acc_precision) < 2 ^ 128
    → grown farm elapsed
      ≡ ok (
          farm.acc_reward_per_share
          + elapsed * farm.reward_per_second * acc_precision / farm.total_staked)
unfolding grown
grown_lem farm elapsed h k = ground (
  arith,
  reward-le elapsed farm.reward_per_second,
  div-le_self (elapsed * farm.reward_per_second * acc_precision) farm.total_staked,
)

idle_or_growing :
    (farm : Farm)
    → ((farm.total_staked ≡ 0) ⊎ (farm.reward_per_second ≡ 0))
      ⊎ (0 < farm.total_staked) × (0 < farm.reward_per_second)
idle_or_growing farm = omega arith

-- The steps of `accrue` when time has passed.
accrue_growing :
    (farm : Farm) (t now acc : ℕ)
    → farm.last_update_ts ≡ pos t
    → t < now
    → now ≤ 2 ^ 58
    → 0 < farm.total_staked
    → 0 < farm.reward_per_second
    → grown farm (now - t) ≡ ok acc
    → accrue farm (pos now)
      ≡ ok (record farm { acc_reward_per_share = acc; last_update_ts = pos now })
unfolding accrue ◌-ℤ◌
accrue_growing farm t now acc clock h k staked rate e = ground arith

accrue_idle :
    (farm : Farm) (t now : ℕ)
    → farm.last_update_ts ≡ pos t
    → t < now
    → (farm.total_staked ≡ 0) ⊎ (farm.reward_per_second ≡ 0)
    → accrue farm (pos now) ≡ ok (record farm { last_update_ts = pos now })
unfolding accrue
accrue_idle farm t now clock h idle = ground arith

accrue_past :
    (farm : Farm) (t now : ℕ)
    → farm.last_update_ts ≡ pos t
    → now ≤ t
    → accrue farm (pos now) ≡ ok farm
unfolding accrue
accrue_past farm t now clock h = ground arith

-- Under the rate cap, and for timestamps up to 2 ^ 58 seconds, `accrue` always succeeds, whatever is
-- staked, and keeps the bound on the accumulator from which the next call succeeds too.
pub accrue_total :
    (farm : Farm) (t now : ℕ)
    → IsCapped farm t
    → t ≤ now
    → now ≤ 2 ^ 58
    → (farm' : Farm) × (accrue farm (pos now) ≡ ok farm') × IsCapped farm' now
accrue_total farm t now c h k = elim (dec_lt t now) [
  | no same ↦ (
    farm,
    accrue_past farm t now c.clock (omega arith),
    record { rate = c.rate; clock = c.clock ∙ ap pos (omega arith); early = k; acc = omega arith },
  )
  | yes later ↦ elim (idle_or_growing farm) [
    | inl idle ↦ (
      record farm { last_update_ts = pos now },
      accrue_idle farm t now c.clock later idle,
      record { rate = c.rate; clock = refl; early = k; acc = omega arith },
    )
    | inr (staked, rate) ↦
        let acc =
          farm.acc_reward_per_share
          + (now - t) * farm.reward_per_second * acc_precision / farm.total_staked in
        let reward = reward-le (now - t) farm.reward_per_second c.rate in
        let share =
          div-le_self ((now - t) * farm.reward_per_second * acc_precision) farm.total_staked in
        let e = grown_lem farm (now - t) c.rate (omega (arith, c.acc)) in
        (
          record farm { acc_reward_per_share = acc; last_update_ts = pos now },
          accrue_growing farm t now acc c.clock later k staked rate e,
          record { rate = c.rate; clock = refl; early = k; acc = omega (arith, c.acc) },
        )
  ]
]
