-- ===== src/Examples/Farm.antt =====
-- A farm at concrete numbers: farm/src.
use rome_dex.Base.{ℕ, ◌+◌, ◌-◌, ◌*◌, ◌^◌, ◌≤◌, ◌<◌, ◌≡◌, refl, true, ok, List, [], ◌∷◌, arith}
use rome_dex.Base.Int.{pos, pos_part, ◌-ℤ◌}
use rome_dex.Solana.Bytes.{length, le_bytes}
use rome_dex.Farm.State.{Farm, UserStake, acc_precision, grown, accrue, pending, set_debt}
use rome_dex.Farm.Codec.{
  IsFarm, IsUserStake, pack_farm, pack_user_stake, unpack_farm, unpack-pack_farm,
}
use rome_dex.Farm.Accrual.{Accrues, accrue-Accrues, IsCapped, accrue_total}
use rome_dex.Farm.Rewards.{pending_bounds}
use rome_dex.Farm.Emission.{new_rewards, new_rewards-accrue}

-- 100 tokens a second for 300 staked, at second 1,000 and at second 1,010.
abbrev farm : Farm
farm = record {
  is_initialized = true;
  bump_seed = 254;
  owner = 11;
  lp_mint = 12;
  reward_mint = 13;
  lp_vault = 14;
  token_program = 15;
  reward_per_second = 100;
  last_update_ts = pos 1_000;
  acc_reward_per_share = 5 * 10 ^ 12;
  total_staked = 300;
}

abbrev later : Farm
later = record farm {
  acc_reward_per_share = 5 * 10 ^ 12 + 3_333_333_333_333;
  last_update_ts = pos 1_010;
}

accrue_run : accrue farm (pos 1_010) ≡ ok later
unfolding accrue grown ◌-ℤ◌
accrue_run = refl

abbrev staked : ℕ → ℕ → UserStake
staked amount reward_debt = record {
  is_initialized = true;
  amount = amount;
  reward_debt = reward_debt;
  reward_pending = 7;
}

accrue-Accrues_example : Accrues farm later (pos 1_010)
accrue-Accrues_example = accrue-Accrues farm (pos 1_010) {farm' = later} accrue_run

capped : IsCapped farm 1_000
capped = record { rate = omega arith; clock = refl; early = omega arith; acc = omega arith }

accrue_total_example : (farm' : Farm) × (accrue farm (pos 1_010) ≡ ok farm') × IsCapped farm' 1_010
accrue_total_example = accrue_total farm 1_000 1_010 capped (omega arith) (omega arith)

set_debt_run : set_debt (staked 100 0) (5 * 10 ^ 12) ≡ ok (staked 100 500)
unfolding set_debt
set_debt_run = refl

pending_run : pending (staked 100 500) (5 * 10 ^ 12 + 3_333_333_333_333) ≡ ok 340
unfolding pending
pending_run = refl

pending_now_run : pending (staked 100 500) (5 * 10 ^ 12) ≡ ok 7
unfolding pending
pending_now_run = refl

pending_bounds_example :
    (7 ≤ 340)
    × ((340 - 7) * acc_precision
        < 100 * (5 * 10 ^ 12 + 3_333_333_333_333 - 5 * 10 ^ 12) + acc_precision)
    × (100 * (5 * 10 ^ 12 + 3_333_333_333_333 - 5 * 10 ^ 12) < (340 - 7 + 1) * acc_precision)
pending_bounds_example =
    pending_bounds (staked 100 0) (staked 100 500) (5 * 10 ^ 12) (5 * 10 ^ 12 + 3_333_333_333_333)
      340 (omega arith) set_debt_run pending_run

rewards_run :
    new_rewards (5 * 10 ^ 12) (5 * 10 ^ 12 + 3_333_333_333_333) (staked 100 0 ∷ staked 200 0 ∷ [])
    ≡ ok 999
unfolding new_rewards set_debt pending
rewards_run = refl

new_rewards-accrue_example : 999 ≤ pos_part (pos 1_010 -ℤ pos 1_000) * 100 + 2
new_rewards-accrue_example =
    new_rewards-accrue farm later (pos 1_010) (staked 100 0 ∷ staked 200 0 ∷ []) 999 accrue_run
      (omega arith) rewards_run

farm_fits : IsFarm farm
farm_fits = record {
  bump_seed_fits = omega arith;
  owner_fits = omega arith;
  lp_mint_fits = omega arith;
  reward_mint_fits = omega arith;
  lp_vault_fits = omega arith;
  token_program_fits = omega arith;
  reward_per_second_fits = omega arith;
  last_update_ts_fits = (omega arith, omega arith);
  acc_fits = omega arith;
  total_staked_fits = omega arith;
}

abbrev zeros : ℕ → List ℕ
zeros n = le_bytes n 0

abbrev pub farm_account : List ℕ
farm_account = elim (pack_farm farm (zeros 210)) [ ok bytes ↦ bytes | _ ↦ [] ]

farm_packed : pack_farm farm (zeros 210) ≡ ok farm_account
unfolding pack_farm le_bytes
farm_packed = refl

unpack-pack_farm_example :
    (unpack_farm farm_account ≡ ok farm) × (length farm_account ≡ length (zeros 210))
unpack-pack_farm_example =
    unpack-pack_farm farm (zeros 210) {bytes = farm_account} farm_fits farm_packed

stake_fits : IsUserStake (staked 100 500)
stake_fits = record {
  amount_fits = omega arith;
  reward_debt_fits = omega arith;
  reward_pending_fits = omega arith;
}

abbrev pub stake_account : List ℕ
stake_account = elim (pack_user_stake (staked 100 500) (zeros 33)) [ ok bytes ↦ bytes | _ ↦ [] ]

stake_packed : pack_user_stake (staked 100 500) (zeros 33) ≡ ok stake_account
unfolding pack_user_stake le_bytes
stake_packed = refl
