-- ===== src/Farm/State.antt =====
-- Farm and user-stake accounts and their arithmetic: farm/src/state.rs. Amounts and rates are u64, the
-- accumulator and the debt u128, timestamps i64.
use rome_dex.Base.{
  ℕ, ◌-◌, ◌/◌, ◌^◌, Bool, ◌&&◌, Result, ok, panic, ◌>>=◌, ok_or, ltb, if◌then◌else◌,
}
use rome_dex.Base.Words.{checked_add_u128, checked_mul_u128, to_u64}
use rome_dex.Base.Int.{ℤ, pos_part, leb_ℤ, ◌-ℤ◌}
use rome_dex.Solana.Errors.{ProgramError}
use rome_dex.Solana.Runtime.{Pubkey}

pub data FarmError : Type 0 where
  already_initialized uninitialized address_mismatch invalid_token_account : FarmError
  invalid_reward_mint_authority unauthorized insufficient_stake overflow : FarmError
  invalid_instruction incorrect_token_program reward_rate_too_high : FarmError

-- `e as u32`, the code of `ProgramError::Custom`.
unfoldable pub code : FarmError → ℕ
code already_initialized = 0
code uninitialized = 1
code address_mismatch = 2
code invalid_token_account = 3
code invalid_reward_mint_authority = 4
code unauthorized = 5
code insufficient_stake = 6
code overflow = 7
code invalid_instruction = 8
code incorrect_token_program = 9
code reward_rate_too_high = 10

-- `impl From<FarmError> for ProgramError`
unfoldable pub from_error : FarmError → ProgramError
unfolding code
from_error e = ProgramError.custom (code e)

abbrev pub acc_precision : ℕ
acc_precision = 1_000_000_000_000

abbrev pub max_reward_per_second : ℕ
max_reward_per_second = 1_000_000_000

abbrev pub farm_len : ℕ
farm_len = 202

abbrev pub user_stake_len : ℕ
user_stake_len = 33

pub record Farm : Type 0 where
  pub is_initialized : Bool
  pub bump_seed : ℕ
  pub owner : Pubkey
  pub lp_mint : Pubkey
  pub reward_mint : Pubkey
  pub lp_vault : Pubkey
  pub token_program : Pubkey
  pub reward_per_second : ℕ
  pub last_update_ts : ℤ
  pub acc_reward_per_share : ℕ
  pub total_staked : ℕ

pub record UserStake : Type 0 where
  pub is_initialized : Bool
  pub amount : ℕ
  pub reward_debt : ℕ
  pub reward_pending : ℕ

-- `now - last` on an i64, which panics on overflow, as a u128.
abbrev pub elapsed_since : ℤ → ℤ → Result FarmError ℕ
elapsed_since now last =
    let elapsed = pos_part (now -ℤ last) in if ltb elapsed (2 ^ 63) then ok elapsed else panic

-- The accumulator after `elapsed` seconds.
unfoldable pub grown : Farm → ℕ → Result FarmError ℕ
grown farm elapsed = do
  emitted ← ok_or (checked_mul_u128 elapsed farm.reward_per_second) overflow
  reward ← ok_or (checked_mul_u128 emitted acc_precision) overflow
  ok_or (checked_add_u128 farm.acc_reward_per_share (reward / farm.total_staked)) overflow

unfoldable pub accrue : Farm → ℤ → Result FarmError Farm
unfolding grown
accrue farm now =
    if leb_ℤ now farm.last_update_ts
    then ok farm
    else if ltb 0 farm.total_staked && ltb 0 farm.reward_per_second
    then (do
      elapsed ← elapsed_since now farm.last_update_ts
      acc ← grown farm elapsed
      ok (record farm { acc_reward_per_share = acc; last_update_ts = now }))
    else ok (record farm { last_update_ts = now })

-- `saturating_sub` is the subtraction of the naturals.
unfoldable pub pending : UserStake → ℕ → Result FarmError ℕ
pending stake acc = do
  product ← ok_or (checked_mul_u128 stake.amount acc) overflow
  let accrued = product / acc_precision - stake.reward_debt
  total ← ok_or (checked_add_u128 stake.reward_pending accrued) overflow
  ok_or (to_u64 total) overflow

unfoldable pub set_debt : UserStake → ℕ → Result FarmError UserStake
set_debt stake acc = do
  product ← ok_or (checked_mul_u128 stake.amount acc) overflow
  ok (record stake { reward_debt = product / acc_precision })
