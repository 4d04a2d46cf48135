-- ===== src/Farm/Processor/Outcomes.antt =====
-- What the hot paths leave behind when they succeed: the two accounts, and the one transfer.
use rome_dex.Base.{ℕ, ◌+◌, ◌-◌, ◌≤◌, ◌<◌, ◌^◌, ◌≡◌, ◌≢◌, List, [], ◌∷◌, ok, leb→le}
use rome_dex.Base.Int.{ℤ}
use rome_dex.Solana.Runtime.{
  Pubkey, AccountInfo, Store, Runtime, RuntimeLaws, Instruction, >>=-eq-ok,
}
use rome_dex.Solana.Steps.{require_step, lift_step, invoke_step}
use rome_dex.Farm.State.{Farm, UserStake, accrue, pending, set_debt}
use rome_dex.Farm.Processor.Checks.{farm_seeds}
use rome_dex.Farm.Processor.Loads.{lifted_step, settle_step}
use rome_dex.Farm.Processor.Admission.{Admitted, admit_step}
use rome_dex.Farm.Processor.Handlers.{stake, unstake, emergency_unstake, empty_stake}
use rome_dex.Farm.Processor.Booking.{Booked, book_step, ok_sub, ok_add, debt_at, rebook}

module _ (runtime : Runtime) (program_id : Pubkey) (laws : RuntimeLaws runtime program_id)
    (farm_ai pda_ai authority_ai user_stake_ai user_ai vault_ai token_program_ai : AccountInfo)
    (rest : List AccountInfo) (s s' : Store) (apart : farm_ai.key ≢ user_stake_ai.key) where
  abbrev pub EmergencyUnstaked : Type 0
  EmergencyUnstaked =
      (farm : Farm) × (position : UserStake) × (s1 : Store) × Admitted runtime program_id farm_ai
        pda_ai authority_ai user_stake_ai vault_ai token_program_ai (λ f. f.lp_vault) s farm
        position
      × (runtime.invoke_signed
            (Instruction.transfer token_program_ai.key vault_ai.key user_ai.key pda_ai.key
              position.amount)
            (farm_seeds farm_ai farm ∷ []) s
          ≡ ok s1)
      × (position.amount ≤ farm.total_staked)
      × Booked farm_ai user_stake_ai s s'
          (record farm { total_staked = farm.total_staked - position.amount }) empty_stake

  -- An emergency exit that succeeded: the caller signed, the whole position moved from the vault to the
  -- caller's account, the farm's total fell by it and nothing else of the farm changed, and the stake is
  -- empty.
  -- Conditions: farm and stake are two accounts, and the runtime keeps `RuntimeLaws`.
  pub emergency_unstake_outcome :
      emergency_unstake runtime program_id
          (farm_ai ∷ pda_ai ∷ authority_ai ∷ user_stake_ai ∷ vault_ai ∷ user_ai ∷ token_program_ai
            ∷ rest)
          s
        ≡ ok (tt, s')
      → EmergencyUnstaked
  unfolding emergency_unstake
  emergency_unstake_outcome h =
      let (farm, position, admitted, h1) =
        admit_step runtime program_id farm_ai pda_ai authority_ai user_stake_ai vault_ai
          token_program_ai (λ f. f.lp_vault) _ _ _ s h in
      let (s1, moved, h2) = invoke_step runtime _ _ _ s h1 in
      let (total, e3, h3) = lifted_step _ _ s1 h2 in
      let (enough, total_eq) = ok_sub farm.total_staked position.amount e3 in
      let kept_farm = (laws.keeps_own _ _ s s1 farm_ai.key moved admitted.farm_loaded.owned).1 in
      let kept_stake =
        (laws.keeps_own _ _ s s1 user_stake_ai.key moved admitted.stake_loaded.owned).1 in
      (
        farm,
        position,
        s1,
        admitted,
        moved,
        enough,
        rebook farm_ai user_stake_ai s s' farm empty_stake total_eq
            (book_step farm_ai user_stake_ai _ _ s s1 apart kept_farm kept_stake h3),
      )

  abbrev pub Staked : ℕ → Type 0
  Staked amount =
      (farm accrued : Farm) × (position indebted : UserStake) × (now : ℤ) × (owed : ℕ)
      × (s1 : Store) × Admitted runtime program_id farm_ai pda_ai authority_ai user_stake_ai
          vault_ai token_program_ai (λ f. f.lp_vault) s farm position
      × (runtime.unix_timestamp ≡ ok now)
      × (accrue farm now ≡ ok accrued)
      × (pending position accrued.acc_reward_per_share ≡ ok owed)
      × (runtime.invoke_signed
            (Instruction.transfer token_program_ai.key user_ai.key vault_ai.key authority_ai.key
              amount)
            [] s
          ≡ ok s1)
      × (set_debt (record position { amount = position.amount + amount; reward_pending = owed })
            accrued.acc_reward_per_share
          ≡ ok indebted)
      × (position.amount + amount < 2 ^ 64)
      × (accrued.total_staked + amount < 2 ^ 64)
      × Booked farm_ai user_stake_ai s s'
          (record accrued { total_staked = accrued.total_staked + amount }) indebted

  -- A stake that succeeded: the caller signed, `amount` moved from the caller's account to the vault,
  -- and both the farm's total and the caller's stake grew by it, after the reward due had been settled.
  -- Conditions: farm and stake are two accounts, and the runtime keeps `RuntimeLaws`.
  pub stake_outcome :
      (amount : ℕ)
      → stake runtime program_id
          (farm_ai ∷ pda_ai ∷ authority_ai ∷ user_stake_ai ∷ user_ai ∷ vault_ai ∷ token_program_ai
            ∷ rest)
          amount
          s
        ≡ ok (tt, s')
      → Staked amount
  unfolding stake
  stake_outcome amount h =
      let (farm, position, admitted, h1) =
        admit_step runtime program_id farm_ai pda_ai authority_ai user_stake_ai vault_ai
          token_program_ai (λ f. f.lp_vault) _ _ _ s h in
      let (now, clock, h2) = lift_step _ _ s h1 in
      let (accrued, accrual, h3) = lifted_step _ _ s h2 in
      let (p4, e4, h4) = >>=-eq-ok _ _ s h3 in
      let (owed, due, settled) = settle_step position accrued.acc_reward_per_share s e4 in
      let h4' = rw settled at h4 in
      let (s1, moved, h5) = invoke_step runtime _ _ _ s h4' in
      let (staked, e6, h6) = lifted_step _ _ s1 h5 in
      let (fits, staked_eq) = ok_add position.amount amount e6 in
      let (total, e7, h7) = lifted_step _ _ s1 h6 in
      let (total_fits, total_eq) = ok_add accrued.total_staked amount e7 in
      let (indebted, debt, h8) = lifted_step _ _ s1 h7 in
      let kept_farm = (laws.keeps_own _ _ s s1 farm_ai.key moved admitted.farm_loaded.owned).1 in
      let kept_stake =
        (laws.keeps_own _ _ s s1 user_stake_ai.key moved admitted.stake_loaded.owned).1 in
      (
        farm,
        accrued,
        position,
        indebted,
        now,
        owed,
        s1,
        admitted,
        clock,
        accrual,
        due,
        moved,
        debt_at position accrued.acc_reward_per_share owed staked_eq debt,
        fits,
        total_fits,
        rebook farm_ai user_stake_ai s s' accrued indebted total_eq
            (book_step farm_ai user_stake_ai _ _ s s1 apart kept_farm kept_stake h8),
      )

  abbrev pub Unstaked : ℕ → Type 0
  Unstaked amount =
      (farm accrued : Farm) × (position indebted : UserStake) × (now : ℤ) × (owed : ℕ)
      × (s1 : Store) × Admitted runtime program_id farm_ai pda_ai authority_ai user_stake_ai
          vault_ai token_program_ai (λ f. f.lp_vault) s farm position
      × (amount ≤ position.amount)
      × (runtime.unix_timestamp ≡ ok now)
      × (accrue farm now ≡ ok accrued)
      × (pending position accrued.acc_reward_per_share ≡ ok owed)
      × (runtime.invoke_signed
            (Instruction.transfer token_program_ai.key vault_ai.key user_ai.key pda_ai.key amount)
            (farm_seeds farm_ai accrued ∷ []) s
          ≡ ok s1)
      × (set_debt (record position { amount = position.amount - amount; reward_pending = owed })
            accrued.acc_reward_per_share
          ≡ ok indebted)
      × (amount ≤ accrued.total_staked)
      × Booked farm_ai user_stake_ai s s'
          (record accrued { total_staked = accrued.total_staked - amount }) indebted

  -- An unstake that succeeded: the caller signed and had at least `amount` staked, `amount` moved from
  -- the vault to the caller's account under the farm's authority, and both the farm's total and the
  -- caller's stake fell by it, after the reward due had been settled.
  -- Conditions: farm and stake are two accounts, and the runtime keeps `RuntimeLaws`.
  pub unstake_outcome :
      (amount : ℕ)
      → unstake runtime program_id
          (farm_ai ∷ pda_ai ∷ authority_ai ∷ user_stake_ai ∷ vault_ai ∷ user_ai ∷ token_program_ai
            ∷ rest)
          amount
          s
        ≡ ok (tt, s')
      → Unstaked amount
  unfolding unstake
  unstake_outcome amount h =
      let (farm, position, admitted, h1) =
        admit_step runtime program_id farm_ai pda_ai authority_ai user_stake_ai vault_ai
          token_program_ai (λ f. f.lp_vault) _ _ _ s h in
      let (enough, h1') = require_step _ _ _ s h1 in
      let (now, clock, h2) = lift_step _ _ s h1' in
      let (accrued, accrual, h3) = lifted_step _ _ s h2 in
      let (p4, e4, h4) = >>=-eq-ok _ _ s h3 in
      let (owed, due, settled) = settle_step position accrued.acc_reward_per_share s e4 in
      let h4' = rw settled at h4 in
      let (s1, moved, h5) = invoke_step runtime _ _ _ s h4' in
      let (staked, e6, h6) = lifted_step _ _ s1 h5 in
      let (_, staked_eq) = ok_sub position.amount amount e6 in
      let (total, e7, h7) = lifted_step _ _ s1 h6 in
      let (covered, total_eq) = ok_sub accrued.total_staked amount e7 in
      let (indebted, debt, h8) = lifted_step _ _ s1 h7 in
      let kept_farm = (laws.keeps_own _ _ s s1 farm_ai.key moved admitted.farm_loaded.owned).1 in
      let kept_stake =
        (laws.keeps_own _ _ s s1 user_stake_ai.key moved admitted.stake_loaded.owned).1 in
      (
        farm,
        accrued,
        position,
        indebted,
        now,
        owed,
        s1,
        admitted,
        leb→le _ _ enough,
        clock,
        accrual,
        due,
        moved,
        debt_at position accrued.acc_reward_per_share owed staked_eq debt,
        covered,
        rebook farm_ai user_stake_ai s s' accrued indebted total_eq
            (book_step farm_ai user_stake_ai _ _ s s1 apart kept_farm kept_stake h8),
      )
