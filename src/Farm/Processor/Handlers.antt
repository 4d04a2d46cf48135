-- ===== src/Farm/Processor/Handlers.antt =====
-- The handlers of farm/src/processor.rs. `&mut` state is passed on, and written back where the source
-- packs it.
use rome_dex.Base.{
  ℕ, Bool, true, false, not, ◌&&◌, Option, none, some, List, [], ◌∷◌, ltb, leb, ◌==◌, if◌then◌else◌,
  ok_or,
}
use rome_dex.Base.Words.{checked_sub, checked_add_u64}
use rome_dex.Solana.Errors.{ProgramError}
use rome_dex.Solana.Bytes.{length}
use rome_dex.Solana.Runtime.{
  Pubkey, to_bytes, AccountInfo, Runtime, Instruction, Action, ◌>>=◌, ◌>>◌, pure, fail, lift,
  require, owner_of, contents_of, invoke,
}
use rome_dex.Farm.State
use rome_dex.Farm.State.{
  Farm, UserStake, FarmError, from_error, farm_len, user_stake_len, max_reward_per_second,
}
use rome_dex.Farm.Codec.{unpack_farm, unpack_user_stake}
use rome_dex.Farm.Processor.Checks.{
  lifted, store_farm, store_user_stake, load_farm, check_token_program, settle, farm_seeds,
  check_authority_pda, load_user_stake,
}
use rome_dex.Farm.Processor.Instructions.{FarmInstruction, unpack}

abbrev missing_signature : ProgramError
missing_signature = ProgramError.missing_required_signature

abbrev pub empty_stake : UserStake
empty_stake = record { is_initialized = true; amount = 0; reward_debt = 0; reward_pending = 0 }

-- `reward_mint.mint_authority` is `Some(authority)`.
abbrev is_authority : Option Pubkey → Pubkey → Bool
is_authority none key = false
is_authority (some authority) key = authority == key

-- The account is already a stake: `owner == program_id && unpack(..)?.is_initialized`.
abbrev already_staked : Pubkey → AccountInfo → Action Bool
already_staked program_id user_stake_ai = do
  owner ← owner_of user_stake_ai
  bytes ← contents_of user_stake_ai
  if owner == program_id
      then (do stake ← lift (unpack_user_stake bytes); pure stake.is_initialized)
      else pure false

module _ (runtime : Runtime) (program_id : Pubkey) where
  unfoldable pub init_farm : List AccountInfo → ℕ → Action (Unit {0})
  init_farm
        (farm_ai ∷ authority_ai ∷ lp_mint_ai ∷ reward_mint_ai ∷ lp_vault_ai ∷ owner_ai
          ∷ token_program_ai ∷ _)
        reward_per_second =
      do
        owner ← owner_of farm_ai
        require (owner == program_id) ProgramError.illegal_owner
        bytes ← contents_of farm_ai
        require (length bytes == farm_len) ProgramError.invalid_account_data
        old ← lift (unpack_farm bytes)
        require (not old.is_initialized) (from_error FarmError.already_initialized)
        require farm_ai.is_signer missing_signature
        require (token_program_ai.key == runtime.spl_token_id)
            (from_error FarmError.incorrect_token_program)
        let found = runtime.find_program_address (to_bytes farm_ai.key ∷ []) program_id
        require (found.0 == authority_ai.key) (from_error FarmError.address_mismatch)
        mint_bytes ← contents_of reward_mint_ai
        reward_mint ← lift (runtime.unpack_mint mint_bytes)
        require (is_authority reward_mint.mint_authority found.0)
            (from_error FarmError.invalid_reward_mint_authority)
        vault_bytes ← contents_of lp_vault_ai
        lp_vault ← lift (runtime.unpack_token_account vault_bytes)
        require (lp_vault.owner == found.0 && lp_vault.mint == lp_mint_ai.key)
            (from_error FarmError.invalid_token_account)
        require (leb reward_per_second max_reward_per_second)
            (from_error FarmError.reward_rate_too_high)
        now ← lift runtime.unix_timestamp
        store_farm farm_ai (record {
          is_initialized = true;
          bump_seed = found.1;
          owner = owner_ai.key;
          lp_mint = lp_mint_ai.key;
          reward_mint = reward_mint_ai.key;
          lp_vault = lp_vault_ai.key;
          token_program = token_program_ai.key;
          reward_per_second = reward_per_second;
          last_update_ts = now;
          acc_reward_per_share = 0;
          total_staked = 0;
        })
  init_farm _ reward_per_second = fail ProgramError.not_enough_account_keys

  unfoldable pub init_user_stake : List AccountInfo → Action (Unit {0})
  init_user_stake (farm_ai ∷ authority_ai ∷ user_stake_ai ∷ payer_ai ∷ system_program_ai ∷ _) = do
    owner ← owner_of farm_ai
    require (owner == program_id) ProgramError.illegal_owner
    require payer_ai.is_signer missing_signature
    let found =
        runtime.find_program_address (to_bytes farm_ai.key ∷ to_bytes authority_ai.key ∷ [])
          program_id
    require (found.0 == user_stake_ai.key) (from_error FarmError.address_mismatch)
    taken ← already_staked program_id user_stake_ai
    require (not taken) (from_error FarmError.already_initialized)
    lamports ← lift (runtime.minimum_balance user_stake_len)
    invoke runtime
        (Instruction.create_account payer_ai.key user_stake_ai.key lamports user_stake_len
          program_id)
        ((to_bytes farm_ai.key ∷ to_bytes authority_ai.key ∷ (found.1 ∷ []) ∷ []) ∷ [])
    store_user_stake user_stake_ai empty_stake
  init_user_stake _ = fail ProgramError.not_enough_account_keys

  unfoldable pub stake : List AccountInfo → ℕ → Action (Unit {0})
  stake
        (farm_ai ∷ authority_pda_ai ∷ authority_ai ∷ user_stake_ai ∷ user_lp_ai ∷ lp_vault_ai
          ∷ token_program_ai ∷ _)
        amount =
      do
        farm ← load_farm program_id farm_ai
        check_authority_pda runtime program_id farm_ai farm authority_pda_ai
        check_token_program token_program_ai.key farm
        require authority_ai.is_signer missing_signature
        require (lp_vault_ai.key == farm.lp_vault) (from_error FarmError.invalid_token_account)
        position ← load_user_stake runtime program_id farm_ai authority_ai user_stake_ai
        now ← lift runtime.unix_timestamp
        accrued ← lifted (State.accrue farm now)
        settled ← settle position accrued.acc_reward_per_share
        invoke runtime
            (Instruction.transfer token_program_ai.key user_lp_ai.key lp_vault_ai.key
              authority_ai.key amount)
            []
        staked ← lifted (ok_or (checked_add_u64 settled.amount amount) FarmError.overflow)
        total ← lifted (ok_or (checked_add_u64 accrued.total_staked amount) FarmError.overflow)
        indebted ←
            lifted
              (State.set_debt (record settled { amount = staked }) accrued.acc_reward_per_share)
        store_farm farm_ai (record accrued { total_staked = total })
        store_user_stake user_stake_ai indebted
  stake _ amount = fail ProgramError.not_enough_account_keys

  unfoldable pub unstake : List AccountInfo → ℕ → Action (Unit {0})
  unstake
        (farm_ai ∷ authority_pda_ai ∷ authority_ai ∷ user_stake_ai ∷ lp_vault_ai ∷ user_lp_ai
          ∷ token_program_ai ∷ _)
        amount =
      do
        farm ← load_farm program_id farm_ai
        check_authority_pda runtime program_id farm_ai farm authority_pda_ai
        check_token_program token_program_ai.key farm
        require authority_ai.is_signer missing_signature
        require (lp_vault_ai.key == farm.lp_vault) (from_error FarmError.invalid_token_account)
        position ← load_user_stake runtime program_id farm_ai authority_ai user_stake_ai
        require (leb amount position.amount) (from_error FarmError.insufficient_stake)
        now ← lift runtime.unix_timestamp
        accrued ← lifted (State.accrue farm now)
        settled ← settle position accrued.acc_reward_per_share
        invoke runtime
            (Instruction.transfer token_program_ai.key lp_vault_ai.key user_lp_ai.key
              authority_pda_ai.key amount)
            (farm_seeds farm_ai accrued ∷ [])
        staked ← lifted (ok_or (checked_sub settled.amount amount) FarmError.overflow)
        total ← lifted (ok_or (checked_sub accrued.total_staked amount) FarmError.overflow)
        indebted ←
            lifted
              (State.set_debt (record settled { amount = staked }) accrued.acc_reward_per_share)
        store_farm farm_ai (record accrued { total_staked = total })
        store_user_stake user_stake_ai indebted
  unstake _ amount = fail ProgramError.not_enough_account_keys

  unfoldable pub claim : List AccountInfo → Action (Unit {0})
  claim
        (farm_ai ∷ authority_pda_ai ∷ authority_ai ∷ user_stake_ai ∷ reward_mint_ai ∷ user_reward_ai
          ∷ token_program_ai ∷ _) =
      do
        farm ← load_farm program_id farm_ai
        check_authority_pda runtime program_id farm_ai farm authority_pda_ai
        check_token_program token_program_ai.key farm
        require authority_ai.is_signer missing_signature
        require (reward_mint_ai.key == farm.reward_mint)
            (from_error FarmError.invalid_token_account)
        position ← load_user_stake runtime program_id farm_ai authority_ai user_stake_ai
        now ← lift runtime.unix_timestamp
        accrued ← lifted (State.accrue farm now)
        pending ← lifted (State.pending position accrued.acc_reward_per_share)
        if ltb 0 pending
            then invoke runtime
                (Instruction.mint_to token_program_ai.key reward_mint_ai.key user_reward_ai.key
                  authority_pda_ai.key pending)
                (farm_seeds farm_ai accrued ∷ [])
            else pure tt
        indebted ←
            lifted
              (State.set_debt (record position { reward_pending = 0 }) accrued.acc_reward_per_share)
        store_farm farm_ai accrued
        store_user_stake user_stake_ai indebted
  claim _ = fail ProgramError.not_enough_account_keys

  unfoldable pub set_reward_per_second : List AccountInfo → ℕ → Action (Unit {0})
  set_reward_per_second (farm_ai ∷ owner_ai ∷ _) reward_per_second = do
    farm ← load_farm program_id farm_ai
    require (owner_ai.is_signer && owner_ai.key == farm.owner) (from_error FarmError.unauthorized)
    require (leb reward_per_second max_reward_per_second)
        (from_error FarmError.reward_rate_too_high)
    now ← lift runtime.unix_timestamp
    accrued ← lifted (State.accrue farm now)
    store_farm farm_ai (record accrued { reward_per_second = reward_per_second })
  set_reward_per_second _ reward_per_second = fail ProgramError.not_enough_account_keys

  unfoldable pub emergency_unstake : List AccountInfo → Action (Unit {0})
  emergency_unstake
        (farm_ai ∷ authority_pda_ai ∷ authority_ai ∷ user_stake_ai ∷ lp_vault_ai ∷ user_lp_ai
          ∷ token_program_ai ∷ _) =
      do
        farm ← load_farm program_id farm_ai
        check_authority_pda runtime program_id farm_ai farm authority_pda_ai
        check_token_program token_program_ai.key farm
        require authority_ai.is_signer missing_signature
        require (lp_vault_ai.key == farm.lp_vault) (from_error FarmError.invalid_token_account)
        position ← load_user_stake runtime program_id farm_ai authority_ai user_stake_ai
        invoke runtime
            (Instruction.transfer token_program_ai.key lp_vault_ai.key user_lp_ai.key
              authority_pda_ai.key position.amount)
            (farm_seeds farm_ai farm ∷ [])
        total ← lifted (ok_or (checked_sub farm.total_staked position.amount) FarmError.overflow)
        store_farm farm_ai (record farm { total_staked = total })
        store_user_stake user_stake_ai empty_stake
  emergency_unstake _ = fail ProgramError.not_enough_account_keys

  unfoldable pub process : List AccountInfo → List ℕ → Action (Unit {0})
  process accounts input = do
    instruction ← lift (unpack input)
    elim instruction [
      | FarmInstruction.init_farm reward_per_second ↦ init_farm accounts reward_per_second
      | FarmInstruction.init_user_stake ↦ init_user_stake accounts
      | FarmInstruction.stake amount ↦ stake accounts amount
      | FarmInstruction.unstake amount ↦ unstake accounts amount
      | FarmInstruction.claim ↦ claim accounts
      | FarmInstruction.set_reward_per_second reward_per_second ↦
          set_reward_per_second accounts reward_per_second
      | FarmInstruction.emergency_unstake ↦ emergency_unstake accounts
    ]
