-- ===== src/Farm/Processor/Checks.antt =====
-- The helpers below the handlers of farm/src/processor.rs.
use rome_dex.Base.{ℕ, none, some, [], ◌∷◌, Result, ◌==◌, map_err}
use rome_dex.Solana.Errors.{ProgramError}
use rome_dex.Solana.Runtime.{
  Pubkey, to_bytes, AccountInfo, Runtime, Seeds, Action, ◌>>=◌, ◌>>◌, pure, fail, lift, require,
  owner_of, contents_of, write,
}
use rome_dex.Farm.State
use rome_dex.Farm.State.{Farm, UserStake, FarmError, from_error}
use rome_dex.Farm.Codec.{unpack_farm, pack_farm, unpack_user_stake, pack_user_stake}

-- `?` on a `FarmError`.
abbrev pub lifted : {A : Type 0} → Result FarmError A → Action A
lifted r = lift (map_err from_error r)

-- `farm.pack(&mut farm_ai.data.borrow_mut())`
unfoldable pub store_farm : AccountInfo → Farm → Action (Unit {0})
store_farm farm_ai farm = do
  old ← contents_of farm_ai
  bytes ← lift (pack_farm farm old)
  write farm_ai bytes

unfoldable pub store_user_stake : AccountInfo → UserStake → Action (Unit {0})
store_user_stake user_stake_ai stake = do
  old ← contents_of user_stake_ai
  bytes ← lift (pack_user_stake stake old)
  write user_stake_ai bytes

unfoldable pub load_farm : Pubkey → AccountInfo → Action Farm
load_farm program_id farm_ai = do
  owner ← owner_of farm_ai
  require (owner == program_id) ProgramError.illegal_owner
  bytes ← contents_of farm_ai
  farm ← lift (unpack_farm bytes)
  require farm.is_initialized (from_error FarmError.uninitialized)
  pure farm

unfoldable pub check_token_program : Pubkey → Farm → Action (Unit {0})
check_token_program key farm =
    require (key == farm.token_program) (from_error FarmError.incorrect_token_program)

-- `stake.reward_pending = stake.pending(acc)?`
unfoldable pub settle : UserStake → ℕ → Action UserStake
settle stake acc = do
  pending ← lifted (State.pending stake acc)
  pure (record stake { reward_pending = pending })

-- The signer seeds of the farm's authority.
abbrev pub farm_seeds : AccountInfo → Farm → Seeds
farm_seeds farm_ai farm = to_bytes farm_ai.key ∷ (farm.bump_seed ∷ []) ∷ []

module _ (runtime : Runtime) where
  unfoldable pub check_authority_pda : Pubkey → AccountInfo → Farm → AccountInfo → Action (Unit {0})
  check_authority_pda program_id farm_ai farm authority_pda_ai =
      elim (runtime.create_program_address (farm_seeds farm_ai farm) program_id) [
        | none ↦ fail (from_error FarmError.address_mismatch)
        | some expected ↦
            require (expected == authority_pda_ai.key) (from_error FarmError.address_mismatch)
      ]

  unfoldable pub load_user_stake :
      Pubkey → AccountInfo → AccountInfo → AccountInfo → Action UserStake
  load_user_stake program_id farm_ai authority_ai user_stake_ai = do
    owner ← owner_of user_stake_ai
    require (owner == program_id) ProgramError.illegal_owner
    let expected =
        runtime.find_program_address (to_bytes farm_ai.key ∷ to_bytes authority_ai.key ∷ [])
          program_id
    require (expected.0 == user_stake_ai.key) (from_error FarmError.address_mismatch)
    bytes ← contents_of user_stake_ai
    stake ← lift (unpack_user_stake bytes)
    require stake.is_initialized (from_error FarmError.uninitialized)
    pure stake
