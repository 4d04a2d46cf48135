-- ===== src/Farm/Codec.antt =====
-- `Farm::pack`, `Farm::unpack` and the same of `UserStake`: farm/src/state.rs.
use rome_dex.Base.{ℕ, ◌^◌, ◌+◌, ◌<◌, ◌≡◌, List, ◌++◌, Result, ok, arith, ◌∙◌}
use rome_dex.Solana.Errors.{ProgramError}
use rome_dex.Solana.Bytes.{length, le_bytes, length-append, length-le_bytes}
use rome_dex.Solana.Codec.{
  Reader, parsed, packed, parsed-packed, ◌>>=◌, pure, number, flag, signed, of_bool, pattern_of,
  IsI64, number-le_bytes, flag-le_bytes, signed-le_bytes,
}
use rome_dex.Farm.State.{Farm, UserStake, farm_len, user_stake_len}

unfoldable pub read_farm : Reader Farm
read_farm = do
  is_initialized ← flag
  bump_seed ← number 1
  owner ← number 32
  lp_mint ← number 32
  reward_mint ← number 32
  lp_vault ← number 32
  token_program ← number 32
  reward_per_second ← number 8
  last_update_ts ← signed
  acc_reward_per_share ← number 16
  total_staked ← number 8
  pure (record {
    is_initialized = is_initialized;
    bump_seed = bump_seed;
    owner = owner;
    lp_mint = lp_mint;
    reward_mint = reward_mint;
    lp_vault = lp_vault;
    token_program = token_program;
    reward_per_second = reward_per_second;
    last_update_ts = last_update_ts;
    acc_reward_per_share = acc_reward_per_share;
    total_staked = total_staked;
  })

unfoldable pub unpack_farm : List ℕ → Result ProgramError Farm
unfolding read_farm
unpack_farm input = parsed farm_len read_farm input

-- The fields of a farm, before what the buffer has behind them.
abbrev farm_bytes : Farm → List ℕ → List ℕ
farm_bytes farm rest =
    le_bytes 1 (of_bool farm.is_initialized)
    ++ (le_bytes 1 farm.bump_seed
        ++ (le_bytes 32 farm.owner
            ++ (le_bytes 32 farm.lp_mint
                ++ (le_bytes 32 farm.reward_mint
                    ++ (le_bytes 32 farm.lp_vault
                        ++ (le_bytes 32 farm.token_program
                            ++ (le_bytes 8 farm.reward_per_second
                                ++ (le_bytes 8 (pattern_of farm.last_update_ts)
                                    ++ (le_bytes 16 farm.acc_reward_per_share
                                        ++ (le_bytes 8 farm.total_staked ++ rest))))))))))

unfoldable pub pack_farm : Farm → List ℕ → Result ProgramError (List ℕ)
pack_farm farm output = packed farm_len (farm_bytes farm) output

unfoldable pub read_user_stake : Reader UserStake
read_user_stake = do
  is_initialized ← flag
  amount ← number 8
  reward_debt ← number 16
  reward_pending ← number 8
  pure (record {
    is_initialized = is_initialized;
    amount = amount;
    reward_debt = reward_debt;
    reward_pending = reward_pending;
  })

unfoldable pub unpack_user_stake : List ℕ → Result ProgramError UserStake
unfolding read_user_stake
unpack_user_stake input = parsed user_stake_len read_user_stake input

abbrev user_stake_bytes : UserStake → List ℕ → List ℕ
user_stake_bytes stake rest =
    le_bytes 1 (of_bool stake.is_initialized)
    ++ (le_bytes 8 stake.amount
        ++ (le_bytes 16 stake.reward_debt ++ (le_bytes 8 stake.reward_pending ++ rest)))

unfoldable pub pack_user_stake : UserStake → List ℕ → Result ProgramError (List ℕ)
pack_user_stake stake output = packed user_stake_len (user_stake_bytes stake) output

-- Every field fits its type.
pub record IsFarm (farm : Farm) : Type 0 where
  pub bump_seed_fits : farm.bump_seed < 256 ^ 1
  pub owner_fits : farm.owner < 256 ^ 32
  pub lp_mint_fits : farm.lp_mint < 256 ^ 32
  pub reward_mint_fits : farm.reward_mint < 256 ^ 32
  pub lp_vault_fits : farm.lp_vault < 256 ^ 32
  pub token_program_fits : farm.token_program < 256 ^ 32
  pub reward_per_second_fits : farm.reward_per_second < 256 ^ 8
  pub last_update_ts_fits : IsI64 farm.last_update_ts
  pub acc_fits : farm.acc_reward_per_share < 256 ^ 16
  pub total_staked_fits : farm.total_staked < 256 ^ 8

pub record IsUserStake (stake : UserStake) : Type 0 where
  pub amount_fits : stake.amount < 256 ^ 8
  pub reward_debt_fits : stake.reward_debt < 256 ^ 16
  pub reward_pending_fits : stake.reward_pending < 256 ^ 8

read_user_stake-bytes :
    (stake : UserStake) (rest : List ℕ)
    → IsUserStake stake
    → read_user_stake (user_stake_bytes stake rest) ≡ ok (stake, rest)
unfolding read_user_stake
read_user_stake-bytes stake rest h =
    flag-le_bytes stake.is_initialized _ _
    ∙ number-le_bytes 8 stake.amount _ _ h.amount_fits
    ∙ number-le_bytes 16 stake.reward_debt _ _ h.reward_debt_fits
    ∙ number-le_bytes 8 stake.reward_pending _ _ h.reward_pending_fits

read_farm-bytes :
    (farm : Farm) (rest : List ℕ) → IsFarm farm → read_farm (farm_bytes farm rest) ≡ ok (farm, rest)
unfolding read_farm
read_farm-bytes farm rest h =
    flag-le_bytes farm.is_initialized _ _
    ∙ number-le_bytes 1 farm.bump_seed _ _ h.bump_seed_fits
    ∙ number-le_bytes 32 farm.owner _ _ h.owner_fits
    ∙ number-le_bytes 32 farm.lp_mint _ _ h.lp_mint_fits
    ∙ number-le_bytes 32 farm.reward_mint _ _ h.reward_mint_fits
    ∙ number-le_bytes 32 farm.lp_vault _ _ h.lp_vault_fits
    ∙ number-le_bytes 32 farm.token_program _ _ h.token_program_fits
    ∙ number-le_bytes 8 farm.reward_per_second _ _ h.reward_per_second_fits
    ∙ signed-le_bytes farm.last_update_ts _ _ h.last_update_ts_fits
    ∙ number-le_bytes 16 farm.acc_reward_per_share _ _ h.acc_fits
    ∙ number-le_bytes 8 farm.total_staked _ _ h.total_staked_fits

pub length-farm_bytes :
    (farm : Farm) (rest : List ℕ) → length (farm_bytes farm rest) ≡ farm_len + length rest
length-farm_bytes farm rest = simp (length-append, length-le_bytes) (omega arith)

pub length-user_stake_bytes :
    (stake : UserStake) (rest : List ℕ)
    → length (user_stake_bytes stake rest) ≡ user_stake_len + length rest
length-user_stake_bytes stake rest = simp (length-append, length-le_bytes) (omega arith)

-- A farm whose fields fit their types, packed into a buffer that has room for it, is read back as it
-- was, and the buffer keeps its length.
pub unpack-pack_farm :
    (farm : Farm) (output : List ℕ) {bytes : List ℕ}
    → IsFarm farm
    → pack_farm farm output ≡ ok bytes
    → (unpack_farm bytes ≡ ok farm) × (length bytes ≡ length output)
unfolding pack_farm unpack_farm
unpack-pack_farm farm output h e =
    parsed-packed farm_len read_farm (farm_bytes farm) farm output
      (λ rest. read_farm-bytes farm rest h) (length-farm_bytes farm) e

-- A stake whose fields fit their types, packed into a buffer that has room for it, is read back as it
-- was, and the buffer keeps its length.
pub unpack-pack_user_stake :
    (stake : UserStake) (output : List ℕ) {bytes : List ℕ}
    → IsUserStake stake
    → pack_user_stake stake output ≡ ok bytes
    → (unpack_user_stake bytes ≡ ok stake) × (length bytes ≡ length output)
unfolding pack_user_stake unpack_user_stake
unpack-pack_user_stake stake output h e =
    parsed-packed user_stake_len read_user_stake (user_stake_bytes stake) stake output
      (λ rest. read_user_stake-bytes stake rest h) (length-user_stake_bytes stake) e
