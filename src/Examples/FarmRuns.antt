-- ===== src/Examples/FarmRuns.antt =====
-- The handlers of the farm, run on the farm of the examples: farm/src/processor.rs.
use rome_dex.Base.{◌≡◌, ◌≢◌, ◌==◌, refl, List, [], ◌∷◌, ok, if◌then◌else◌, arith}
use rome_dex.Solana.Bytes.{from_le_bytes, le_bytes}
use rome_dex.Solana.Codec.{number, flag, signed}
use rome_dex.Solana.Runtime.{
  AccountInfo, Store, ◌>>=◌, ◌>>◌, pure, fail, lift, require, owner_of, contents_of, write, invoke,
}
use rome_dex.Farm.State.{accrue, grown, pending, set_debt}
use rome_dex.Base.Int.{◌-ℤ◌}
use rome_dex.Farm.Codec.{
  read_farm, read_user_stake, unpack_farm, unpack_user_stake, pack_farm, pack_user_stake,
}
use rome_dex.Farm.Processor.Checks.{
  store_farm, store_user_stake, load_farm, check_token_program, settle, check_authority_pda,
  load_user_stake,
}
use rome_dex.Farm.Processor.Handlers.{stake, unstake, claim, emergency_unstake}
use rome_dex.Farm.Processor.Outcomes.{
  Staked, Unstaked, EmergencyUnstaked, stake_outcome, unstake_outcome, emergency_unstake_outcome,
}
use rome_dex.Farm.Processor.Claims.{Claimed, claim_outcome}
use rome_dex.Examples.Host.{runtime, laws, account_at, signer_at, with_bytes, left_by}
use rome_dex.Examples.Farm.{farm_account, stake_account}

abbrev before : Store
before key =
    if key == 1
    then with_bytes 9 5 farm_account
    else if key == 2
    then with_bytes 9 5 stake_account
    else with_bytes 15 5 []

apart : (account_at 1).key ≢ (account_at 2).key
apart = λ e. absurd (omega arith)

abbrev stake_accounts : List AccountInfo
stake_accounts =
    account_at 1
    ∷ account_at 3
    ∷ signer_at 4
    ∷ account_at 2
    ∷ account_at 5
    ∷ account_at 14
    ∷ account_at 15
    ∷ []

abbrev after_stake : Store
after_stake = left_by (stake runtime 9 stake_accounts 50 before) before

stake_run : stake runtime 9 stake_accounts 50 before ≡ ok (tt, after_stake)
unfolding stake load_farm check_authority_pda check_token_program load_user_stake settle store_farm
    store_user_stake accrue grown pending set_debt ◌-ℤ◌ read_farm read_user_stake unpack_farm
    unpack_user_stake pack_farm pack_user_stake number flag signed from_le_bytes le_bytes ◌>>=◌ ◌>>◌
    pure fail lift require owner_of contents_of write invoke
stake_run = refl

stake_outcome_example :
    Staked runtime 9 laws
      (account_at 1)
      (account_at 3)
      (signer_at 4)
      (account_at 2)
      (account_at 5)
      (account_at 14)
      (account_at 15)
      []
      before
      after_stake
      apart
      50
stake_outcome_example =
    stake_outcome runtime 9 laws (account_at 1) (account_at 3) (signer_at 4) (account_at 2)
      (account_at 5) (account_at 14) (account_at 15) [] before after_stake apart 50 stake_run

abbrev unstake_accounts : List AccountInfo
unstake_accounts =
    account_at 1
    ∷ account_at 3
    ∷ signer_at 4
    ∷ account_at 2
    ∷ account_at 14
    ∷ account_at 5
    ∷ account_at 15
    ∷ []

abbrev after_unstake : Store
after_unstake = left_by (unstake runtime 9 unstake_accounts 50 before) before

unstake_run : unstake runtime 9 unstake_accounts 50 before ≡ ok (tt, after_unstake)
unfolding unstake load_farm check_authority_pda check_token_program load_user_stake settle
    store_farm store_user_stake accrue grown pending set_debt ◌-ℤ◌ read_farm read_user_stake
    unpack_farm unpack_user_stake pack_farm pack_user_stake number flag signed from_le_bytes
    le_bytes ◌>>=◌ ◌>>◌ pure fail lift require owner_of contents_of write invoke
unstake_run = refl

unstake_outcome_example :
    Unstaked runtime 9 laws
      (account_at 1)
      (account_at 3)
      (signer_at 4)
      (account_at 2)
      (account_at 5)
      (account_at 14)
      (account_at 15)
      []
      before
      after_unstake
      apart
      50
unstake_outcome_example =
    unstake_outcome runtime 9 laws (account_at 1) (account_at 3) (signer_at 4) (account_at 2)
      (account_at 5) (account_at 14) (account_at 15) [] before after_unstake apart 50 unstake_run

abbrev emergency_unstake_accounts : List AccountInfo
emergency_unstake_accounts =
    account_at 1
    ∷ account_at 3
    ∷ signer_at 4
    ∷ account_at 2
    ∷ account_at 14
    ∷ account_at 5
    ∷ account_at 15
    ∷ []

abbrev after_emergency_unstake : Store
after_emergency_unstake =
    left_by (emergency_unstake runtime 9 emergency_unstake_accounts before) before

emergency_unstake_run :
    emergency_unstake runtime 9 emergency_unstake_accounts before ≡ ok (tt, after_emergency_unstake)
unfolding emergency_unstake load_farm check_authority_pda check_token_program load_user_stake settle
    store_farm store_user_stake accrue grown pending set_debt ◌-ℤ◌ read_farm read_user_stake
    unpack_farm unpack_user_stake pack_farm pack_user_stake number flag signed from_le_bytes
    le_bytes ◌>>=◌ ◌>>◌ pure fail lift require owner_of contents_of write invoke
emergency_unstake_run = refl

emergency_unstake_outcome_example :
    EmergencyUnstaked runtime 9 laws
      (account_at 1)
      (account_at 3)
      (signer_at 4)
      (account_at 2)
      (account_at 5)
      (account_at 14)
      (account_at 15)
      []
      before
      after_emergency_unstake
      apart
emergency_unstake_outcome_example =
    emergency_unstake_outcome runtime 9 laws (account_at 1) (account_at 3) (signer_at 4)
      (account_at 2) (account_at 5) (account_at 14) (account_at 15) [] before
      after_emergency_unstake apart emergency_unstake_run

abbrev claim_accounts : List AccountInfo
claim_accounts =
    account_at 1
    ∷ account_at 3
    ∷ signer_at 4
    ∷ account_at 2
    ∷ account_at 13
    ∷ account_at 5
    ∷ account_at 15
    ∷ []

abbrev after_claim : Store
after_claim = left_by (claim runtime 9 claim_accounts before) before

claim_run : claim runtime 9 claim_accounts before ≡ ok (tt, after_claim)
unfolding claim load_farm check_authority_pda check_token_program load_user_stake settle store_farm
    store_user_stake accrue grown pending set_debt ◌-ℤ◌ read_farm read_user_stake unpack_farm
    unpack_user_stake pack_farm pack_user_stake number flag signed from_le_bytes le_bytes ◌>>=◌ ◌>>◌
    pure fail lift require owner_of contents_of write invoke
claim_run = refl

claim_outcome_example :
    Claimed runtime 9 laws
      (account_at 1)
      (account_at 3)
      (signer_at 4)
      (account_at 2)
      (account_at 13)
      (account_at 5)
      (account_at 15)
      []
      before
      after_claim
      apart
claim_outcome_example =
    claim_outcome runtime 9 laws (account_at 1) (account_at 3) (signer_at 4) (account_at 2)
      (account_at 13) (account_at 5) (account_at 15) [] before after_claim apart claim_run
