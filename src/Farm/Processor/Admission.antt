-- ===== src/Farm/Processor/Admission.antt =====
-- The opening that `stake`, `unstake`, `claim` and `emergency_unstake` share: what holds once it passed.
use rome_dex.Base.{◌≡◌, true, some, ok, ◌==◌, ==_iff}
use rome_dex.Solana.Errors.{ProgramError}
use rome_dex.Solana.Runtime.{
  Pubkey, AccountInfo, Store, Action, Runtime, ◌>>=◌, ◌>>◌, require, >>=-eq-ok,
}
use rome_dex.Solana.Steps.{require_step, check_step}
use rome_dex.Farm.State.{Farm, UserStake}
use rome_dex.Farm.Processor.Checks.{
  load_farm, check_token_program, farm_seeds, check_authority_pda, load_user_stake,
}
use rome_dex.Farm.Processor.Loads.{
  LoadsFarm, LoadsStake, load_farm_step, check_authority_pda_step, check_token_program_step,
  load_user_stake_step,
}

module _ (runtime : Runtime) (program_id : Pubkey)
    (farm_ai pda_ai authority_ai user_stake_ai pinned_ai token_program_ai : AccountInfo)
    (pinned : Farm → Pubkey) where
  -- The farm and the stake are the program's own, read from their accounts; the caller signed; the
  -- stake is at the address of farm and caller; the token program and the token account are the farm's.
  pub record Admitted (s : Store) (farm : Farm) (position : UserStake) : Type 0 where
    pub farm_loaded : LoadsFarm program_id farm_ai s farm
    pub stake_loaded : LoadsStake runtime program_id farm_ai authority_ai user_stake_ai s position
    pub signed : authority_ai.is_signer ≡ true
    pub authority_derived :
        runtime.create_program_address (farm_seeds farm_ai farm) program_id ≡ some pda_ai.key
    pub token_program_pinned : token_program_ai.key ≡ farm.token_program
    pub account_pinned : pinned_ai.key ≡ pinned farm

  pub admit_step :
      {B : Type 0} (e e' : ProgramError) (k : Farm → UserStake → Action B) (s : Store)
      {r : B × Store}
      → (load_farm program_id farm_ai >>= λ farm.
            check_authority_pda runtime program_id farm_ai farm pda_ai
            >> (check_token_program token_program_ai.key farm
                >> (require authority_ai.is_signer e
                    >> (require (pinned_ai.key == pinned farm) e'
                        >> (load_user_stake runtime program_id farm_ai authority_ai user_stake_ai
                            >>= λ position. k farm position)))))
          s
        ≡ ok r
      → (farm : Farm) × (position : UserStake) × Admitted s farm position
        × (k farm position s ≡ ok r)
  admit_step e e' k s h =
      let (p1, e1, h1) = >>=-eq-ok _ _ s h in
      let (s1, farm_loaded) = load_farm_step program_id farm_ai s e1 in
      let h1' = rw s1 at h1 in
      let (p2, e2, h2) = check_step _ _ s h1' in
      let (derived, s2) = check_authority_pda_step runtime program_id farm_ai p1.0 pda_ai s e2 in
      let h2' = rw s2 at h2 in
      let (p3, e3, h3) = check_step _ _ s h2' in
      let (token, s3) = check_token_program_step _ p1.0 s e3 in
      let h3' = rw s3 at h3 in
      let (signed, h4) = require_step _ _ _ s h3' in
      let (same, h5) = require_step _ _ _ s h4 in
      let (p6, e6, h6) = >>=-eq-ok _ _ s h5 in
      let (s6, stake_loaded) =
        load_user_stake_step runtime program_id farm_ai authority_ai user_stake_ai s e6 in
      let h6' = rw s6 at h6 in
      (
        p1.0,
        p6.0,
        record {
          farm_loaded = farm_loaded;
          stake_loaded = stake_loaded;
          signed = signed;
          authority_derived = derived;
          token_program_pinned = token;
          account_pinned = (==_iff _ _).0 same;
        },
        h6',
      )
