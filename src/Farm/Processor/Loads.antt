-- ===== src/Farm/Processor/Loads.antt =====
-- What the loads and checks of the handlers guarantee when they succeed.
use rome_dex.Base.{
  ℕ, ◌≡◌, refl, true, some, List, Result, ok, err, panic, arith, ◌∷◌, [], Option-cases, inl, inr,
  ap, ==_iff,
}
use rome_dex.Solana.Runtime.{
  Pubkey, to_bytes, AccountInfo, Store, Action, Runtime, update, ◌>>=◌, lift, require, fail,
}
use rome_dex.Solana.Steps.{
  require_step, lift_step, owner_step, contents_step, pure_step, write_step, require_last,
}
use rome_dex.Farm.State.{Farm, UserStake, FarmError, pending}
use rome_dex.Farm.Codec.{unpack_farm, pack_farm, unpack_user_stake, pack_user_stake}
use rome_dex.Farm.Processor.Checks.{
  lifted, store_farm, store_user_stake, load_farm, check_token_program, settle, farm_seeds,
  check_authority_pda, load_user_stake,
}

pub record LoadsFarm (program_id : Pubkey) (info : AccountInfo) (s : Store) (farm : Farm)
    : Type 0 where
  pub owned : (s info.key).owner ≡ program_id
  pub unpacked : unpack_farm (s info.key).contents ≡ ok farm
  pub initialized : farm.is_initialized ≡ true

pub load_farm_step :
    (program_id : Pubkey) (info : AccountInfo) (s : Store) {p : Farm × Store}
    → load_farm program_id info s ≡ ok p
    → (p.1 ≡ s) × LoadsFarm program_id info s p.0
unfolding load_farm
load_farm_step program_id info s {p} h =
    let (own, h1) = require_step _ _ _ s (owner_step info _ s h) in
    let (farm, unpacked, h2) = lift_step _ _ s (contents_step info _ s h1) in
    let (initialized, h3) = require_step _ _ _ s h2 in
    let result = pure_step farm s h3 in
    (
      ap (λ x. x.1) result,
      rw result
          (record { owned = (==_iff _ _).0 own; unpacked = unpacked; initialized = initialized }),
    )

pub lifted_step :
    {A B : Type 0} (m : Result FarmError A) (f : A → Action B) (s : Store) {r : B × Store}
    → (lifted m >>= f) s ≡ ok r
    → (a : A) × (m ≡ ok a) × (f a s ≡ ok r)
unfolding lift ◌>>=◌
lifted_step (ok a) f s h = (a, refl, h)
lifted_step (err e) f s h = cc
lifted_step panic f s h = cc

pub settle_step :
    (stake : UserStake) (acc : ℕ) (s : Store) {p : UserStake × Store}
    → settle stake acc s ≡ ok p
    → (owed : ℕ) × (pending stake acc ≡ ok owed) × (p ≡ (record stake { reward_pending = owed }, s))
unfolding settle
settle_step stake acc s h = let (owed, e, h1) = lifted_step _ _ s h in (owed, e, pure_step _ s h1)

pub check_token_program_step :
    (key : Pubkey) (farm : Farm) (s : Store) {p : Unit {0} × Store}
    → check_token_program key farm s ≡ ok p
    → (key ≡ farm.token_program) × (p.1 ≡ s)
unfolding check_token_program
check_token_program_step key farm s h =
    let (same, stays) = require_last _ _ s h in ((==_iff _ _).0 same, stays)

-- A packed account, in the store that results.
pub store_farm_step :
    (info : AccountInfo) (farm : Farm) (s : Store) {p : Unit {0} × Store}
    → store_farm info farm s ≡ ok p
    → (bytes : List ℕ) × (pack_farm farm (s info.key).contents ≡ ok bytes)
      × (p.1
          ≡ update s info.key (record {
            owner = (s info.key).owner;
            lamports = (s info.key).lamports;
            contents = bytes;
          }))
unfolding store_farm
store_farm_step info farm s h =
    let (bytes, e, h1) = lift_step _ _ s (contents_step info _ s h) in
    (bytes, e, write_step info bytes s h1)

pub store_user_stake_step :
    (info : AccountInfo) (stake : UserStake) (s : Store) {p : Unit {0} × Store}
    → store_user_stake info stake s ≡ ok p
    → (bytes : List ℕ) × (pack_user_stake stake (s info.key).contents ≡ ok bytes)
      × (p.1
          ≡ update s info.key (record {
            owner = (s info.key).owner;
            lamports = (s info.key).lamports;
            contents = bytes;
          }))
unfolding store_user_stake
store_user_stake_step info stake s h =
    let (bytes, e, h1) = lift_step _ _ s (contents_step info _ s h) in
    (bytes, e, write_step info bytes s h1)

module _ (runtime : Runtime) (program_id : Pubkey) where
  pub check_authority_pda_step :
      (farm_ai : AccountInfo) (farm : Farm) (authority_pda_ai : AccountInfo) (s : Store)
      {p : Unit {0} × Store}
      → check_authority_pda runtime program_id farm_ai farm authority_pda_ai s ≡ ok p
      → (runtime.create_program_address (farm_seeds farm_ai farm) program_id
          ≡ some authority_pda_ai.key)
        × (p.1 ≡ s)
  unfolding check_authority_pda require fail
  check_authority_pda_step farm_ai farm authority_pda_ai s h =
      elim (Option-cases (runtime.create_program_address (farm_seeds farm_ai farm) program_id)) [
        | inl e ↦ ground arith
        | inr (key, e) ↦ ground arith
      ]

  pub record LoadsStake (farm_ai authority_ai info : AccountInfo) (s : Store) (stake : UserStake)
      : Type 0 where
    pub owned : (s info.key).owner ≡ program_id
    pub derived :
        (runtime.find_program_address
          (to_bytes farm_ai.key ∷ to_bytes authority_ai.key ∷ [])
          program_id).0
        ≡ info.key
    pub unpacked : unpack_user_stake (s info.key).contents ≡ ok stake
    pub initialized : stake.is_initialized ≡ true

  pub load_user_stake_step :
      (farm_ai authority_ai info : AccountInfo) (s : Store) {p : UserStake × Store}
      → load_user_stake runtime program_id farm_ai authority_ai info s ≡ ok p
      → (p.1 ≡ s) × LoadsStake farm_ai authority_ai info s p.0
  unfolding load_user_stake
  load_user_stake_step farm_ai authority_ai info s {p} h =
      let (own, h1) = require_step _ _ _ s (owner_step info _ s h) in
      let (derived, h2) = require_step _ _ _ s h1 in
      let (stake, unpacked, h3) = lift_step _ _ s (contents_step info _ s h2) in
      let (initialized, h4) = require_step _ _ _ s h3 in
      let result = pure_step stake s h4 in
      (
        ap (λ x. x.1) result,
        rw result (record {
          owned = (==_iff _ _).0 own;
          derived = (==_iff _ _).0 derived;
          unpacked = unpacked;
          initialized = initialized;
        }),
      )
