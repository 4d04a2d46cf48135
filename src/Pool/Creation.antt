-- ===== src/Pool/Creation.antt =====
-- Who may create a pool, and which pool: `CreatePool` of program/src/processor.rs, when it succeeds.
pub mod Opening
use mathlib.Core.Path.{subst}
use rome_dex.Base.{
  [], ℕ, ◌+◌, ◌*◌, ◌/◌, ◌≡◌, ◌⊎◌, inl, inr, Bool, true, false, ◌||◌, ◌==◌, ==_iff, if◌then◌else◌,
  some, Option, List, ◌∷◌, ok, arith, refl, ap, sym, ◌∙◌,
}
use rome_dex.Solana.Runtime.{to_bytes, Pubkey, AccountInfo, Store, Action, ◌>>=◌, ◌>>◌, >>=-eq-ok}
use rome_dex.Solana.Steps.{
  require_step, require_last, lift_step, contents_step, pass_step, check_step, write_step,
  update_self,
}
use rome_dex.Curve.Fees.{Fees}
use rome_dex.Curve.SwapCurve.Dispatch
use rome_dex.Pool.Platform.{Platform}
use rome_dex.Pool.State.{SwapCurve, SwapV2, ProtocolConfig, is_permissionless, lifted}
use rome_dex.Pool.Processor.Tokens.{to_u64}
use rome_dex.Pool.Version
use rome_dex.Pool.Constraints.{SwapConstraints}
use rome_dex.Pool.FeeTier.{term, bound, check_fee_bps}
use rome_dex.Pool.Loads.{lifted_step, lifted_last, some_of}
use rome_dex.Pool.Creation.Opening.{Opens, new_step, init_last}
use rome_dex.Solana.Bytes.{le_bytes}
use rome_dex.Pool.Governance.Refinement.{HoldsConfig, load_config_step}
use rome_dex.Pool.Processor.Create.{
  require_policy, require_derived, pool_signer_seeds, store_version, init_pool_state, create_pool,
}

-- A fraction in basis points, rounded down; nothing for a denominator of zero.
abbrev pub basis_points : ℕ → ℕ → ℕ
basis_points n d = if d == 0 then 0 else n * 10_000 / d

term_value : (n d : ℕ) {x : ℕ} → term n d ≡ ok x → x ≡ basis_points n d
unfolding term
term_value n d h = ground arith

check_fee_bps_lem :
    (fees : Fees) (fee_bps : ℕ) {r : Unit {0}}
    → check_fee_bps fees fee_bps ≡ ok r
    → fee_bps
      ≡ basis_points fees.trade_fee_numerator fees.trade_fee_denominator
        + basis_points fees.owner_trade_fee_numerator fees.owner_trade_fee_denominator
unfolding check_fee_bps bound term
check_fee_bps_lem fees fee_bps h = ground arith

or_true : (a b : Bool) → (a || b) ≡ true → (a ≡ true) ⊎ (b ≡ true)
or_true true b h = inl refl
or_true false b h = inr h

module _ (platform : Platform) (program_id : Pubkey) where
  module _ (fees : Fees) (curve : SwapCurve) (fee_bps pool_bump lp_bump : ℕ)
      (payer_info pool_info authority_info mint_a_info mint_b_info vault_a_info vault_b_info
        lp_mint_info destination_info program_info system_info config_info : AccountInfo)
      (rest : List AccountInfo) (constraints : Option SwapConstraints) (s s' : Store) where
    -- The policy of the configuration lets the payer create a pool.
    abbrev pub Allowed : Type 0
    Allowed =
        (config : ProtocolConfig) × HoldsConfig platform program_id config_info s config
        × ((is_permissionless config ≡ true) ⊎ (payer_info.key ≡ config.admin))

    pub record Created : Type 0 where
      pub signed : payer_info.is_signer ≡ true
      pub allowed : Allowed
      pub tier :
          fee_bps
          ≡ basis_points fees.trade_fee_numerator fees.trade_fee_denominator
            + basis_points fees.owner_trade_fee_numerator fees.owner_trade_fee_denominator
      -- The seeds are "cp_pool", the two mints, the fee tier and the bump.
      pub derived :
          platform.runtime.create_program_address
            ((99 ∷ 112 ∷ 95 ∷ 112 ∷ 111 ∷ 111 ∷ 108 ∷ [])
              ∷ to_bytes mint_a_info.key
              ∷ to_bytes mint_b_info.key
              ∷ le_bytes 2 fee_bps
              ∷ (pool_bump ∷ [])
              ∷ [])
            program_id
          ≡ some pool_info.key
      pub unused : Version.is_initialized platform (s pool_info.key).contents ≡ ok false
      pub ready : Store
      pub opens :
          Opens platform program_id fees curve pool_info authority_info vault_a_info vault_b_info
            lp_mint_info destination_info program_info constraints ready s'

    policy_last :
        {p : Unit {0} × Store}
        → require_policy platform program_id payer_info config_info s ≡ ok p
        → (p.1 ≡ s) × Allowed
    unfolding require_policy
    policy_last h =
        let (config, held, h1) = load_config_step platform program_id config_info _ _ s h in
        let (either, stays) = require_last _ _ s h1 in
        (
          stays,
          (
            config,
            held,
            elim (or_true _ _ either) [ inl o ↦ inl o | inr k ↦ inr ((==_iff _ _).0 k) ],
          ),
        )

    derived_last :
        (st : Store) {p : Unit {0} × Store}
        → require_derived platform program_id
            (pool_signer_seeds mint_a_info mint_b_info fee_bps pool_bump)
            pool_info
            st
          ≡ ok p
        → platform.runtime.create_program_address
            (pool_signer_seeds mint_a_info mint_b_info fee_bps pool_bump)
            program_id
          ≡ some pool_info.key
    unfolding require_derived
    derived_last st h =
        let (key, found, h1) = lifted_step _ _ st h in
        let same = (==_iff key pool_info.key).0 (require_last _ _ st h1).0 in
        subst
          (λ k.
            platform.runtime.create_program_address
              (pool_signer_seeds mint_a_info mint_b_info fee_bps pool_bump) program_id
            ≡ some k)
          same (some_of _ _ found)

    -- A pool that was created: the payer signed and is the admin unless the configuration is
    -- permissionless; the fee tier is the sum of the two trading fees in basis points, each rounded down,
    -- and the pool's account, empty before, is the address derived from the two given mints and that tier.
    -- The vaults belong to the pool's authority, hold two different mints and amounts that the curve
    -- accepts, and have no delegate and no close authority; the pool's mint is minted by that authority,
    -- has no supply, no freeze authority and no close authority. The fees and the curve are valid and meet
    -- the constraints, if there are any. The first supply of 1_000_000_000 was minted to the destination,
    -- which the pool's authority does not own, and then the account was written as an initialized pool of
    -- these accounts, fees and curve, with no fees accrued.
    pub create_outcome :
        create_pool platform program_id fees curve fee_bps pool_bump lp_bump
            (payer_info ∷ pool_info ∷ authority_info ∷ mint_a_info ∷ mint_b_info ∷ vault_a_info
              ∷ vault_b_info ∷ lp_mint_info ∷ destination_info ∷ program_info ∷ system_info
              ∷ config_info ∷ rest)
            constraints
            s
          ≡ ok (tt, s')
        → Created
    unfolding create_pool
    create_outcome h =
        let (signed, h1) = require_step _ _ _ s h in
        let (allowed, h2) = pass_step Allowed _ _ s (λ p e. policy_last e) h1 in
        let (unused, h3) = new_step platform program_id pool_info _ s h2 in
        let (p2, tier, h4) = check_step _ _ s h3 in
        let (p3, derived, h5) = check_step _ _ p2.1 h4 in
        let (_, h6) = require_step _ _ _ p3.1 h5 in
        let (p4, _, h7) = check_step _ _ p3.1 h6 in
        let (p5, _, h8) = check_step _ _ p4.1 h7 in
        record {
          signed = signed;
          allowed = allowed;
          tier = check_fee_bps_lem fees fee_bps (lifted_last _ s tier).1;
          derived = derived_last p2.1 derived;
          unused = unused;
          ready = p5.1;
          opens =
              init_last platform program_id fees curve pool_info _ _ _ _ _ _ constraints p5.1 s' h8;
        }
