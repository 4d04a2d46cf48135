-- ===== src/Pool/Collection.antt =====
-- `CollectProtocolFees` of program/src/processor.rs, when it succeeds.
use rome_dex.Base.{
  ℕ, ◌≡◌, ◌≢◌, sym, ◌⊎◌, inl, inr, ◌&&◌, ◌==◌, ==_iff, ltb, some, List, ◌∷◌, ok, ap, arith,
  and_true,
}
use mathlib.Core.Path.{subst}
use rome_dex.Solana.Runtime.{
  Pubkey, AccountInfo, Store, Action, RuntimeLaws, ◌>>=◌, ◌>>◌, require, owner_of,
}
use rome_dex.Solana.Steps.{require_step, owner_step, check_step, if_step, pure_step}
use rome_dex.Pool.Platform.{Platform, PackLaws, TokenAccount}
use rome_dex.Curve.Calculator
use rome_dex.Pool.State.{SwapV2, ProtocolConfig, from_error}
use rome_dex.Pool.Config.{load_config}
use rome_dex.Pool.Processor.Tokens.{unpack_token_account}
use rome_dex.Pool.Processor.Checks.{require_authority}
use rome_dex.Pool.Codec.RoundTrips.{IsSwapV2}
use rome_dex.Pool.Version.Laws.{version_live}
use rome_dex.Pool.Loads.{differ, token_account_step, mint_step, IsAuthority, derived_step}
use rome_dex.Pool.Repack.{
  HoldsPool, Transferred, transfer_last, kept, held_version_step, held_v2_step, repack_step,
}
use rome_dex.Pool.Governance.Refinement.{HoldsConfig, load_config_step}
use rome_dex.Pool.Processor.Collect.{
  require_destination, collect_side, zero_counters, collect_protocol_fees,
}

-- The account belongs to the treasury, holds the side's mint and is not the vault.
pub record IsTreasury (platform : Platform) (config : ProtocolConfig) (token_mint : Pubkey)
    (dest_info vault_info : AccountInfo) (s : Store) : Type 0 where
  pub account : TokenAccount
  pub read : platform.unpack_account (s dest_info.key).contents ≡ some account
  pub treasury_owns : account.owner ≡ config.treasury
  pub mint_is : account.mint ≡ token_mint
  pub apart : dest_info.key ≢ vault_info.key

destination_step :
    {B : Type 0} (platform : Platform) (dest : TokenAccount) (config : ProtocolConfig)
    (token_mint : Pubkey) (dest_info vault_info : AccountInfo) (k : Action B) (s : Store)
    {r : B × Store}
    → platform.unpack_account (s dest_info.key).contents ≡ some dest
    → (require_destination dest config token_mint dest_info vault_info >> k) s ≡ ok r
    → IsTreasury platform config token_mint dest_info vault_info s × (k s ≡ ok r)
unfolding require_destination
destination_step platform dest config token_mint dest_info vault_info k s read h =
    let (all, h1) = require_step _ _ k s h in
    let (both, apart) = and_true _ _ all in
    let (owns, mints) = and_true _ _ both in
    (
      record {
        account = dest;
        read = read;
        treasury_owns = (==_iff _ _).0 owns;
        mint_is = (==_iff _ _).0 mints;
        apart = differ _ _ apart;
      },
      h1,
    )

module _ (platform : Platform) (program_id : Pubkey) (packs : PackLaws platform)
    (laws : RuntimeLaws platform.runtime program_id) (pool_info authority_info : AccountInfo)
    (pool : SwapV2) where
  -- One side: nothing when its counter is zero, else the whole counter from the vault.
  abbrev pub SideCollected :
      ℕ → AccountInfo → AccountInfo → AccountInfo → AccountInfo → Store → Store → Type 0
  SideCollected counter vault_info dest_info mint_info program_info s s' =
      ((counter ≡ 0) × (s' ≡ s))
      ⊎ (decimals : ℕ) × Transferred platform pool_info.key program_info vault_info mint_info
          dest_info authority_info pool.bump_seed counter decimals s s'

  side_step :
      {B : Type 0} (counter : ℕ) (vault_info dest_info mint_info program_info : AccountInfo)
      (k : Action B) (s : Store) {r : B × Store}
      → HoldsPool platform program_id pool_info s pool
      → (collect_side platform program_id pool counter pool_info authority_info vault_info dest_info
              mint_info program_info
            >> k)
          s
        ≡ ok r
      → (s' : Store) × SideCollected counter vault_info dest_info mint_info program_info s s'
        × HoldsPool platform program_id pool_info s' pool
        × (k s' ≡ ok r)
  unfolding collect_side
  side_step counter vault_info dest_info mint_info program_info k s held h =
      let (p, e, h1) = check_step _ k s h in
      elim (if_step (ltb 0 counter) _ _ s e) [
        | inl (some_fees, e1) ↦
            let (mint, _, e2) = mint_step platform mint_info _ _ s e1 in
            let moved = transfer_last platform _ _ _ _ _ _ _ _ _ s e2 in
            (
              p.1,
              inr (mint.decimals, moved),
              kept platform program_id laws pool_info pool s p.1 held moved,
              h1,
            )
        | inr (no_fees, e1) ↦
            let same = ap (λ x. x.1) (pure_step tt s e1) in
            (
              p.1,
              inl (ground arith, same),
              subst (λ st. HoldsPool platform program_id pool_info st pool) (sym same) held,
              h1,
            )
      ]

  module _
      (vault_a_info vault_b_info dest_a_info dest_b_info mint_a_info mint_b_info config_info
        program_a_info program_b_info : AccountInfo)
      (rest : List AccountInfo) (s s' : Store) where
    -- The accounts before the first transfer.
    pub record Pinned : Type 0 where
      pub authority : IsAuthority platform program_id authority_info pool_info pool
      pub vault_a : vault_a_info.key ≡ pool.token_a
      pub vault_b : vault_b_info.key ≡ pool.token_b
      pub config : ProtocolConfig
      pub configured : HoldsConfig platform program_id config_info s config
      pub dest_a : IsTreasury platform config pool.token_a_mint dest_a_info vault_a_info s
      pub dest_b : IsTreasury platform config pool.token_b_mint dest_b_info vault_b_info s

    pin_step :
        {B : Type 0} (k : Action B) {r : B × Store}
        → (do
          require_authority platform program_id authority_info pool_info pool
          require
              (vault_a_info.key == pool.token_a && vault_b_info.key == pool.token_b)
              (from_error Calculator.incorrect_swap_account)
          vault_a_owner ← owner_of vault_a_info
          require
              (vault_a_owner == program_a_info.key)
              (from_error Calculator.incorrect_token_program_id)
          vault_b_owner ← owner_of vault_b_info
          require
              (vault_b_owner == program_b_info.key)
              (from_error Calculator.incorrect_token_program_id)
          config ← load_config platform program_id config_info Calculator.config_not_initialized
          dest_a ← unpack_token_account platform dest_a_info program_a_info.key
          dest_b ← unpack_token_account platform dest_b_info program_b_info.key
          require_destination dest_a config pool.token_a_mint dest_a_info vault_a_info
          require_destination dest_b config pool.token_b_mint dest_b_info vault_b_info
          k)
            s
          ≡ ok r
        → Pinned × (k s ≡ ok r)
    pin_step k h =
        let (authority, h1) = derived_step platform program_id _ _ pool _ s h in
        let (vaults, h2) = require_step _ _ _ s h1 in
        let (vault_a, vault_b) = and_true _ _ vaults in
        let (_, h3) = require_step _ _ _ s (owner_step vault_a_info _ s h2) in
        let (_, h4) = require_step _ _ _ s (owner_step vault_b_info _ s h3) in
        let (config, configured, h5) = load_config_step platform program_id config_info _ _ s h4 in
        let (a, read_a, h6) = token_account_step platform dest_a_info _ _ s h5 in
        let (b, read_b, h7) = token_account_step platform dest_b_info _ _ s h6 in
        let (dest_a, h8) = destination_step platform a config _ _ _ _ s read_a.1 h7 in
        let (dest_b, h9) = destination_step platform b config _ _ _ k s read_b.1 h8 in
        (
          record {
            authority = authority;
            vault_a = (==_iff _ _).0 vault_a;
            vault_b = (==_iff _ _).0 vault_b;
            config = config;
            configured = configured;
            dest_a = dest_a;
            dest_b = dest_b;
          },
          h9,
        )

    -- The pool with both counters at zero.
    abbrev pub without_fees : SwapV2
    without_fees = record pool { protocol_fees_a = 0; protocol_fees_b = 0 }

    zero_counters_step :
        (st : Store) {p : Unit {0} × Store}
        → HoldsPool platform program_id pool_info st pool
        → IsSwapV2 pool
        → zero_counters platform program_id pool_info st ≡ ok p
        → HoldsPool platform program_id pool_info p.1 without_fees
    unfolding zero_counters
    zero_counters_step st held fits h =
        let h1 = held_v2_step platform program_id pool_info pool _ st held h in
        (repack_step platform packs program_id pool_info pool without_fees st held
          (record {
            bump_seed_fits = fits.bump_seed_fits;
            token_program_id_fits = fits.token_program_id_fits;
            token_a_fits = fits.token_a_fits;
            token_b_fits = fits.token_b_fits;
            pool_mint_fits = fits.pool_mint_fits;
            token_a_mint_fits = fits.token_a_mint_fits;
            token_b_mint_fits = fits.token_b_mint_fits;
            fees_fit = fits.fees_fit;
            curve_fits = fits.curve_fits;
            protocol_fees_a_fits = omega arith;
            protocol_fees_b_fits = omega arith;
          })
          (version_live platform packs pool _ held.unpacked) h1).0

    abbrev pub Collected : Type 0
    Collected =
        Pinned
        × (s1 s2 : Store) × SideCollected pool.protocol_fees_a vault_a_info dest_a_info mint_a_info
            program_a_info s s1
        × SideCollected pool.protocol_fees_b vault_b_info dest_b_info mint_b_info program_b_info s1
            s2
        × HoldsPool platform program_id pool_info s' without_fees

    -- A collection of the protocol's fees that succeeded: for each side, exactly what its counter holds
    -- moved from the pool's vault to an account of the configured treasury that holds the side's mint,
    -- and nothing moved where the counter was zero; the pool's account then differs by both counters
    -- being zero, and in nothing else.
    -- Conditions: the account holds a pool whose fields fit their types, the runtime keeps `RuntimeLaws`
    -- and `Pack` keeps `PackLaws`.
    pub collect_outcome :
        HoldsPool platform program_id pool_info s pool
        → IsSwapV2 pool
        → collect_protocol_fees platform program_id
            (pool_info ∷ authority_info ∷ vault_a_info ∷ vault_b_info ∷ dest_a_info ∷ dest_b_info
              ∷ mint_a_info ∷ mint_b_info ∷ config_info ∷ program_a_info ∷ program_b_info ∷ rest)
            s
          ≡ ok (tt, s')
        → Collected
    unfolding collect_protocol_fees
    collect_outcome held fits h =
        let (_, h1) = require_step _ _ _ s (owner_step pool_info _ s h) in
        let h2 = held_version_step platform program_id pool_info pool _ s held h1 in
        let (pinned, h3) = pin_step _ h2 in
        let (s1, side_a, held1, h4) =
          side_step pool.protocol_fees_a vault_a_info dest_a_info mint_a_info program_a_info _ s
            held h3 in
        let (s2, side_b, held2, h5) =
          side_step pool.protocol_fees_b vault_b_info dest_b_info mint_b_info program_b_info _ s1
            held1 h4 in
        (pinned, s1, s2, side_a, side_b, zero_counters_step s2 held2 fits h5)
