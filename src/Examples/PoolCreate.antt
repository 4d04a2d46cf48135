-- ===== src/Examples/PoolCreate.antt =====
-- The creation of a pool: program/src/processor.rs.
use rome_dex.Base.{ℕ, ◌≡◌, refl, true, ◌==◌, List, [], ◌∷◌, ok, some, if◌then◌else◌}
use rome_dex.Solana.Bytes.{length, from_le_bytes, le_bytes}
use rome_dex.Solana.Codec.{number}
use rome_dex.Solana.Runtime.{
  AccountInfo, Seeds, Store, ◌>>=◌, ◌>>◌, pure, fail, lift, require, owner_of, lamports_of,
  contents_of, write, invoke,
}
use rome_dex.Curve.Fees
use rome_dex.Curve.Fees.{validate_fraction}
use rome_dex.Curve.SwapCurve.Dispatch
use rome_dex.Curve.SwapCurve.Dispatch.{constant_product, product, as_u8, default_validate_supply}
use rome_dex.Pool.Platform.{Platform}
use rome_dex.Pool.State.{is_permissionless}
use rome_dex.Pool.Constraints.{swap_constraints, contains, validate_curve, validate_fees}
use rome_dex.Pool.FeeTier.{term, bound, check_fee_bps}
use rome_dex.Pool.Codec.{
  fees_bytes, calculator_bytes, swap_curve_bytes, swap_v2_bytes, read_protocol_config,
  protocol_config_bytes,
}
use rome_dex.Pool.Version
use rome_dex.Pool.Version.{unpack_version, pack_version}
use rome_dex.Pool.Config.{find_address, load_config}
use rome_dex.Pool.Processor.Tokens.{
  to_u64, require_token_owner, unpack_token_account, unpack_mint, token_mint_to, top_up,
  create_pda_account,
}
use rome_dex.Pool.Processor.Create.{
  check_new_pool, check_constraints, require_derived, require_new, store_version, init_pool_state,
  require_policy, create_lp_accounts, create_pool,
}
use rome_dex.Pool.Creation.{Created, create_outcome}
use rome_dex.Examples.Host.{runtime, account_at, signer_at, with_bytes, left_by}
use rome_dex.Examples.PoolHost
use rome_dex.Examples.PoolRuns.{fees, config, tokens}

-- Addresses by the length of the first seed: "cp_pool" gives 50, "cp_lp" 40, "config" 2, "cp_dest" 41
-- and a key 3.
abbrev created : Seeds → ℕ
created [] = 0
created (seed ∷ rest) = if length seed == 7 then 50 else 40

abbrev found : Seeds → ℕ
found [] = 0
found (seed ∷ rest) = if length seed == 6 then 2 else if length seed == 7 then 41 else 3

abbrev platform : Platform
platform = record PoolHost.platform {
  runtime = record runtime {
    create_program_address = λ seeds program_id. some (created seeds);
    find_program_address = λ seeds program_id. (found seeds, 253);
  };
}

abbrev before : Store
before key =
    if key == 50
    then with_bytes 9 5 (le_bytes 308 0)
    else if key == 2
    then with_bytes 9 5 (protocol_config_bytes config [])
    else if key == 5
    then with_bytes 15 5 (tokens 11 3 1_000_000)
    else if key == 6
    then with_bytes 15 5 (tokens 12 3 2_000_000)
    else with_bytes 15 5 (tokens 0 20 0)

abbrev accounts : List AccountInfo
accounts =
    signer_at 20
    ∷ account_at 50
    ∷ account_at 3
    ∷ account_at 11
    ∷ account_at 12
    ∷ account_at 5
    ∷ account_at 6
    ∷ account_at 40
    ∷ account_at 41
    ∷ account_at 15
    ∷ account_at 0
    ∷ account_at 2
    ∷ []

abbrev after : Store
after =
    left_by
      (create_pool platform 9 fees (record { curve_type = constant_product; calculator = product })
        30 253 254 accounts (swap_constraints true) before)
      before

create_run :
    create_pool platform 9 fees
      (record { curve_type = constant_product; calculator = product })
      30
      253
      254
      accounts
      (swap_constraints true)
      before
    ≡ ok (tt, after)
unfolding create_pool require_policy find_address load_config read_protocol_config
    protocol_config_bytes number from_le_bytes le_bytes is_permissionless require_new
    Version.is_initialized unpack_version check_fee_bps bound term require_derived
    create_pda_account top_up lamports_of create_lp_accounts init_pool_state unpack_token_account
    require_token_owner unpack_mint check_new_pool Dispatch.validate_supply default_validate_supply
    swap_constraints check_constraints validate_curve contains validate_fees as_u8 Fees.validate
    validate_fraction Dispatch.validate to_u64 token_mint_to store_version pack_version
    PoolHost.of_length swap_v2_bytes fees_bytes swap_curve_bytes calculator_bytes ◌>>=◌ ◌>>◌ pure
    fail lift require owner_of contents_of write invoke
create_run = refl

create_outcome_example :
    Created platform 9 fees
      (record { curve_type = constant_product; calculator = product })
      30
      253
      254
      (signer_at 20)
      (account_at 50)
      (account_at 3)
      (account_at 11)
      (account_at 12)
      (account_at 5)
      (account_at 6)
      (account_at 40)
      (account_at 41)
      (account_at 15)
      (account_at 0)
      (account_at 2)
      []
      (swap_constraints true)
      before
      after
create_outcome_example =
    create_outcome platform 9 fees (record { curve_type = constant_product; calculator = product })
      30 253 254 (signer_at 20) (account_at 50) (account_at 3) (account_at 11) (account_at 12)
      (account_at 5) (account_at 6) (account_at 40) (account_at 41) (account_at 15) (account_at 0)
      (account_at 2) [] (swap_constraints true) before after create_run
