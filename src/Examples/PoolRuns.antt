-- ===== src/Examples/PoolRuns.antt =====
-- The handlers of the token swap program, run on a pool: program/src/processor.rs.
use rome_dex.Base.{ℕ, refl, true, ◌==◌, List, [], ◌∷◌, ◌++◌, if◌then◌else◌, arith}
use rome_dex.Solana.Bytes.{le_bytes}
use rome_dex.Solana.Runtime.{Store}
use rome_dex.Curve.Fees.{Fees}
use rome_dex.Curve.SwapCurve.Dispatch.{constant_product, product}
use rome_dex.Pool.State.{SwapV2, ProtocolConfig}
use rome_dex.Pool.Codec.{swap_v2_bytes, protocol_config_bytes}
use rome_dex.Pool.Codec.RoundTrips.{IsSwapV2, IsProtocolConfig}
use rome_dex.Examples.Host.{with_bytes}

abbrev pub fees : Fees
fees = record {
  trade_fee_numerator = 25;
  trade_fee_denominator = 10_000;
  owner_trade_fee_numerator = 5;
  owner_trade_fee_denominator = 10_000;
  owner_withdraw_fee_numerator = 0;
  owner_withdraw_fee_denominator = 0;
  host_fee_numerator = 0;
  host_fee_denominator = 0;
}

-- Pool 1 with the vaults 5 and 6 and the pool mint 7.
abbrev pub pool : SwapV2
pool = record {
  is_initialized = true;
  bump_seed = 253;
  token_program_id = 15;
  token_a = 5;
  token_b = 6;
  pool_mint = 7;
  token_a_mint = 11;
  token_b_mint = 12;
  fees = fees;
  swap_curve = record { curve_type = constant_product; calculator = product };
  protocol_fees_a = 100;
  protocol_fees_b = 0;
}

abbrev pub config : ProtocolConfig
config = record {
  version = 1;
  admin = 20;
  pending_admin = 21;
  treasury = 22;
  pool_creation_mode = 0;
}

pub pool_fits : IsSwapV2 pool
pool_fits = record {
  bump_seed_fits = omega arith;
  token_program_id_fits = omega arith;
  token_a_fits = omega arith;
  token_b_fits = omega arith;
  pool_mint_fits = omega arith;
  token_a_mint_fits = omega arith;
  token_b_mint_fits = omega arith;
  fees_fit = record {
    trade_numerator_fits = omega arith;
    trade_denominator_fits = omega arith;
    owner_numerator_fits = omega arith;
    owner_denominator_fits = omega arith;
    withdraw_numerator_fits = omega arith;
    withdraw_denominator_fits = omega arith;
    host_numerator_fits = omega arith;
    host_denominator_fits = omega arith;
  };
  curve_fits = refl;
  protocol_fees_a_fits = omega arith;
  protocol_fees_b_fits = omega arith;
}

pub config_fits : IsProtocolConfig config
config_fits = record {
  version_fits = omega arith;
  admin_fits = omega arith;
  pending_admin_fits = omega arith;
  treasury_fits = omega arith;
  mode_fits = omega arith;
}

-- A token account: mint, owner, amount.
abbrev pub tokens : ℕ → ℕ → ℕ → List ℕ
tokens mint owner amount = le_bytes 32 mint ++ (le_bytes 32 owner ++ le_bytes 8 amount)

abbrev pub before : Store
before key =
    if key == 1
    then with_bytes 9 5 (2 ∷ swap_v2_bytes pool (le_bytes 32 0) [])
    else if key == 2
    then with_bytes 9 5 (protocol_config_bytes config [])
    else if key == 5
    then with_bytes 15 5 (tokens 11 3 1_000_100)
    else if key == 6
    then with_bytes 15 5 (tokens 12 3 2_000_000)
    else if key == 7
    then with_bytes 15 5 (le_bytes 8 1_000_000)
    else if key == 31
    then with_bytes 15 5 (tokens 11 22 0)
    else if key == 32
    then with_bytes 15 5 (tokens 12 22 0)
    else if key == 33
    then with_bytes 15 5 (tokens 12 4 0)
    else with_bytes 15 5 (le_bytes 8 0)
