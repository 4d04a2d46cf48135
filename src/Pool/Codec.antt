-- ===== src/Pool/Codec.antt =====
-- The account layouts: `Pack` of `Fees` (program/src/curve/fees.rs), of `SwapCurve` (curve/base.rs with
-- `DynPack` of each curve), of `SwapV2` (state.rs) and of `ProtocolConfig` (config.rs).
pub mod RoundTrips
use rome_dex.Base.{ℕ, true, Option, none, some, List, ◌++◌, ◌==◌, Result, ok, err}
use rome_dex.Solana.Errors.{ProgramError, invalid_account_data}
use rome_dex.Solana.Bytes.{take, drop, le_bytes, from_le_bytes}
use rome_dex.Solana.Codec.{Reader, parsed, packed, ◌>>=◌, pure, number, flag, of_bool}
use rome_dex.Curve.Fees.{Fees}
use rome_dex.Curve.SwapCurve.Dispatch.{
  CurveType, constant_product, constant_price, offset, Calculator, product, price, shifted,
  try_from, as_u8,
}
use rome_dex.Pool.Platform.{Packed}
use rome_dex.Pool.State.{
  SwapCurve, SwapV2, ProtocolConfig, fees_len, swap_curve_len, swap_v2_len, protocol_config_len,
  config_version,
}

unfoldable pub read_fees : Reader Fees
read_fees = do
  trade_fee_numerator ← number 8
  trade_fee_denominator ← number 8
  owner_trade_fee_numerator ← number 8
  owner_trade_fee_denominator ← number 8
  owner_withdraw_fee_numerator ← number 8
  owner_withdraw_fee_denominator ← number 8
  host_fee_numerator ← number 8
  host_fee_denominator ← number 8
  pure (record {
    trade_fee_numerator = trade_fee_numerator;
    trade_fee_denominator = trade_fee_denominator;
    owner_trade_fee_numerator = owner_trade_fee_numerator;
    owner_trade_fee_denominator = owner_trade_fee_denominator;
    owner_withdraw_fee_numerator = owner_withdraw_fee_numerator;
    owner_withdraw_fee_denominator = owner_withdraw_fee_denominator;
    host_fee_numerator = host_fee_numerator;
    host_fee_denominator = host_fee_denominator;
  })

unfoldable pub fees_bytes : Fees → List ℕ → List ℕ
fees_bytes fees rest =
    le_bytes 8 fees.trade_fee_numerator
    ++ (le_bytes 8 fees.trade_fee_denominator
        ++ (le_bytes 8 fees.owner_trade_fee_numerator
            ++ (le_bytes 8 fees.owner_trade_fee_denominator
                ++ (le_bytes 8 fees.owner_withdraw_fee_numerator
                    ++ (le_bytes 8 fees.owner_withdraw_fee_denominator
                        ++ (le_bytes 8 fees.host_fee_numerator
                            ++ (le_bytes 8 fees.host_fee_denominator ++ rest)))))))

-- A part of fixed length, given on as it is.
unfoldable pub chunk : ℕ → Reader (List ℕ)
chunk w input = ok (take w input, drop w input)

-- `curve_type[0].try_into()?`
unfoldable pub as_curve_type : ℕ → Reader CurveType
as_curve_type tag input = elim (try_from tag) [
  | none ↦ err invalid_account_data
  | some curve_type ↦ ok (curve_type, input)
]

-- `unpack_from_slice` of the curve that the tag names.
unfoldable pub calculator_from : CurveType → List ℕ → Calculator
calculator_from constant_product bytes = product
calculator_from constant_price bytes =
    price (record { token_b_price = from_le_bytes (take 8 bytes) })
calculator_from offset bytes = shifted (record { token_b_offset = from_le_bytes (take 8 bytes) })

-- `DynPack::pack_into_slice`: a curve writes its parameter over the front of the 32 bytes and leaves the
-- others as they were.
unfoldable pub calculator_bytes : Calculator → List ℕ → List ℕ
calculator_bytes product old = old
calculator_bytes (price curve) old = le_bytes 8 curve.token_b_price ++ drop 8 old
calculator_bytes (shifted curve) old = le_bytes 8 curve.token_b_offset ++ drop 8 old

unfoldable pub read_swap_curve : Reader SwapCurve
read_swap_curve = do
  tag ← number 1
  curve_type ← as_curve_type tag
  bytes ← chunk 32
  pure (record { curve_type = curve_type; calculator = calculator_from curve_type bytes })

unfoldable pub swap_curve_bytes : SwapCurve → List ℕ → List ℕ → List ℕ
swap_curve_bytes curve old rest =
    le_bytes 1 (as_u8 curve.curve_type) ++ (calculator_bytes curve.calculator old ++ rest)

unfoldable pub read_swap_v2 : Reader SwapV2
read_swap_v2 = do
  is_initialized ← flag
  bump_seed ← number 1
  token_program_id ← number 32
  token_a ← number 32
  token_b ← number 32
  pool_mint ← number 32
  token_a_mint ← number 32
  token_b_mint ← number 32
  fees ← read_fees
  swap_curve ← read_swap_curve
  protocol_fees_a ← number 8
  protocol_fees_b ← number 8
  pure (record {
    is_initialized = is_initialized;
    bump_seed = bump_seed;
    token_program_id = token_program_id;
    token_a = token_a;
    token_b = token_b;
    pool_mint = pool_mint;
    token_a_mint = token_a_mint;
    token_b_mint = token_b_mint;
    fees = fees;
    swap_curve = swap_curve;
    protocol_fees_a = protocol_fees_a;
    protocol_fees_b = protocol_fees_b;
  })

-- `old` is what the 32 bytes of the curve held before.
unfoldable pub swap_v2_bytes : SwapV2 → List ℕ → List ℕ → List ℕ
swap_v2_bytes pool old rest =
    le_bytes 1 (of_bool pool.is_initialized)
    ++ (le_bytes 1 pool.bump_seed
        ++ (le_bytes 32 pool.token_program_id
            ++ (le_bytes 32 pool.token_a
                ++ (le_bytes 32 pool.token_b
                    ++ (le_bytes 32 pool.pool_mint
                        ++ (le_bytes 32 pool.token_a_mint
                            ++ (le_bytes 32 pool.token_b_mint
                                ++ fees_bytes pool.fees (
                                    swap_curve_bytes pool.swap_curve old (
                                      le_bytes 8 pool.protocol_fees_a
                                      ++ (le_bytes 8 pool.protocol_fees_b ++ rest))))))))))

unfoldable pub read_protocol_config : Reader ProtocolConfig
read_protocol_config = do
  version ← number 1
  admin ← number 32
  pending_admin ← number 32
  treasury ← number 32
  pool_creation_mode ← number 1
  pure (record {
    version = version;
    admin = admin;
    pending_admin = pending_admin;
    treasury = treasury;
    pool_creation_mode = pool_creation_mode;
  })

unfoldable pub protocol_config_bytes : ProtocolConfig → List ℕ → List ℕ
protocol_config_bytes config rest =
    le_bytes 1 config.version
    ++ (le_bytes 32 config.admin
        ++ (le_bytes 32 config.pending_admin
            ++ (le_bytes 32 config.treasury ++ (le_bytes 1 config.pool_creation_mode ++ rest))))

abbrev pub packed_fees : Packed Fees
packed_fees = record {
  len = fees_len;
  is_initialized = λ fees. true;
  unpack_from_slice = λ input. parsed fees_len read_fees input;
  pack_into_slice = λ fees output. packed fees_len (fees_bytes fees) output;
}

abbrev pub packed_swap_curve : Packed SwapCurve
packed_swap_curve = record {
  len = swap_curve_len;
  is_initialized = λ curve. true;
  unpack_from_slice = λ input. parsed swap_curve_len read_swap_curve input;
  pack_into_slice = λ curve output.
      packed swap_curve_len (swap_curve_bytes curve (take 32 (drop 1 output))) output;
}

abbrev pub packed_swap_v2 : Packed SwapV2
packed_swap_v2 = record {
  len = swap_v2_len;
  is_initialized = λ pool. pool.is_initialized;
  unpack_from_slice = λ input. parsed swap_v2_len read_swap_v2 input;
  pack_into_slice =
      λ pool output. packed swap_v2_len (swap_v2_bytes pool (take 32 (drop 259 output))) output;
}

abbrev pub packed_protocol_config : Packed ProtocolConfig
packed_protocol_config = record {
  len = protocol_config_len;
  is_initialized = λ config. config.version == config_version;
  unpack_from_slice = λ input. parsed protocol_config_len read_protocol_config input;
  pack_into_slice =
      λ config output. packed protocol_config_len (protocol_config_bytes config) output;
}
