-- ===== src/Pool/Codec/RoundTrips.antt =====
-- What is packed is read back: fees, curves, pools and the protocol's configuration.
use mathlib.Core.Path.{subst}
use mathlib.Core.List.{append_assoc}
use rome_dex.Base.{
  ℕ, zero, suc, ◌^◌, ◌+◌, ◌≤◌, ◌<◌, ◌≡◌, refl, List, [], ◌∷◌, ◌++◌, ok, err, panic, arith, ◌∙◌, ap,
}
use rome_dex.Solana.Bytes.{
  length, take, drop, length-append, length-le_bytes, length-drop, take-le_bytes,
  from_le_bytes-le_bytes,
}
use rome_dex.Solana.Codec.{Reader, ◌>>=◌, parsed-packed, number-le_bytes, flag-le_bytes}
use rome_dex.Curve.Fees.{Fees}
use rome_dex.Curve.SwapCurve.Dispatch.{
  CurveType, constant_product, constant_price, offset, Calculator, product, price, shifted,
  try_from, as_u8,
}
use rome_dex.Pool.State.{SwapCurve, SwapV2, ProtocolConfig, swap_v2_len, protocol_config_len}
use rome_dex.Pool.Codec.{
  read_fees, fees_bytes, chunk, as_curve_type, calculator_from, calculator_bytes, read_swap_curve,
  swap_curve_bytes, read_swap_v2, swap_v2_bytes, read_protocol_config, protocol_config_bytes,
  packed_swap_v2, packed_protocol_config,
}

pub record IsFees (fees : Fees) : Type 0 where
  pub trade_numerator_fits : fees.trade_fee_numerator < 256 ^ 8
  pub trade_denominator_fits : fees.trade_fee_denominator < 256 ^ 8
  pub owner_numerator_fits : fees.owner_trade_fee_numerator < 256 ^ 8
  pub owner_denominator_fits : fees.owner_trade_fee_denominator < 256 ^ 8
  pub withdraw_numerator_fits : fees.owner_withdraw_fee_numerator < 256 ^ 8
  pub withdraw_denominator_fits : fees.owner_withdraw_fee_denominator < 256 ^ 8
  pub host_numerator_fits : fees.host_fee_numerator < 256 ^ 8
  pub host_denominator_fits : fees.host_fee_denominator < 256 ^ 8

-- The tag names the calculator, and its parameter is a u64.
abbrev pub IsCurve : SwapCurve → Type 0
IsCurve curve = elim curve.calculator [
  | product ↦ curve.curve_type ≡ constant_product
  | price c ↦ (curve.curve_type ≡ constant_price) × (c.token_b_price < 256 ^ 8)
  | shifted c ↦ (curve.curve_type ≡ offset) × (c.token_b_offset < 256 ^ 8)
]

pub record IsSwapV2 (pool : SwapV2) : Type 0 where
  pub bump_seed_fits : pool.bump_seed < 256 ^ 1
  pub token_program_id_fits : pool.token_program_id < 256 ^ 32
  pub token_a_fits : pool.token_a < 256 ^ 32
  pub token_b_fits : pool.token_b < 256 ^ 32
  pub pool_mint_fits : pool.pool_mint < 256 ^ 32
  pub token_a_mint_fits : pool.token_a_mint < 256 ^ 32
  pub token_b_mint_fits : pool.token_b_mint < 256 ^ 32
  pub fees_fit : IsFees pool.fees
  pub curve_fits : IsCurve pool.swap_curve
  pub protocol_fees_a_fits : pool.protocol_fees_a < 256 ^ 8
  pub protocol_fees_b_fits : pool.protocol_fees_b < 256 ^ 8

pub record IsProtocolConfig (config : ProtocolConfig) : Type 0 where
  pub version_fits : config.version < 256 ^ 1
  pub admin_fits : config.admin < 256 ^ 32
  pub pending_admin_fits : config.pending_admin < 256 ^ 32
  pub treasury_fits : config.treasury < 256 ^ 32
  pub mode_fits : config.pool_creation_mode < 256 ^ 1

pub read_fees-bytes :
    (fees : Fees) (rest : List ℕ) → IsFees fees → read_fees (fees_bytes fees rest) ≡ ok (fees, rest)
unfolding read_fees fees_bytes
read_fees-bytes fees rest h =
    number-le_bytes 8 fees.trade_fee_numerator _ _ h.trade_numerator_fits
    ∙ number-le_bytes 8 fees.trade_fee_denominator _ _ h.trade_denominator_fits
    ∙ number-le_bytes 8 fees.owner_trade_fee_numerator _ _ h.owner_numerator_fits
    ∙ number-le_bytes 8 fees.owner_trade_fee_denominator _ _ h.owner_denominator_fits
    ∙ number-le_bytes 8 fees.owner_withdraw_fee_numerator _ _ h.withdraw_numerator_fits
    ∙ number-le_bytes 8 fees.owner_withdraw_fee_denominator _ _ h.withdraw_denominator_fits
    ∙ number-le_bytes 8 fees.host_fee_numerator _ _ h.host_numerator_fits
    ∙ number-le_bytes 8 fees.host_fee_denominator _ _ h.host_denominator_fits

pub length-fees_bytes :
    (fees : Fees) (rest : List ℕ) → length (fees_bytes fees rest) ≡ 64 + length rest
unfolding fees_bytes
length-fees_bytes fees rest = simp (length-append, length-le_bytes) (omega arith)

-- A reader that gives back what was written, before the reader of what follows.
then_read :
    {A B : Type 0} (reader : Reader A) (f : A → Reader B) {input rest : List ℕ} {a : A}
    → reader input ≡ ok (a, rest)
    → (reader >>= f) input ≡ f a rest
then_read reader f e =
    ap (λ r. elim r [ ok (a, rest) ↦ f a rest | err e ↦ err e | panic ↦ panic ]) e

length-take : {A : Type 0} (n : ℕ) (xs : List A) → n ≤ length xs → length (take n xs) ≡ n
length-take zero xs h = refl
length-take (suc n) (x ∷ xs) h = omega (arith, length-take n xs (omega arith))
length-take (suc n) [] h = omega arith

take-append : {A : Type 0} (xs ys : List A) → take (length xs) (xs ++ ys) ≡ xs
take-append [] ys = refl
take-append (x ∷ xs) ys = rw (take-append xs ys)

drop-append : {A : Type 0} (xs ys : List A) → drop (length xs) (xs ++ ys) ≡ ys
drop-append [] ys = refl
drop-append (x ∷ xs) ys = drop-append xs ys

chunk-append : (w : ℕ) (xs rest : List ℕ) → length xs ≡ w → chunk w (xs ++ rest) ≡ ok (xs, rest)
unfolding chunk
chunk-append w xs rest h = rw (← h, take-append xs rest, drop-append xs rest)

length-calculator_bytes :
    (calculator : Calculator) (old : List ℕ)
    → length old ≡ 32
    → length (calculator_bytes calculator old) ≡ 32
unfolding calculator_bytes
length-calculator_bytes product old h = h
length-calculator_bytes (price c) old h =
    simp (length-append, length-le_bytes, length-drop) (omega arith)
length-calculator_bytes (shifted c) old h =
    simp (length-append, length-le_bytes, length-drop) (omega arith)

tag_read :
    (curve_type : CurveType) (input : List ℕ)
    → as_curve_type (as_u8 curve_type) input ≡ ok (curve_type, input)
unfolding as_curve_type try_from as_u8
tag_read constant_product input = refl
tag_read constant_price input = refl
tag_read offset input = refl

tag_fits : (curve_type : CurveType) → as_u8 curve_type < 256 ^ 1
unfolding as_u8
tag_fits constant_product = omega arith
tag_fits constant_price = omega arith
tag_fits offset = omega arith

calculator_read :
    (tag : CurveType) (calculator : Calculator) (old : List ℕ)
    → IsCurve (record { curve_type = tag; calculator = calculator })
    → calculator_from tag (calculator_bytes calculator old) ≡ calculator
unfolding calculator_from calculator_bytes
calculator_read tag product old h = rw h refl
calculator_read tag (price c) old (h, k) =
    rw (h, take-le_bytes 8 c.token_b_price (drop 8 old), from_le_bytes-le_bytes 8 c.token_b_price k)
      refl
calculator_read tag (shifted c) old (h, k) =
    rw
      (
        h,
        take-le_bytes 8 c.token_b_offset (drop 8 old),
        from_le_bytes-le_bytes 8 c.token_b_offset k,
      )
      refl

pub read_swap_curve-bytes :
    (curve : SwapCurve) (old rest : List ℕ)
    → length old ≡ 32
    → IsCurve curve
    → read_swap_curve (swap_curve_bytes curve old rest) ≡ ok (curve, rest)
unfolding read_swap_curve swap_curve_bytes
read_swap_curve-bytes curve old rest len h =
    number-le_bytes 1 (as_u8 curve.curve_type) _ _ (tag_fits curve.curve_type)
    ∙ then_read (as_curve_type (as_u8 curve.curve_type)) _ (tag_read curve.curve_type _)
    ∙ then_read (chunk 32) _ (
        chunk-append 32 (calculator_bytes curve.calculator old) rest
          (length-calculator_bytes curve.calculator old len))
    ∙ ap (λ c. ok (record { curve_type = curve.curve_type; calculator = c }, rest))
        (calculator_read curve.curve_type curve.calculator old h)

-- The bytes of the fees, cut off what follows them.
fees_bytes-append :
    (fees : Fees) (rest : List ℕ) → fees_bytes fees rest ≡ fees_bytes fees [] ++ rest
unfolding fees_bytes
fees_bytes-append fees rest = simp (append_assoc) refl

pub fees_cut :
    (fees : Fees) (rest : List ℕ)
    → (take 64 (fees_bytes fees rest) ≡ fees_bytes fees [])
      × (drop 64 (fees_bytes fees rest) ≡ rest)
fees_cut fees rest =
    let len : length (fees_bytes fees []) ≡ 64 = length-fees_bytes fees [] in
    (
      ap (take 64) (fees_bytes-append fees rest)
          ∙ subst (λ n. take n (fees_bytes fees [] ++ rest) ≡ fees_bytes fees []) len
              (take-append (fees_bytes fees []) rest),
      ap (drop 64) (fees_bytes-append fees rest)
          ∙ subst (λ n. drop n (fees_bytes fees [] ++ rest) ≡ rest) len
              (drop-append (fees_bytes fees []) rest),
    )

pub length-swap_curve_bytes :
    (curve : SwapCurve) (old rest : List ℕ)
    → length old ≡ 32
    → length (swap_curve_bytes curve old rest) ≡ 33 + length rest
unfolding swap_curve_bytes
length-swap_curve_bytes curve old rest len =
    simp (length-append, length-le_bytes, length-calculator_bytes curve.calculator old len)
      (omega arith)

read_swap_v2-bytes :
    (pool : SwapV2) (old rest : List ℕ)
    → length old ≡ 32
    → IsSwapV2 pool
    → read_swap_v2 (swap_v2_bytes pool old rest) ≡ ok (pool, rest)
unfolding read_swap_v2 swap_v2_bytes
read_swap_v2-bytes pool old rest len h =
    flag-le_bytes pool.is_initialized _ _
    ∙ number-le_bytes 1 pool.bump_seed _ _ h.bump_seed_fits
    ∙ number-le_bytes 32 pool.token_program_id _ _ h.token_program_id_fits
    ∙ number-le_bytes 32 pool.token_a _ _ h.token_a_fits
    ∙ number-le_bytes 32 pool.token_b _ _ h.token_b_fits
    ∙ number-le_bytes 32 pool.pool_mint _ _ h.pool_mint_fits
    ∙ number-le_bytes 32 pool.token_a_mint _ _ h.token_a_mint_fits
    ∙ number-le_bytes 32 pool.token_b_mint _ _ h.token_b_mint_fits
    ∙ then_read read_fees _ (read_fees-bytes pool.fees _ h.fees_fit)
    ∙ then_read read_swap_curve _ (read_swap_curve-bytes pool.swap_curve old _ len h.curve_fits)
    ∙ number-le_bytes 8 pool.protocol_fees_a _ _ h.protocol_fees_a_fits
    ∙ number-le_bytes 8 pool.protocol_fees_b _ _ h.protocol_fees_b_fits

length-swap_v2_bytes :
    (pool : SwapV2) (old rest : List ℕ)
    → length old ≡ 32
    → length (swap_v2_bytes pool old rest) ≡ swap_v2_len + length rest
unfolding swap_v2_bytes
length-swap_v2_bytes pool old rest len =
    simp
      (
        length-append,
        length-le_bytes,
        length-fees_bytes,
        λ (r : List ℕ). length-swap_curve_bytes pool.swap_curve old r len,
      )
      (omega arith)

read_protocol_config-bytes :
    (config : ProtocolConfig) (rest : List ℕ)
    → IsProtocolConfig config
    → read_protocol_config (protocol_config_bytes config rest) ≡ ok (config, rest)
unfolding read_protocol_config protocol_config_bytes
read_protocol_config-bytes config rest h =
    number-le_bytes 1 config.version _ _ h.version_fits
    ∙ number-le_bytes 32 config.admin _ _ h.admin_fits
    ∙ number-le_bytes 32 config.pending_admin _ _ h.pending_admin_fits
    ∙ number-le_bytes 32 config.treasury _ _ h.treasury_fits
    ∙ number-le_bytes 1 config.pool_creation_mode _ _ h.mode_fits

length-protocol_config_bytes :
    (config : ProtocolConfig) (rest : List ℕ)
    → length (protocol_config_bytes config rest) ≡ protocol_config_len + length rest
unfolding protocol_config_bytes
length-protocol_config_bytes config rest = simp (length-append, length-le_bytes) (omega arith)

-- A packed configuration is read back.
pub protocol_config_kept :
    (config : ProtocolConfig) (output : List ℕ) {bytes : List ℕ}
    → IsProtocolConfig config
    → packed_protocol_config.pack_into_slice config output ≡ ok bytes
    → (packed_protocol_config.unpack_from_slice bytes ≡ ok config) × (length bytes ≡ length output)
protocol_config_kept config output h e =
    parsed-packed protocol_config_len read_protocol_config (protocol_config_bytes config) config
      output (λ rest. read_protocol_config-bytes config rest h)
      (length-protocol_config_bytes config) e

-- A packed pool is read back, whatever the buffer held before.
pub swap_v2_kept :
    (pool : SwapV2) (output : List ℕ) {bytes : List ℕ}
    → length output ≡ swap_v2_len
    → IsSwapV2 pool
    → packed_swap_v2.pack_into_slice pool output ≡ ok bytes
    → (packed_swap_v2.unpack_from_slice bytes ≡ ok pool) × (length bytes ≡ length output)
swap_v2_kept pool output room h e =
    let old = take 32 (drop 259 output) in
    let len : length old ≡ 32 =
      length-take 32 (drop 259 output) (omega (arith, length-drop 259 output)) in
    parsed-packed swap_v2_len read_swap_v2 (swap_v2_bytes pool old) pool output
      (λ rest. read_swap_v2-bytes pool old rest len h)
      (λ rest. length-swap_v2_bytes pool old rest len) e
