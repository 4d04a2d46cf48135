-- ===== src/Orders/Codec.antt =====
-- `Order::pack` and `Order::unpack`: orders/src/state.rs.
use rome_dex.Base.{ℕ, ◌^◌, ◌+◌, ◌<◌, ◌≡◌, List, ◌++◌, Result, ok, arith, ◌∙◌}
use rome_dex.Solana.Errors.{ProgramError}
use rome_dex.Solana.Bytes.{length, le_bytes, length-append, length-le_bytes}
use rome_dex.Solana.Codec.{
  Reader, parsed, packed, parsed-packed, ◌>>=◌, pure, number, flag, signed, of_bool, pattern_of,
  IsI64, number-le_bytes, flag-le_bytes, signed-le_bytes,
}
use rome_dex.Orders.State.{Order, order_len}

unfoldable pub read_order : Reader Order
read_order = do
  is_initialized ← flag
  bump ← number 1
  status ← number 1
  owner ← number 32
  pool ← number 32
  input_escrow ← number 32
  output_escrow ← number 32
  dst_ata ← number 32
  nonce ← number 8
  a_to_b ← flag
  amount_in_total ← number 8
  remaining_in ← number 8
  tranche_in ← number 8
  min_out_per_tranche ← number 8
  interval_secs ← number 8
  last_exec_ts ← signed
  expiry_ts ← signed
  keeper_fee_bps ← number 2
  pure (record {
    is_initialized = is_initialized;
    bump = bump;
    status = status;
    owner = owner;
    pool = pool;
    input_escrow = input_escrow;
    output_escrow = output_escrow;
    dst_ata = dst_ata;
    nonce = nonce;
    a_to_b = a_to_b;
    amount_in_total = amount_in_total;
    remaining_in = remaining_in;
    tranche_in = tranche_in;
    min_out_per_tranche = min_out_per_tranche;
    interval_secs = interval_secs;
    last_exec_ts = last_exec_ts;
    expiry_ts = expiry_ts;
    keeper_fee_bps = keeper_fee_bps;
  })

unfoldable pub unpack_order : List ℕ → Result ProgramError Order
unpack_order input = parsed order_len read_order input

-- The fields of an order, before what the buffer has behind them.
abbrev order_bytes : Order → List ℕ → List ℕ
order_bytes order rest =
    le_bytes 1 (of_bool order.is_initialized)
    ++ (le_bytes 1 order.bump
        ++ (le_bytes 1 order.status
            ++ (le_bytes 32 order.owner
                ++ (le_bytes 32 order.pool
                    ++ (le_bytes 32 order.input_escrow
                        ++ (le_bytes 32 order.output_escrow
                            ++ (le_bytes 32 order.dst_ata
                                ++ (le_bytes 8 order.nonce
                                    ++ (le_bytes 1 (of_bool order.a_to_b)
                                        ++ (le_bytes 8 order.amount_in_total
                                            ++ (le_bytes 8 order.remaining_in
                                                ++ (le_bytes 8 order.tranche_in
                                                    ++ (le_bytes 8 order.min_out_per_tranche
                                                        ++ (le_bytes 8 order.interval_secs
                                                            ++ (le_bytes 8
                                                            (pattern_of order.last_exec_ts)
                                                            ++ (le_bytes 8
                                                            (pattern_of order.expiry_ts)
                                                            ++ (le_bytes 2 order.keeper_fee_bps
                                                            ++ rest)))))))))))))))))

unfoldable pub pack_order : Order → List ℕ → Result ProgramError (List ℕ)
pack_order order output = packed order_len (order_bytes order) output

-- Every field fits its type.
pub record FitsOrder (order : Order) : Type 0 where
  pub bump_fits : order.bump < 256 ^ 1
  pub status_fits : order.status < 256 ^ 1
  pub owner_fits : order.owner < 256 ^ 32
  pub pool_fits : order.pool < 256 ^ 32
  pub input_escrow_fits : order.input_escrow < 256 ^ 32
  pub output_escrow_fits : order.output_escrow < 256 ^ 32
  pub dst_ata_fits : order.dst_ata < 256 ^ 32
  pub nonce_fits : order.nonce < 256 ^ 8
  pub amount_in_total_fits : order.amount_in_total < 256 ^ 8
  pub remaining_in_fits : order.remaining_in < 256 ^ 8
  pub tranche_in_fits : order.tranche_in < 256 ^ 8
  pub min_out_per_tranche_fits : order.min_out_per_tranche < 256 ^ 8
  pub interval_secs_fits : order.interval_secs < 256 ^ 8
  pub last_exec_ts_fits : IsI64 order.last_exec_ts
  pub expiry_ts_fits : IsI64 order.expiry_ts
  pub keeper_fee_bps_fits : order.keeper_fee_bps < 256 ^ 2

read_order-bytes :
    (order : Order) (rest : List ℕ)
    → FitsOrder order
    → read_order (order_bytes order rest) ≡ ok (order, rest)
unfolding read_order
read_order-bytes order rest h =
    flag-le_bytes order.is_initialized _ _
    ∙ number-le_bytes 1 order.bump _ _ h.bump_fits
    ∙ number-le_bytes 1 order.status _ _ h.status_fits
    ∙ number-le_bytes 32 order.owner _ _ h.owner_fits
    ∙ number-le_bytes 32 order.pool _ _ h.pool_fits
    ∙ number-le_bytes 32 order.input_escrow _ _ h.input_escrow_fits
    ∙ number-le_bytes 32 order.output_escrow _ _ h.output_escrow_fits
    ∙ number-le_bytes 32 order.dst_ata _ _ h.dst_ata_fits
    ∙ number-le_bytes 8 order.nonce _ _ h.nonce_fits
    ∙ flag-le_bytes order.a_to_b _ _
    ∙ number-le_bytes 8 order.amount_in_total _ _ h.amount_in_total_fits
    ∙ number-le_bytes 8 order.remaining_in _ _ h.remaining_in_fits
    ∙ number-le_bytes 8 order.tranche_in _ _ h.tranche_in_fits
    ∙ number-le_bytes 8 order.min_out_per_tranche _ _ h.min_out_per_tranche_fits
    ∙ number-le_bytes 8 order.interval_secs _ _ h.interval_secs_fits
    ∙ signed-le_bytes order.last_exec_ts _ _ h.last_exec_ts_fits
    ∙ signed-le_bytes order.expiry_ts _ _ h.expiry_ts_fits
    ∙ number-le_bytes 2 order.keeper_fee_bps _ _ h.keeper_fee_bps_fits

length-order_bytes :
    (order : Order) (rest : List ℕ) → length (order_bytes order rest) ≡ order_len + length rest
length-order_bytes order rest = simp (length-append, length-le_bytes) (omega arith)

-- An order whose fields fit their types, packed into a buffer that has room for it, is read back as it
-- was, and the buffer keeps its length.
pub unpack-pack_order :
    (order : Order) (output : List ℕ) {bytes : List ℕ}
    → FitsOrder order
    → pack_order order output ≡ ok bytes
    → (unpack_order bytes ≡ ok order) × (length bytes ≡ length output)
unfolding pack_order unpack_order
unpack-pack_order order output h e =
    parsed-packed order_len read_order (order_bytes order) order output
      (λ rest. read_order-bytes order rest h) (length-order_bytes order) e
