-- ===== src/Orders/State.antt =====
-- Orders and the arithmetic of their execution: orders/src/state.rs and orders/src/error.rs.
use rome_dex.Base.{
  ℕ, ◌-◌, ◌*◌, ◌/◌, ◌%◌, ◌^◌, Bool, Result, ok, ◌>>=◌, ok_or, ltb, leb, ◌==◌, if◌then◌else◌,
}
use rome_dex.Base.Words.{checked_sub, checked_mul_u128, to_u64, div_ceil}
use rome_dex.Base.Int.{ℤ, pos, negsuc, pos_part, neg_part, leb_ℤ, ◌+ℤ◌}
use rome_dex.Solana.Errors.{ProgramError}
use rome_dex.Solana.Codec.{signed_of}
use rome_dex.Solana.Runtime.{Pubkey}

pub data OrderError : Type 0 where
  already_initialized uninitialized address_mismatch invalid_token_account : OrderError
  incorrect_token_program incorrect_dex_program unauthorized not_open not_expired : OrderError
  interval_not_elapsed fee_too_high invalid_params below_minimum overflow : OrderError
  invalid_instruction : OrderError

-- `e as u32`
unfoldable pub code : OrderError → ℕ
code already_initialized = 0
code uninitialized = 1
code address_mismatch = 2
code invalid_token_account = 3
code incorrect_token_program = 4
code incorrect_dex_program = 5
code unauthorized = 6
code not_open = 7
code not_expired = 8
code interval_not_elapsed = 9
code fee_too_high = 10
code invalid_params = 11
code below_minimum = 12
code overflow = 13
code invalid_instruction = 14

-- `impl From<OrderError> for ProgramError`
unfoldable pub from_error : OrderError → ProgramError
unfolding code
from_error e = ProgramError.custom (code e)

abbrev pub order_len : ℕ
order_len = 230

abbrev pub max_keeper_fee_bps : ℕ
max_keeper_fee_bps = 50

abbrev pub max_interval_secs : ℕ
max_interval_secs = 365 * 24 * 60 * 60

abbrev pub bps_denom : ℕ
bps_denom = 10_000

abbrev pub status_open : ℕ
status_open = 0

abbrev pub status_filled : ℕ
status_filled = 1

pub record Order : Type 0 where
  pub is_initialized : Bool
  pub bump : ℕ
  pub status : ℕ
  pub owner : Pubkey
  pub pool : Pubkey
  pub input_escrow : Pubkey
  pub output_escrow : Pubkey
  pub dst_ata : Pubkey
  pub nonce : ℕ
  pub a_to_b : Bool
  pub amount_in_total : ℕ
  pub remaining_in : ℕ
  pub tranche_in : ℕ
  pub min_out_per_tranche : ℕ
  pub interval_secs : ℕ
  pub last_exec_ts : ℤ
  pub expiry_ts : ℤ
  pub keeper_fee_bps : ℕ

-- `saturating_add` on an i64.
abbrev pub saturating_add_i64 : ℤ → ℤ → ℤ
saturating_add_i64 a b =
    let sum = a +ℤ b in
    if leb (2 ^ 63) (pos_part sum)
    then pos (2 ^ 63 - 1)
    else if ltb (2 ^ 63) (neg_part sum)
    then negsuc (2 ^ 63 - 1)
    else sum

unfoldable pub is_open : Order → Bool
is_open order = order.status == status_open

unfoldable pub is_expired : Order → ℤ → Bool
is_expired order now = leb_ℤ order.expiry_ts now

-- `interval_secs as i64` keeps the bits.
unfoldable pub dca_ready : Order → ℤ → Bool
dca_ready order now =
    leb_ℤ (saturating_add_i64 order.last_exec_ts (signed_of order.interval_secs)) now

unfoldable pub next_tranche_in : Order → ℕ
next_tranche_in order =
    if leb order.tranche_in order.remaining_in then order.tranche_in else order.remaining_in

unfoldable pub effective_min_out : Order → ℕ → Result OrderError ℕ
effective_min_out order tranche_in_used =
    if leb order.tranche_in tranche_in_used then ok order.min_out_per_tranche else (do
      num ← ok_or (checked_mul_u128 order.min_out_per_tranche tranche_in_used) overflow
      ok_or (to_u64 (div_ceil num order.tranche_in)) overflow)

unfoldable pub debit : Order → ℕ → Result OrderError Order
debit order amount = do
  remaining ← ok_or (checked_sub order.remaining_in amount) overflow
  let status = if remaining == 0 then status_filled else order.status
  ok (record order { remaining_in = remaining; status = status })

-- `fee as u64` cuts the fee to 64 bits.
unfoldable pub split_output : ℕ → ℕ → Result OrderError (ℕ × ℕ)
split_output tranche keeper_fee_bps = do
  product ← ok_or (checked_mul_u128 tranche keeper_fee_bps) overflow
  let fee = (product / bps_denom) % 2 ^ 64
  swap_in ← ok_or (checked_sub tranche fee) overflow
  ok (fee, swap_in)
