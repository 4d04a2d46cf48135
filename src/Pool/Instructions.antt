-- ===== src/Pool/Instructions.antt =====
-- `SwapInstruction` of program/src/instruction.rs: its bytes, and the instruction they stand for.
pub mod RoundTrip
use rome_dex.Base.{ℕ, List, [], ◌∷◌, ◌++◌, ltb, ◌==◌, if◌then◌else◌, Result, ok, err, ◌>>=◌}
use rome_dex.Solana.Errors.{ProgramError}
use rome_dex.Solana.Bytes.{length, take, drop, le_bytes, from_le_bytes}
use rome_dex.Solana.Runtime.{Pubkey, to_bytes}
use rome_dex.Curve.Calculator.{invalid_instruction}
use rome_dex.Curve.Fees.{Fees}
use rome_dex.Pool.Platform.{Platform}
use rome_dex.Pool.State.{SwapCurve, fees_len, from_error}
use rome_dex.Pool.Codec.{packed_fees, packed_swap_curve, fees_bytes, swap_curve_bytes}

pub data SwapInstruction : Type 0 where
  initialize accept_admin collect_protocol_fees : SwapInstruction
  -- amount in, minimum amount out
  swap : ℕ → ℕ → SwapInstruction
  -- pool token amount, maximum or minimum of token A and of token B
  deposit_all_token_types withdraw_all_token_types : ℕ → ℕ → ℕ → SwapInstruction
  -- source token amount, minimum pool token amount
  deposit_single_token_type_exact_amount_in : ℕ → ℕ → SwapInstruction
  -- destination token amount, maximum pool token amount
  withdraw_single_token_type_exact_amount_out : ℕ → ℕ → SwapInstruction
  -- amount out, maximum amount in
  swap_exact_out : ℕ → ℕ → SwapInstruction
  -- fees, curve, fee tier, bumps of the pool and of the LP mint
  create_pool : Fees → SwapCurve → ℕ → ℕ → ℕ → SwapInstruction
  -- admin, treasury, mode
  initialize_config : Pubkey → Pubkey → ℕ → SwapInstruction
  set_treasury transfer_admin : Pubkey → SwapInstruction
  set_pool_creation : ℕ → SwapInstruction

-- A number of `w` bytes off the front, or `InvalidInstruction`.
unfoldable pub unpack_number : ℕ → List ℕ → Result ProgramError (ℕ × List ℕ)
unpack_number w input =
    if ltb (length input) w
    then err (from_error invalid_instruction)
    else ok (from_le_bytes (take w input), drop w input)

abbrev pub unpack_u64 : List ℕ → Result ProgramError (ℕ × List ℕ)
unpack_u64 = unpack_number 8

abbrev pub unpack_u16 : List ℕ → Result ProgramError (ℕ × List ℕ)
unpack_u16 = unpack_number 2

abbrev pub unpack_pubkey : List ℕ → Result ProgramError (Pubkey × List ℕ)
unpack_pubkey = unpack_number 32

-- `split_first`
unfoldable pub split_first : List ℕ → Result ProgramError (ℕ × List ℕ)
split_first [] = err (from_error invalid_instruction)
split_first (byte ∷ rest) = ok (byte, rest)

unfoldable pub two : (ℕ → ℕ → SwapInstruction) → List ℕ → Result ProgramError SwapInstruction
two make input = do
  first ← unpack_u64 input
  second ← unpack_u64 first.1
  ok (make first.0 second.0)

unfoldable pub three : (ℕ → ℕ → ℕ → SwapInstruction) → List ℕ → Result ProgramError SwapInstruction
three make input = do
  first ← unpack_u64 input
  second ← unpack_u64 first.1
  third ← unpack_u64 second.1
  ok (make first.0 second.0 third.0)

module _ (platform : Platform) where
  unfoldable pub unpack_create_pool : List ℕ → Result ProgramError SwapInstruction
  unpack_create_pool input = do
    fee_bps ← unpack_u16 input
    pool_bump ← split_first fee_bps.1
    lp_bump ← split_first pool_bump.1
    if ltb (length lp_bump.1) fees_len then err (from_error invalid_instruction) else do
      fees ← platform.unpack_unchecked Fees packed_fees (take fees_len lp_bump.1)
      swap_curve ← platform.unpack_unchecked SwapCurve packed_swap_curve (drop fees_len lp_bump.1)
      ok (create_pool fees swap_curve fee_bps.0 pool_bump.0 lp_bump.0)

  -- The instruction of a tag.
  unfoldable pub unpack_tag : ℕ → List ℕ → Result ProgramError SwapInstruction
  unpack_tag tag rest =
      if tag == 0
      then ok initialize
      else if tag == 1
      then two swap rest
      else if tag == 2
      then three deposit_all_token_types rest
      else if tag == 3
      then three withdraw_all_token_types rest
      else if tag == 4
      then two deposit_single_token_type_exact_amount_in rest
      else if tag == 5
      then two withdraw_single_token_type_exact_amount_out rest
      else if tag == 6
      then two swap_exact_out rest
      else if tag == 7
      then unpack_create_pool rest
      else if tag == 8
      then (do
        admin ← unpack_pubkey rest
        treasury ← unpack_pubkey admin.1
        mode ← split_first treasury.1
        ok (initialize_config admin.0 treasury.0 mode.0))
      else if tag == 9
      then (do treasury ← unpack_pubkey rest; ok (set_treasury treasury.0))
      else if tag == 10
      then (do pending_admin ← unpack_pubkey rest; ok (transfer_admin pending_admin.0))
      else if tag == 11
      then ok accept_admin
      else if tag == 12
      then ok collect_protocol_fees
      else if tag == 13
      then (do mode ← split_first rest; ok (set_pool_creation mode.0))
      else err (from_error invalid_instruction)

  unfoldable pub unpack : List ℕ → Result ProgramError SwapInstruction
  unpack [] = err (from_error invalid_instruction)
  unpack (tag ∷ rest) = unpack_tag tag rest

abbrev pub amounts : ℕ → ℕ → List ℕ
amounts first second = le_bytes 8 first ++ le_bytes 8 second

-- The 32 zeros that the curve is packed over.
abbrev pub zeros : List ℕ
zeros = le_bytes 32 0

unfoldable pub pack : SwapInstruction → List ℕ
pack initialize = 0 ∷ []
pack (swap amount_in minimum_amount_out) = 1 ∷ amounts amount_in minimum_amount_out
pack (deposit_all_token_types pool_token_amount maximum_a maximum_b) =
    2 ∷ (le_bytes 8 pool_token_amount ++ amounts maximum_a maximum_b)
pack (withdraw_all_token_types pool_token_amount minimum_a minimum_b) =
    3 ∷ (le_bytes 8 pool_token_amount ++ amounts minimum_a minimum_b)
pack (deposit_single_token_type_exact_amount_in source_token_amount minimum_pool_token_amount) =
    4 ∷ amounts source_token_amount minimum_pool_token_amount
pack (withdraw_single_token_type_exact_amount_out destination_amount maximum_pool_token_amount) =
    5 ∷ amounts destination_amount maximum_pool_token_amount
pack (swap_exact_out amount_out maximum_amount_in) = 6 ∷ amounts amount_out maximum_amount_in
pack (create_pool fees swap_curve fee_bps pool_bump lp_bump) =
    7
    ∷ (le_bytes 2 fee_bps
        ++ (pool_bump ∷ lp_bump ∷ fees_bytes fees (swap_curve_bytes swap_curve zeros [])))
pack (initialize_config admin treasury mode) =
    8 ∷ (to_bytes admin ++ (to_bytes treasury ++ (mode ∷ [])))
pack (set_treasury treasury) = 9 ∷ to_bytes treasury
pack (transfer_admin pending_admin) = 10 ∷ to_bytes pending_admin
pack accept_admin = 11 ∷ []
pack collect_protocol_fees = 12 ∷ []
pack (set_pool_creation mode) = 13 ∷ mode ∷ []
