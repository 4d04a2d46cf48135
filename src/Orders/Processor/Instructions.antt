-- ===== src/Orders/Processor/Instructions.antt =====
-- Order instructions and their bytes: orders/src/instruction.rs.
use rome_dex.Base.{
  ℕ, Bool, true, false, List, [], ◌∷◌, Result, ok, err, panic, ltb, ◌==◌, if◌then◌else◌,
}
use rome_dex.Base.Int.{ℤ}
use rome_dex.Solana.Errors.{ProgramError}
use rome_dex.Solana.Bytes.{length}
use rome_dex.Solana.Codec.{Reader, ◌>>=◌, pure, number, signed}
use rome_dex.Orders.State.{invalid_instruction, from_error}

pub record Placement : Type 0 where
  pub nonce : ℕ
  pub bump : ℕ
  pub a_to_b : Bool
  pub amount_in_total : ℕ
  pub tranche_in : ℕ
  pub min_out_per_tranche : ℕ
  pub interval_secs : ℕ
  pub expiry_ts : ℤ
  pub keeper_fee_bps : ℕ

pub data OrderInstruction : Type 0 where
  place : Placement → OrderInstruction
  execute cancel crank_expired close_filled : OrderInstruction

-- A byte that must be 0 or 1, with this program's error.
unfoldable direction : Reader Bool
direction input = elim (number 1 input) [
  | ok (byte, rest) ↦
      if byte == 0
      then ok (false, rest)
      else if byte == 1
      then ok (true, rest)
      else err (from_error invalid_instruction)
  | err e ↦ err e
  | panic ↦ panic
]

unfoldable read_placement : Reader Placement
read_placement = do
  nonce ← number 8
  bump ← number 1
  a_to_b ← direction
  amount_in_total ← number 8
  tranche_in ← number 8
  min_out_per_tranche ← number 8
  interval_secs ← number 8
  expiry_ts ← signed
  keeper_fee_bps ← number 2
  pure (record {
    nonce = nonce;
    bump = bump;
    a_to_b = a_to_b;
    amount_in_total = amount_in_total;
    tranche_in = tranche_in;
    min_out_per_tranche = min_out_per_tranche;
    interval_secs = interval_secs;
    expiry_ts = expiry_ts;
    keeper_fee_bps = keeper_fee_bps;
  })

-- The placement, without the bytes behind it.
abbrev placed : Result ProgramError (Placement × List ℕ) → Result ProgramError OrderInstruction
placed (ok (placement, rest)) = ok (place placement)
placed (err e) = err e
placed panic = panic

unfoldable pub unpack : List ℕ → Result ProgramError OrderInstruction
unfolding read_placement direction
unpack [] = err (from_error invalid_instruction)
unpack (tag ∷ rest) =
    if tag == 0
    then (if ltb (length rest) 52
        then err (from_error invalid_instruction)
        else placed (read_placement rest))
    else if tag == 1
    then ok execute
    else if tag == 2
    then ok cancel
    else if tag == 3
    then ok crank_expired
    else if tag == 4
    then ok close_filled
    else err (from_error invalid_instruction)
