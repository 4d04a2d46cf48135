-- ===== src/Farm/Processor/Instructions.antt =====
-- Farm instructions and their bytes: farm/src/instruction.rs.
use rome_dex.Base.{ℕ, List, [], ◌∷◌, Result, ok, err, ◌>>=◌, ltb, ◌==◌, if◌then◌else◌}
use rome_dex.Solana.Errors.{ProgramError}
use rome_dex.Solana.Bytes.{length, take, from_le_bytes}
use rome_dex.Farm.State.{invalid_instruction, from_error}

pub data FarmInstruction : Type 0 where
  init_farm : ℕ → FarmInstruction
  init_user_stake : FarmInstruction
  stake : ℕ → FarmInstruction
  unstake : ℕ → FarmInstruction
  claim : FarmInstruction
  set_reward_per_second : ℕ → FarmInstruction
  emergency_unstake : FarmInstruction

unfoldable pub read_u64 : List ℕ → Result ProgramError ℕ
read_u64 input =
    if ltb (length input) 8
    then err (from_error invalid_instruction)
    else ok (from_le_bytes (take 8 input))

-- `map` on a `Result`: the amount under its constructor.
abbrev with_amount :
    (ℕ → FarmInstruction) → Result ProgramError ℕ → Result ProgramError FarmInstruction
with_amount make r = do amount ← r; ok (make amount)

unfoldable pub unpack : List ℕ → Result ProgramError FarmInstruction
unfolding read_u64
unpack [] = err (from_error invalid_instruction)
unpack (tag ∷ rest) =
    if tag == 0
    then with_amount init_farm (read_u64 rest)
    else if tag == 1
    then ok init_user_stake
    else if tag == 2
    then with_amount stake (read_u64 rest)
    else if tag == 3
    then with_amount unstake (read_u64 rest)
    else if tag == 4
    then ok claim
    else if tag == 5
    then with_amount set_reward_per_second (read_u64 rest)
    else if tag == 6
    then ok emergency_unstake
    else err (from_error invalid_instruction)
