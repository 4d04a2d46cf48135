-- ===== src/Solana/Errors.antt =====
-- The errors of `solana_program::program_error::ProgramError` that the programs return or pass on.
use rome_dex.Base.{ℕ}

pub data ProgramError : Type 0 where
  custom : ℕ → ProgramError
  invalid_argument invalid_instruction_data invalid_account_data : ProgramError
  incorrect_program_id missing_required_signature illegal_owner : ProgramError
  not_enough_account_keys invalid_seeds arithmetic_overflow uninitialized_account : ProgramError
  -- Any other error of a call that leaves the program.
  other : ℕ → ProgramError
