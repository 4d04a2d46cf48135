-- ===== src/Examples/Host.antt =====
-- A runtime in which calls of other programs succeed and move nothing, and where the derived addresses are
-- fixed.
use rome_dex.Base.{ℕ, true, false, some, List, Result, ok, arith}
use rome_dex.Base.Int.{pos}
use rome_dex.Solana.Errors.{ProgramError}
use rome_dex.Solana.Bytes.{take, drop, from_le_bytes}
use rome_dex.Solana.Runtime.{AccountInfo, Account, Store, Runtime, RuntimeLaws}

abbrev pub key_at : ℕ → List ℕ → ℕ
key_at n bytes = from_le_bytes (take 32 (drop n bytes))

-- Addresses 2 and 3 are the derived ones.
abbrev pub runtime : Runtime
runtime = record {
  spl_token_id = 15;
  invoke_signed = λ instruction seeds s. ok s;
  find_program_address = λ seeds program_id. (2, 253);
  create_program_address = λ seeds program_id. some 3;
  unix_timestamp = ok (pos 1_010);
  minimum_balance = λ space. ok 1_000;
  unpack_mint = λ bytes. ok (record { mint_authority = some (key_at 0 bytes) });
  unpack_token_account = λ bytes. ok (record {
    mint = key_at 0 bytes;
    owner = key_at 32 bytes;
    amount = from_le_bytes (take 8 (drop 64 bytes));
  });
}

pub laws : RuntimeLaws runtime 9
laws = record { keeps_own = λ instruction seeds s s' k e own. ground arith }

abbrev pub account_at : ℕ → AccountInfo
account_at key = record { key = key; is_signer = false }

abbrev pub signer_at : ℕ → AccountInfo
signer_at key = record { key = key; is_signer = true }

abbrev pub with_bytes : ℕ → ℕ → List ℕ → Account
with_bytes owner lamports contents = record {
  owner = owner;
  lamports = lamports;
  contents = contents;
}

-- The store that a run leaves.
abbrev pub left_by : Result ProgramError (Unit {0} × Store) → Store → Store
left_by (ok (_, s)) before = s
left_by _ before = before
