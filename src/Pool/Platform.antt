-- ===== src/Pool/Platform.antt =====
-- What the token swap program uses of crates that are not in the repository, as a parameter: the
-- runtime, `spl_math`, the token program's account layouts with their extensions, and the provided
-- methods of the trait `Pack`.
use rome_dex.Base.{ℕ, ◌≡◌, Bool, true, Option, List, Result, ok}
use rome_dex.Solana.Errors.{ProgramError}
use rome_dex.Solana.Bytes.{length}
use rome_dex.Solana.Runtime.{Pubkey, Runtime}
use rome_dex.Curve.SplMath.{SplMath}

-- The extension `TransferFeeConfig` by its methods: epoch and amount give the fee.
pub record TransferFeeConfig : Type 0 where
  pub calculate_epoch_fee : ℕ → ℕ → Option ℕ
  pub calculate_inverse_epoch_fee : ℕ → ℕ → Option ℕ

-- `spl_token_2022::state::Mint` with the extensions that the program asks for.
pub record Mint : Type 0 where
  pub mint_authority : Option Pubkey
  pub supply : ℕ
  pub decimals : ℕ
  pub freeze_authority : Option Pubkey
  -- The extension `MintCloseAuthority`, and the authority it holds.
  pub mint_close_authority : Option (Option Pubkey)
  pub transfer_fee_config : Option TransferFeeConfig

-- `spl_token_2022::state::Account`
pub record TokenAccount : Type 0 where
  pub mint : Pubkey
  pub owner : Pubkey
  pub amount : ℕ
  pub delegate : Option Pubkey
  pub close_authority : Option Pubkey

-- A type with its own part of `Pack`: its length, its flag and its reader and writer.
pub record Packed (A : Type 0) : Type 0 where
  pub len : ℕ
  pub is_initialized : A → Bool
  pub unpack_from_slice : List ℕ → Result ProgramError A
  -- The bytes that are left of a buffer.
  pub pack_into_slice : A → List ℕ → Result ProgramError (List ℕ)

pub record Platform : Type 1 where
  pub runtime : Runtime
  pub math : SplMath
  -- `check_spl_token_program_account(key).is_ok()`
  pub is_spl_token_program : Pubkey → Bool
  -- `StateWithExtensions::<Mint>::unpack` and of `Account`; every failure is mapped to one error.
  pub unpack_mint : List ℕ → Option Mint
  pub unpack_account : List ℕ → Option TokenAccount
  -- `Mint::LEN` and `Account::LEN`
  pub mint_len : ℕ
  pub account_len : ℕ
  pub bpf_loader_upgradeable_id : Pubkey
  -- `Clock::get()?.epoch`
  pub epoch : Result ProgramError ℕ
  -- The provided methods of `Pack`.
  pub unpack : (A : Type 0) → Packed A → List ℕ → Result ProgramError A
  pub unpack_unchecked : (A : Type 0) → Packed A → List ℕ → Result ProgramError A
  pub pack : (A : Type 0) → Packed A → A → List ℕ → Result ProgramError (List ℕ)

-- `Pack` as documented: the buffer must have the type's length, and `unpack` takes initialized values.
pub record PackLaws (platform : Platform) : Type 1 where
  pub unpack_checks :
      (A : Type 0) (p : Packed A) (input : List ℕ) (a : A)
      → platform.unpack A p input ≡ ok a
      → (length input ≡ p.len) × (p.unpack_from_slice input ≡ ok a) × (p.is_initialized a ≡ true)
  pub unpack_reads :
      (A : Type 0) (p : Packed A) (input : List ℕ) (a : A)
      → length input ≡ p.len
      → p.unpack_from_slice input ≡ ok a
      → p.is_initialized a ≡ true
      → platform.unpack A p input ≡ ok a
  pub unpack_unchecked_reads :
      (A : Type 0) (p : Packed A) (input : List ℕ) (a : A)
      → length input ≡ p.len
      → p.unpack_from_slice input ≡ ok a
      → platform.unpack_unchecked A p input ≡ ok a
  pub pack_checks :
      (A : Type 0) (p : Packed A) (a : A) (output : List ℕ) (bytes : List ℕ)
      → platform.pack A p a output ≡ ok bytes
      → (length output ≡ p.len) × (p.pack_into_slice a output ≡ ok bytes)
