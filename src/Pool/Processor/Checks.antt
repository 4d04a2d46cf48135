-- ===== src/Pool/Processor/Checks.antt =====
-- The checks that the handlers of program/src/processor.rs share.
use rome_dex.Base.{ℕ, not, Option, none, some, List, [], ◌∷◌, ◌==◌, ltb}
use rome_dex.Solana.Errors.{incorrect_program_id}
use rome_dex.Solana.Bytes.{length, take, drop, from_le_bytes}
use rome_dex.Solana.Runtime.{
  Pubkey, to_bytes, AccountInfo, Action, ◌>>=◌, ◌>>◌, pure, lift, require, owner_of, contents_of,
  write,
}
use rome_dex.Curve.Calculator
use rome_dex.Curve.Calculator.{SwapError, TradeDirection}
use rome_dex.Pool.Platform.{Platform}
use rome_dex.Pool.State.{SwapV2, from_error, lifted}
use rome_dex.Pool.Version.{unpack_version, unpack_v2, pack_v2}
use rome_dex.Pool.Processor.Tokens.{authority_id}

-- A user's account on one side, when there is one, is not the vault.
unfoldable pub require_other : AccountInfo → Option AccountInfo → Action (Unit {0})
require_other vault none = pure tt
require_other vault (some user) =
    require (not (vault.key == user.key)) (from_error Calculator.invalid_input)

-- The byte of `data[n]`, when the slice has it.
abbrev byte_at : ℕ → List ℕ → ℕ
byte_at n bytes = from_le_bytes (take 1 (drop n bytes))

module _ (platform : Platform) where
  -- `SwapVersion::unpack(&info.data.borrow())?`
  unfoldable pub load_version : AccountInfo → Action SwapV2
  load_version swap_info = do bytes ← contents_of swap_info; lift (unpack_version platform bytes)

  -- `SwapV2::unpack(&data[1..])?`, and the pack of a changed pool.
  unfoldable pub load_v2 : AccountInfo → Action SwapV2
  load_v2 swap_info = do bytes ← contents_of swap_info; lift (unpack_v2 platform bytes)

  unfoldable pub store_v2 : AccountInfo → SwapV2 → Action (Unit {0})
  store_v2 swap_info pool = do
    old ← contents_of swap_info
    bytes ← lift (pack_v2 platform pool old)
    write swap_info bytes

module _ (platform : Platform) (program_id : Pubkey) where
  unfoldable pub require_authority : AccountInfo → AccountInfo → SwapV2 → Action (Unit {0})
  require_authority authority_info swap_info token_swap = do
    expected ← lifted (authority_id platform program_id swap_info.key token_swap.bump_seed)
    require (authority_info.key == expected) (from_error Calculator.invalid_program_address)

  -- pool, authority, vaults, pool mint, its token program, the user's accounts
  unfoldable pub check_accounts :
      SwapV2
      → AccountInfo
      → AccountInfo
      → AccountInfo
      → AccountInfo
      → AccountInfo
      → AccountInfo
      → Option AccountInfo
      → Option AccountInfo
      → Action (Unit {0})
  check_accounts token_swap swap_account_info authority_info token_a_info token_b_info
        pool_mint_info pool_token_program_info user_token_a_info user_token_b_info =
      do
        owner ← owner_of swap_account_info
        require (owner == program_id) incorrect_program_id
        require_authority authority_info swap_account_info token_swap
        require (token_a_info.key == token_swap.token_a)
            (from_error Calculator.incorrect_swap_account)
        require (token_b_info.key == token_swap.token_b)
            (from_error Calculator.incorrect_swap_account)
        require (pool_mint_info.key == token_swap.pool_mint)
            (from_error Calculator.incorrect_pool_mint)
        require (pool_token_program_info.key == token_swap.token_program_id)
            (from_error Calculator.incorrect_token_program_id)
        require_other token_a_info user_token_a_info
        require_other token_b_info user_token_b_info

  unfoldable pub verify_program_data : AccountInfo → Action Pubkey
  verify_program_data programdata_info = do
    let expected =
        platform.runtime.find_program_address (to_bytes program_id ∷ [])
          platform.bpf_loader_upgradeable_id
    require (programdata_info.key == expected.0) (from_error Calculator.invalid_program_data)
    owner ← owner_of programdata_info
    require (owner == platform.bpf_loader_upgradeable_id)
        (from_error Calculator.invalid_program_data)
    contents ← contents_of programdata_info
    require (not (ltb (length contents) 45)) (from_error Calculator.invalid_program_data)
    require (from_le_bytes (take 4 contents) == 3) (from_error Calculator.invalid_program_data)
    require (byte_at 12 contents == 1) (from_error Calculator.immutable_program)
    pure (from_le_bytes (take 32 (drop 13 contents)))
