-- ===== src/Pool/Version.antt =====
-- `SwapVersion` of program/src/state.rs: the version byte before a packed `SwapV2`.
pub mod Laws
use rome_dex.Base.{
  ℕ, Bool, false, List, [], ◌∷◌, ◌==◌, if◌then◌else◌, Result, ok, err, panic, ◌>>=◌,
}
use rome_dex.Solana.Errors.{ProgramError, invalid_account_data, uninitialized_account}
use rome_dex.Pool.Platform.{Platform}
use rome_dex.Pool.State.{SwapV2}
use rome_dex.Pool.Codec.{packed_swap_v2}

module _ (platform : Platform) where
  unfoldable pub pack_version : SwapV2 → List ℕ → Result ProgramError (List ℕ)
  pack_version pool [] = panic
  pack_version pool (_ ∷ output) = do
    bytes ← platform.pack SwapV2 packed_swap_v2 pool output
    ok (2 ∷ bytes)

  unfoldable pub unpack_version : List ℕ → Result ProgramError SwapV2
  unpack_version [] = err invalid_account_data
  unpack_version (version ∷ rest) =
      if version == 2 then platform.unpack SwapV2 packed_swap_v2 rest else err uninitialized_account

  unfoldable pub is_initialized : List ℕ → Result ProgramError Bool
  unfolding unpack_version
  is_initialized input = elim (unpack_version input) [
    | ok pool ↦ ok pool.is_initialized
    | err e ↦ ok false
    | panic ↦ panic
  ]

  -- `SwapV2::unpack(&data[1..])`
  unfoldable pub unpack_v2 : List ℕ → Result ProgramError SwapV2
  unpack_v2 [] = panic
  unpack_v2 (_ ∷ rest) = platform.unpack SwapV2 packed_swap_v2 rest

  -- `SwapV2::pack(v2, &mut data[1..])`
  unfoldable pub pack_v2 : SwapV2 → List ℕ → Result ProgramError (List ℕ)
  pack_v2 pool [] = panic
  pack_v2 pool (version ∷ output) = do
    bytes ← platform.pack SwapV2 packed_swap_v2 pool output
    ok (version ∷ bytes)
