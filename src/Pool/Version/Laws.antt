-- ===== src/Pool/Version/Laws.antt =====
-- A pool's account, written and read: `SwapVersion` and the counters' repack through `data[1..]`.
use rome_dex.Base.{ℕ, ◌≡◌, ap, ◌∙◌, true, List, [], ◌∷◌, suc, ok, >>=-eq-ok, arith}
use rome_dex.Solana.Bytes.{length}
use rome_dex.Pool.Platform.{Platform, PackLaws}
use rome_dex.Pool.State.{SwapV2}
use rome_dex.Pool.Codec.{packed_swap_v2}
use rome_dex.Pool.Codec.RoundTrips.{IsSwapV2, swap_v2_kept}
use rome_dex.Pool.Version.{pack_version, unpack_version, unpack_v2, pack_v2}

module _ (platform : Platform) where
  -- The pool that `SwapVersion::unpack` read is the one that `SwapV2::unpack(&data[1..])` reads.
  pub unpack_v2-of_version :
      (old : SwapV2) (input : List ℕ)
      → unpack_version platform input ≡ ok old
      → unpack_v2 platform input ≡ ok old
  unfolding unpack_version unpack_v2
  unpack_v2-of_version old [] was = cc
  unpack_v2-of_version old (version ∷ rest) was = ground arith

module _ (platform : Platform) (laws : PackLaws platform) where
  -- What `Pack::pack` wrote, `Pack::unpack` reads.
  repacked :
      (pool : SwapV2) (output : List ℕ) {bytes : List ℕ}
      → IsSwapV2 pool
      → pool.is_initialized ≡ true
      → platform.pack SwapV2 packed_swap_v2 pool output ≡ ok bytes
      → (platform.unpack SwapV2 packed_swap_v2 bytes ≡ ok pool) × (length bytes ≡ length output)
  repacked pool output {bytes} fits live e =
      let (room, written) = laws.pack_checks SwapV2 packed_swap_v2 pool output bytes e in
      let (read, same) = swap_v2_kept pool output room fits written in
      (laws.unpack_reads SwapV2 packed_swap_v2 bytes pool (same ∙ room) read live, same)

  -- A new pool, packed into an account, is read back as it was, and the account keeps its length.
  -- Conditions: the pool is initialized, its fields fit their types and its tag names its curve, and
  -- `Pack` keeps `PackLaws`.
  pub unpack-pack_version :
      (pool : SwapV2) (output : List ℕ) {bytes : List ℕ}
      → IsSwapV2 pool
      → pool.is_initialized ≡ true
      → pack_version platform pool output ≡ ok bytes
      → (unpack_version platform bytes ≡ ok pool) × (length bytes ≡ length output)
  unfolding pack_version unpack_version
  unpack-pack_version pool [] fits live e = cc
  unpack-pack_version pool (b ∷ output) {bytes} fits live e =
      let (packed, e1, e2) = >>=-eq-ok (platform.pack SwapV2 packed_swap_v2 pool output) _ e in
      let (read, same) = repacked pool output fits live e1 in
      let shape : bytes ≡ 2 ∷ packed = ground arith in rw shape (read, ap suc same)

  -- A pool read from an account and written back changed.
  pub unpack_version-pack_v2 :
      (pool old : SwapV2) (output : List ℕ) {bytes : List ℕ}
      → unpack_version platform output ≡ ok old
      → IsSwapV2 pool
      → pool.is_initialized ≡ true
      → pack_v2 platform pool output ≡ ok bytes
      → unpack_version platform bytes ≡ ok pool
  unfolding pack_v2 unpack_version
  unpack_version-pack_v2 pool old [] was fits live e = cc
  unpack_version-pack_v2 pool old (version ∷ output) {bytes} was fits live e =
      let (packed, e1, e2) = >>=-eq-ok (platform.pack SwapV2 packed_swap_v2 pool output) _ e in
      let read = (repacked pool output fits live e1).0 in
      let shape : bytes ≡ version ∷ packed = ground arith in ground arith

  -- A pool that was read is initialized.
  pub version_live :
      (pool : SwapV2) (input : List ℕ)
      → unpack_version platform input ≡ ok pool
      → pool.is_initialized ≡ true
  unfolding unpack_version
  version_live pool [] was = cc
  version_live pool (version ∷ rest) was =
      let read : platform.unpack SwapV2 packed_swap_v2 rest ≡ ok pool = ground arith in
      let (_, _, live) = laws.unpack_checks SwapV2 packed_swap_v2 rest pool read in live
