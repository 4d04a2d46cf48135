-- ===== src/Pool/Repack.antt =====
-- The pool's account under the writes of program/src/processor.rs: read through `data[1..]`, changed,
-- and packed again.
use mathlib.Core.Path.{subst}
use rome_dex.Base.{ℕ, ◌≡◌, ◌≢◌, ap, sym, ◌∙◌, true, List, [], ◌∷◌, ok, ok_inj}
use rome_dex.Solana.Runtime.{
  Pubkey, AccountInfo, Store, Action, Instruction, Seeds, RuntimeLaws, ◌>>=◌, ◌>>◌,
}
use rome_dex.Solana.Steps.{invoke_step, invoked, update_self, update_ne}
use rome_dex.Pool.Platform.{Platform, PackLaws}
use rome_dex.Pool.State.{SwapV2}
use rome_dex.Pool.Version.{unpack_version}
use rome_dex.Pool.Version.Laws.{unpack_version-pack_v2, unpack_v2-of_version}
use rome_dex.Pool.Codec.RoundTrips.{IsSwapV2}
use rome_dex.Pool.Loads.{load_version_step, load_v2_step, store_v2_step}
use rome_dex.Pool.Processor.Tokens.{authority_seeds, token_transfer}
use rome_dex.Pool.Processor.Checks.{load_version, load_v2, store_v2}

module _ (platform : Platform) where
  -- The account is the program's and holds this pool.
  pub record HoldsPool (program_id : Pubkey) (info : AccountInfo) (s : Store) (pool : SwapV2)
      : Type 0 where
    pub owned : (s info.key).owner ≡ program_id
    pub unpacked : unpack_version platform (s info.key).contents ≡ ok pool

  -- The transfer of some amount with the pool's signature.
  abbrev pub Transferred :
      Pubkey
      → AccountInfo
      → AccountInfo
      → AccountInfo
      → AccountInfo
      → AccountInfo
      → ℕ
      → ℕ
      → ℕ
      → Store
      → Store
      → Type 0
  Transferred swap program source mint destination authority bump amount decimals s s' =
      platform.runtime.invoke_signed
        (Instruction.transfer_checked program.key source.key mint.key destination.key authority.key
          amount decimals)
        (authority_seeds swap bump ∷ []) s
      ≡ ok s'

  pub transfer_step :
      {B : Type 0} (swap : Pubkey) (program source mint destination authority : AccountInfo)
      (bump amount decimals : ℕ) (k : Action B) (s : Store) {r : B × Store}
      → (token_transfer platform swap program source mint destination authority bump amount decimals
            >> k)
          s
        ≡ ok r
      → (s' : Store) × Transferred swap program source mint destination authority bump amount
          decimals s s'
        × (k s' ≡ ok r)
  unfolding token_transfer
  transfer_step swap program source mint destination authority bump amount decimals k s h =
      invoke_step platform.runtime _ _ k s h

  pub transfer_last :
      (swap : Pubkey) (program source mint destination authority : AccountInfo)
      (bump amount decimals : ℕ) (s : Store) {p : Unit {0} × Store}
      → token_transfer platform swap program source mint destination authority bump amount decimals
          s
        ≡ ok p
      → Transferred swap program source mint destination authority bump amount decimals s p.1
  unfolding token_transfer
  transfer_last swap program source mint destination authority bump amount decimals s h =
      invoked platform.runtime _ _ s h

  -- A call of another program leaves the pool as it is.
  pub kept :
      (program_id : Pubkey) (laws : RuntimeLaws platform.runtime program_id) (info : AccountInfo)
      (pool : SwapV2) {instruction : Instruction} {seeds : List Seeds} (s s' : Store)
      → HoldsPool program_id info s pool
      → platform.runtime.invoke_signed instruction seeds s ≡ ok s'
      → HoldsPool program_id info s' pool
  kept program_id laws info pool s s' held call =
      let (own, same) = laws.keeps_own _ _ s s' info.key call held.owned in
      record { owned = own; unpacked = ap (λ c. unpack_version platform c) same ∙ held.unpacked }

  pub held_version_step :
      {B : Type 0} (program_id : Pubkey) (info : AccountInfo) (pool : SwapV2)
      (f : SwapV2 → Action B) (s : Store) {r : B × Store}
      → HoldsPool program_id info s pool
      → (load_version platform info >>= f) s ≡ ok r
      → f pool s ≡ ok r
  held_version_step program_id info pool f s {r} held h =
      let (loaded, e, h1) = load_version_step platform info f s h in
      subst (λ x. f x s ≡ ok r) (ok_inj (sym e ∙ held.unpacked)) h1

  pub held_v2_step :
      {B : Type 0} (program_id : Pubkey) (info : AccountInfo) (pool : SwapV2)
      (f : SwapV2 → Action B) (s : Store) {r : B × Store}
      → HoldsPool program_id info s pool
      → (load_v2 platform info >>= f) s ≡ ok r
      → f pool s ≡ ok r
  held_v2_step program_id info pool f s {r} held h =
      let (loaded, e, h1) = load_v2_step platform info f s h in
      let same = ok_inj (sym e ∙ unpack_v2-of_version platform pool _ held.unpacked) in
      subst (λ x. f x s ≡ ok r) same h1

  pub repack_step :
      (laws : PackLaws platform) (program_id : Pubkey) (info : AccountInfo) (old pool : SwapV2)
      (s : Store) {p : Unit {0} × Store}
      → HoldsPool program_id info s old
      → IsSwapV2 pool
      → pool.is_initialized ≡ true
      → store_v2 platform info pool s ≡ ok p
      → HoldsPool program_id info p.1 pool × ((k : Pubkey) → k ≢ info.key → p.1 k ≡ s k)
  repack_step laws program_id info old pool s {p} held fits live h =
      let (bytes, e, at) = store_v2_step platform info pool s h in
      let self = ap (λ st. st info.key) at ∙ update_self s info.key _ in
      (
        record {
          owned = ap (λ a. a.owner) self ∙ held.owned;
          unpacked =
              ap (λ a. unpack_version platform a.contents) self
              ∙ unpack_version-pack_v2 platform laws pool old _ held.unpacked fits live e;
        },
        λ k apart. ap (λ st. st k) at ∙ update_ne s k info.key _ apart,
      )
