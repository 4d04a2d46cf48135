-- ===== src/Pool/Funding.antt =====
-- What a deposit of program/src/processor.rs guarantees: the calls of the token program, and in the child
-- modules the deposit of both tokens and of one.
pub mod Both
pub mod Single
use rome_dex.Base.{ℕ, ◌≡◌, [], ◌∷◌, ok, arith}
use rome_dex.Solana.Runtime.{AccountInfo, Store, Instruction}
use rome_dex.Solana.Steps.{invoked}
use rome_dex.Pool.Platform.{Platform}
use rome_dex.Pool.State.{SwapV2}
use rome_dex.Pool.Processor.Tokens.{authority_seeds, token_mint_to}

module _ (platform : Platform) where
  -- The mint of pool tokens, with the pool's signature.
  abbrev pub Minted :
      SwapV2
      → AccountInfo
      → AccountInfo
      → AccountInfo
      → AccountInfo
      → AccountInfo
      → ℕ
      → Store
      → Store
      → Type 0
  Minted pool swap_info program mint destination authority amount s s' =
      platform.runtime.invoke_signed
        (Instruction.mint_to program.key mint.key destination.key authority.key amount)
        (authority_seeds swap_info.key pool.bump_seed ∷ []) s
      ≡ ok s'

  pub mint_last :
      (pool : SwapV2) (swap_info program mint destination authority : AccountInfo) (amount : ℕ)
      (s : Store) {p : Unit {0} × Store}
      → token_mint_to platform swap_info.key program mint destination authority pool.bump_seed
          amount s
        ≡ ok p
      → Minted pool swap_info program mint destination authority amount s p.1
  unfolding token_mint_to
  mint_last pool swap_info program mint destination authority amount s h =
      invoked platform.runtime _ _ s h
