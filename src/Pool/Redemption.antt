-- ===== src/Pool/Redemption.antt =====
-- What a withdrawal of program/src/processor.rs guarantees: the checks on its accounts, the clamp to the
-- reserves of the liquidity providers, and the calls of the token program.
pub mod Single
pub mod Both
use rome_dex.Base.{
  ℕ, ◌+◌, ◌-◌, ◌≤◌, ◌<◌, ◌≡◌, ◌≢◌, ap, sym, ◌⊎◌, inl, inr, true, false, not, ◌||◌, ◌==◌, ==_iff,
  ltb, leb, leb→le, if◌then◌else◌, Option, none, some, [], ◌∷◌, ok, arith, refl,
}
use rome_dex.Solana.Runtime.{Pubkey, AccountInfo, Store, Action, Instruction, ◌>>=◌, ◌>>◌}
use rome_dex.Solana.Steps.{
  require_step, require_last, owner_step, check_step, pass_step, read_step, pure_last, pure_step,
  if_step, invoke_step,
}
use rome_dex.Pool.Platform.{Platform}
use rome_dex.Pool.State.{SwapV2}
use rome_dex.Pool.Counters.{lp_owned}
use rome_dex.Pool.Loads.{
  lifted_step, lifted_last, to_u64_value, IsAuthority, derived_step, mint_step,
}
use rome_dex.Pool.Repack.{Transferred, transfer_last}
use rome_dex.Pool.Processor.Tokens.{authority_seeds, token_burn}
use rome_dex.Pool.Processor.Checks.{check_accounts, require_other}
use rome_dex.Pool.Processor.Deposit.{transfer_unpacked}
use rome_dex.Pool.Processor.Withdraw.{min, clamped, transfer_positive}

pub lp_owned_lem : (vault fees : ℕ) {lp : ℕ} → lp_owned vault fees ≡ ok lp → lp + fees ≡ vault
unfolding lp_owned
lp_owned_lem vault fees h = ground arith

-- A side's amount: what the curve computed, cut to the reserve, at least what the user wants, and zero
-- only where the reserve is.
pub record Clamps (computed lp minimum amount : ℕ) : Type 0 where
  pub cut : amount ≡ min lp computed
  pub reaches : minimum ≤ amount
  pub covered : amount ≤ lp
  pub not_for_nothing : amount ≡ 0 → lp ≡ 0

clamps :
    (computed lp minimum amount : ℕ)
    → amount ≡ computed
    → leb minimum (min lp amount) ≡ true
    → (not (min lp amount == 0) || lp == 0) ≡ true
    → Clamps computed lp minimum (min lp amount)
clamps computed lp minimum amount same reaches nonzero = record {
  cut = ap (min lp) same;
  reaches = leb→le _ _ reaches;
  covered = ground arith;
  not_for_nothing = λ e. ground arith;
}

pub clamp_step :
    {B : Type 0} (computed lp minimum : ℕ) (f : ℕ → Action B) (s : Store) {r : B × Store}
    → (clamped computed lp minimum >>= f) s ≡ ok r
    → (amount : ℕ) × Clamps computed lp minimum amount × (f amount s ≡ ok r)
unfolding clamped
clamp_step computed lp minimum f s h =
    read_step (Clamps computed lp minimum) _ f s
      (λ p e.
        let (uncut, value, e1) = lifted_step _ _ s e in
        let (reaches, e2) = require_step _ _ _ s e1 in
        let (nonzero, e3) = require_step _ _ _ s e2 in
        pure_last (Clamps computed lp minimum) (min lp uncut) s
          (clamps computed lp minimum uncut (to_u64_value computed value).0 reaches nonzero) e3)
      h

module _ (platform : Platform) where
  -- The transfer of some amount by the pool, with the mint's decimals.
  abbrev pub Paid :
      SwapV2
      → AccountInfo
      → AccountInfo
      → AccountInfo
      → AccountInfo
      → AccountInfo
      → AccountInfo
      → ℕ
      → Store
      → Store
      → Type 0
  Paid pool swap_info program vault mint_info destination authority amount s s' =
      (decimals : ℕ) × Transferred platform swap_info.key program vault mint_info destination
        authority pool.bump_seed amount decimals s s'

  pub unpacked_last :
      (pool : SwapV2) (swap_info program vault mint_info destination authority : AccountInfo)
      (amount : ℕ) (s : Store) {p : Unit {0} × Store}
      → transfer_unpacked platform pool swap_info program vault mint_info destination authority
          amount s
        ≡ ok p
      → Paid pool swap_info program vault mint_info destination authority amount s p.1
  unfolding transfer_unpacked
  unpacked_last pool swap_info program vault mint_info destination authority amount s h =
      let (mint, _, h1) = mint_step platform mint_info _ _ s h in
      (mint.decimals, transfer_last platform _ _ _ _ _ _ _ _ _ s h1)

  -- A side that pays nothing is not called.
  abbrev pub PaidIfAny :
      SwapV2
      → AccountInfo
      → AccountInfo
      → AccountInfo
      → AccountInfo
      → AccountInfo
      → AccountInfo
      → ℕ
      → Store
      → Store
      → Type 0
  PaidIfAny pool swap_info program vault mint_info destination authority amount s s' =
      ((amount ≡ 0) × (s' ≡ s))
      ⊎ Paid pool swap_info program vault mint_info destination authority amount s s'

  pub positive_last :
      (pool : SwapV2) (swap_info program vault mint_info destination authority : AccountInfo)
      (amount : ℕ) (s : Store) {p : Unit {0} × Store}
      → transfer_positive platform pool swap_info program vault mint_info destination authority
          amount s
        ≡ ok p
      → PaidIfAny pool swap_info program vault mint_info destination authority amount s p.1
  unfolding transfer_positive
  positive_last pool swap_info program vault mint_info destination authority amount s h =
      elim (if_step (ltb 0 amount) _ _ s h) [
        | inl (some_tokens, e) ↦
            inr (
              unpacked_last pool swap_info program vault mint_info destination authority amount s e)
        | inr (no_tokens, e) ↦ inl (ground arith, ap (λ x. x.1) (pure_step tt s e))
      ]

  -- The burn of pool tokens from the user's account.
  abbrev pub Burned :
      SwapV2
      → AccountInfo
      → AccountInfo
      → AccountInfo
      → AccountInfo
      → AccountInfo
      → ℕ
      → Store
      → Store
      → Type 0
  Burned pool swap_info program account mint authority amount s s' =
      platform.runtime.invoke_signed
        (Instruction.burn program.key account.key mint.key authority.key amount)
        (authority_seeds swap_info.key pool.bump_seed ∷ []) s
      ≡ ok s'

  pub burn_step :
      {B : Type 0} (pool : SwapV2) (swap_info program account mint authority : AccountInfo)
      (amount : ℕ) (k : Action B) (s : Store) {r : B × Store}
      → (token_burn platform swap_info.key program account mint authority pool.bump_seed amount
            >> k)
          s
        ≡ ok r
      → (s' : Store) × Burned pool swap_info program account mint authority amount s s'
        × (k s' ≡ ok r)
  unfolding token_burn
  burn_step pool swap_info program account mint authority amount k s h =
      invoke_step platform.runtime _ _ k s h

  -- The accounts are the pool's.
  pub record ChecksAccounts (program_id : Pubkey) (pool : SwapV2)
      (swap_info authority_info token_a_info token_b_info pool_mint_info program_info : AccountInfo)
      (s : Store) : Type 0 where
    pub owned : (s swap_info.key).owner ≡ program_id
    pub authority : IsAuthority platform program_id authority_info swap_info pool
    pub vault_a : token_a_info.key ≡ pool.token_a
    pub vault_b : token_b_info.key ≡ pool.token_b
    pub lp_mint : pool_mint_info.key ≡ pool.pool_mint
    pub lp_program : program_info.key ≡ pool.token_program_id

  other_last :
      (vault : AccountInfo) (user : Option AccountInfo) (s : Store) {p : Unit {0} × Store}
      → require_other vault user s ≡ ok p
      → p.1 ≡ s
  unfolding require_other
  other_last vault none s h = ap (λ x. x.1) (pure_step tt s h)
  other_last vault (some user) s h = (require_last _ _ s h).1

  pub accounts_step :
      {B : Type 0} (program_id : Pubkey) (pool : SwapV2)
      (swap_info authority_info token_a_info token_b_info pool_mint_info program_info : AccountInfo)
      (user_a user_b : Option AccountInfo) (k : Action B) (s : Store) {r : B × Store}
      → (check_accounts platform program_id pool swap_info authority_info token_a_info token_b_info
              pool_mint_info program_info user_a user_b
            >> k)
          s
        ≡ ok r
      → ChecksAccounts program_id pool swap_info authority_info token_a_info token_b_info
          pool_mint_info program_info s
        × (k s ≡ ok r)
  unfolding check_accounts
  accounts_step program_id pool swap_info authority_info token_a_info token_b_info pool_mint_info
        program_info user_a user_b k s h =
      pass_step
        (ChecksAccounts program_id pool swap_info authority_info token_a_info token_b_info
          pool_mint_info program_info s)
        _ k s
        (λ p e.
          let (own, e1) = require_step _ _ _ s (owner_step swap_info _ s e) in
          let (authority, e2) = derived_step platform program_id _ _ pool _ s e1 in
          let (a, e3) = require_step _ _ _ s e2 in
          let (b, e4) = require_step _ _ _ s e3 in
          let (mint, e5) = require_step _ _ _ s e4 in
          let (program, e6) = require_step _ _ _ s e5 in
          let (_, e7) =
            pass_step (Unit {0}) _ _ s (λ q k. (other_last token_a_info user_a s k, tt)) e6 in
          (
            other_last token_b_info user_b s e7,
            record {
              owned = (==_iff _ _).0 own;
              authority = authority;
              vault_a = (==_iff _ _).0 a;
              vault_b = (==_iff _ _).0 b;
              lp_mint = (==_iff _ _).0 mint;
              lp_program = (==_iff _ _).0 program;
            },
          ))
        h
