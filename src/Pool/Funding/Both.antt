-- ===== src/Pool/Funding/Both.antt =====
-- `DepositAllTokenTypes` of program/src/processor.rs, when it succeeds.
use mathlib.Core.Path.{subst}
use rome_dex.Base.{
  ◌⊎◌, ltb, Bool-cases, ap, ◌∙◌, inl, inr, refl, ℕ, ◌+◌, ◌≤◌, ◌<◌, ◌≡◌, true, not, ◌==◌, leb,
  leb→le, some, List, ◌∷◌, ok, ok_or, arith,
}
use rome_dex.Solana.Runtime.{Pubkey, AccountInfo, Store, Action, ◌>>=◌}
use rome_dex.Solana.Steps.{require_step, read_step, check_step, pure_last}
use rome_dex.Curve.Calculator
use rome_dex.Curve.Calculator.{TradingTokenResult}
use rome_dex.Curve.SwapCurve.Dispatch
use rome_dex.Pool.Platform.{Platform, TokenAccount, Mint}
use rome_dex.Pool.State.{SwapV2, lifted}
use rome_dex.Pool.Counters.{lp_owned}
use rome_dex.Pool.Loads.{lifted_step, some_of, to_u64_value, token_account_step, mint_step}
use rome_dex.Pool.Repack.{HoldsPool, held_version_step}
use rome_dex.Pool.Redemption.{lp_owned_lem, Paid, unpacked_last, ChecksAccounts, accounts_step}
use rome_dex.Pool.Funding.{Minted, mint_last}
use rome_dex.Pool.Processor.Tokens.{to_u64, unpack_token_account, unpack_mint}
use rome_dex.Pool.Processor.Deposit.{share_of, require_paid, deposit_all_token_types}

-- What the user pays on one side: the curve's amount, at most what the user allows, and not zero.
pub record Charges (computed maximum amount : ℕ) : Type 0 where
  pub same : amount ≡ computed
  pub allowed : amount ≤ maximum
  pub positive : 0 < amount

charges :
    (computed maximum amount : ℕ)
    → amount ≡ computed
    → leb amount maximum ≡ true
    → not (amount == 0) ≡ true
    → Charges computed maximum amount
charges computed maximum amount same allowed nonzero = record {
  same = same;
  allowed = leb→le _ _ allowed;
  positive = ground arith;
}

charge_step :
    {B : Type 0} (computed maximum : ℕ) (f : ℕ → Action B) (s : Store) {r : B × Store}
    → (require_paid computed maximum >>= f) s ≡ ok r
    → (amount : ℕ) × Charges computed maximum amount × (f amount s ≡ ok r)
unfolding require_paid
charge_step computed maximum f s h =
    read_step (Charges computed maximum) _ f s
      (λ p e.
        let (amount, value, e1) = lifted_step _ _ s e in
        let (allowed, e2) = require_step _ _ _ s e1 in
        let (nonzero, e3) = require_step _ _ _ s e2 in
        pure_last (Charges computed maximum) amount s
          (charges computed maximum amount (to_u64_value computed value).0 allowed nonzero) e3)
      h

share_cases :
    (pool_tokens supply : ℕ)
    → ((0 < supply) × (share_of pool_tokens supply ≡ (pool_tokens, supply)))
      ⊎ ((supply ≡ 0) × (share_of pool_tokens supply ≡ (1_000_000_000, 1_000_000_000)))
share_cases pool_tokens supply = elim (Bool-cases (ltb 0 supply)) [
  | inl live ↦ inl (ground arith, rw live refl)
  | inr empty ↦ inr (ground arith, rw empty refl)
]

module _ (platform : Platform) (program_id : Pubkey)
    (swap_info authority_info user_info source_a_info source_b_info token_a_info token_b_info
      pool_mint_info dest_info mint_a_info mint_b_info program_a_info program_b_info
      pool_program_info : AccountInfo)
    (rest : List AccountInfo) (pool : SwapV2) (s s' : Store) where
  -- What is computed before the transfers: both amounts, rounded up, from the reserves without the fee
  -- counters, and the pool tokens, which are the whole first supply where there are none yet.
  pub record Price (pool_tokens maximum_a maximum_b amount_a amount_b minted : ℕ) : Type 0 where
    pub allows : Dispatch.allows_deposits pool.swap_curve.calculator ≡ true
    pub checked :
        ChecksAccounts platform program_id pool swap_info authority_info token_a_info token_b_info
          pool_mint_info pool_program_info s
    pub token_a : TokenAccount
    pub token_b : TokenAccount
    pub pool_mint : Mint
    pub read_a : platform.unpack_account (s token_a_info.key).contents ≡ some token_a
    pub read_b : platform.unpack_account (s token_b_info.key).contents ≡ some token_b
    pub read_mint : platform.unpack_mint (s pool_mint_info.key).contents ≡ some pool_mint
    pub lp_a : ℕ
    pub lp_b : ℕ
    pub owned_a : lp_a + pool.protocol_fees_a ≡ token_a.amount
    pub owned_b : lp_b + pool.protocol_fees_b ≡ token_b.amount
    pub results : TradingTokenResult
    -- Where there are pool tokens already, the amounts are priced for the asked tokens on the mint's supply,
    -- and those are minted; the first deposit is priced for the whole first supply, which is minted.
    pub answered :
        ((0 < pool_mint.supply)
          × (Dispatch.pool_tokens_to_trading_tokens platform.math pool.swap_curve.calculator
                pool_tokens pool_mint.supply lp_a lp_b Calculator.ceiling
              ≡ some results)
          × (minted ≡ pool_tokens))
        ⊎ ((pool_mint.supply ≡ 0)
            × (Dispatch.pool_tokens_to_trading_tokens platform.math pool.swap_curve.calculator
                  1_000_000_000 1_000_000_000 lp_a lp_b Calculator.ceiling
                ≡ some results)
            × (minted ≡ 1_000_000_000))
    pub charges_a : Charges results.token_a_amount maximum_a amount_a
    pub charges_b : Charges results.token_b_amount maximum_b amount_b

  priced :
      (pool_tokens supply lp_a lp_b minted : ℕ) {results : TradingTokenResult}
      → Dispatch.pool_tokens_to_trading_tokens platform.math pool.swap_curve.calculator
          (share_of pool_tokens supply).0
          (share_of pool_tokens supply).1
          lp_a
          lp_b
          Calculator.ceiling
        ≡ some results
      → minted ≡ (share_of pool_tokens supply).0
      → ((0 < supply)
          × (Dispatch.pool_tokens_to_trading_tokens platform.math pool.swap_curve.calculator
                pool_tokens supply lp_a lp_b Calculator.ceiling
              ≡ some results)
          × (minted ≡ pool_tokens))
        ⊎ ((supply ≡ 0)
            × (Dispatch.pool_tokens_to_trading_tokens platform.math pool.swap_curve.calculator
                  1_000_000_000 1_000_000_000 lp_a lp_b Calculator.ceiling
                ≡ some results)
            × (minted ≡ 1_000_000_000))
  priced pool_tokens supply lp_a lp_b minted {results} answered mints =
      let asks = λ (p : ℕ × ℕ).
        Dispatch.pool_tokens_to_trading_tokens platform.math pool.swap_curve.calculator p.0 p.1 lp_a
          lp_b Calculator.ceiling
        ≡ some results in
      elim (share_cases pool_tokens supply) [
        | inl (live, same) ↦ inl (live, subst asks same answered, mints ∙ ap (λ p. p.0) same)
        | inr (empty, same) ↦ inr (empty, subst asks same answered, mints ∙ ap (λ p. p.0) same)
      ]

  quote_step :
      {B : Type 0} (pool_tokens maximum_a maximum_b : ℕ) (k : ℕ → ℕ → ℕ → Action B) {r : B × Store}
      → Dispatch.allows_deposits pool.swap_curve.calculator ≡ true
      → ChecksAccounts platform program_id pool swap_info authority_info token_a_info token_b_info
          pool_mint_info pool_program_info s
      → (do
        token_a ← unpack_token_account platform token_a_info pool.token_program_id
        token_b ← unpack_token_account platform token_b_info pool.token_program_id
        pool_mint ← unpack_mint platform pool_mint_info pool.token_program_id
        lp_a ← lifted (lp_owned token_a.amount pool.protocol_fees_a)
        lp_b ← lifted (lp_owned token_b.amount pool.protocol_fees_b)
        let share = share_of pool_tokens pool_mint.supply
        results ← lifted (
            ok_or
              (Dispatch.pool_tokens_to_trading_tokens platform.math pool.swap_curve.calculator
                share.0 share.1 lp_a lp_b Calculator.ceiling)
              Calculator.zero_trading_tokens)
        token_a_amount ← require_paid results.token_a_amount maximum_a
        token_b_amount ← require_paid results.token_b_amount maximum_b
        minted ← lifted (to_u64 share.0)
        k token_a_amount token_b_amount minted)
          s
        ≡ ok r
      → (amount_a amount_b minted : ℕ) × Price pool_tokens maximum_a maximum_b amount_a amount_b
          minted
        × (k amount_a amount_b minted s ≡ ok r)
  quote_step pool_tokens maximum_a maximum_b k allows checked h =
      let (token_a, read_a, h1) = token_account_step platform token_a_info _ _ s h in
      let (token_b, read_b, h2) = token_account_step platform token_b_info _ _ s h1 in
      let (pool_mint, read_mint, h3) = mint_step platform pool_mint_info _ _ s h2 in
      let (lp_a, value_a, h4) = lifted_step _ _ s h3 in
      let (lp_b, value_b, h5) = lifted_step _ _ s h4 in
      let (results, answered, h6) = lifted_step _ _ s h5 in
      let (amount_a, charges_a, h7) = charge_step results.token_a_amount maximum_a _ s h6 in
      let (amount_b, charges_b, h8) = charge_step results.token_b_amount maximum_b _ s h7 in
      let (minted, value, h9) = lifted_step _ _ s h8 in
      (
        amount_a,
        amount_b,
        minted,
        record {
          allows = allows;
          checked = checked;
          token_a = token_a;
          token_b = token_b;
          pool_mint = pool_mint;
          read_a = read_a.1;
          read_b = read_b.1;
          read_mint = read_mint.1;
          lp_a = lp_a;
          lp_b = lp_b;
          owned_a = lp_owned_lem token_a.amount pool.protocol_fees_a value_a;
          owned_b = lp_owned_lem token_b.amount pool.protocol_fees_b value_b;
          results = results;
          answered =
              priced pool_tokens pool_mint.supply lp_a lp_b minted (some_of _ _ answered)
                (to_u64_value _ value).0;
          charges_a = charges_a;
          charges_b = charges_b;
        },
        h9,
      )

  abbrev pub DepositedBoth : ℕ → ℕ → ℕ → Type 0
  DepositedBoth pool_tokens maximum_a maximum_b =
      (amount_a amount_b minted : ℕ) × (s1 s2 : Store) × Price pool_tokens maximum_a maximum_b
        amount_a amount_b minted
      × Paid platform pool swap_info program_a_info source_a_info mint_a_info token_a_info user_info
          amount_a s s1
      × Paid platform pool swap_info program_b_info source_b_info mint_b_info token_b_info user_info
          amount_b s1 s2
      × Minted platform pool swap_info pool_program_info pool_mint_info dest_info authority_info
          minted s2 s'

  -- A deposit of both tokens that succeeded: the curve takes deposits, the accounts are the pool's, both
  -- sides were paid what the curve computed, rounded up, from the reserves without the fee counters, a
  -- positive amount within the user's maximum, by the user's authority, into the pool's vaults, and only
  -- then the pool tokens were minted that the amounts were computed for: those asked for, priced on the
  -- mint's supply, or, where there are none yet, the first supply of 1_000_000_000.
  -- Condition: the account holds the pool.
  pub deposit_both_outcome :
      (pool_tokens maximum_a maximum_b : ℕ)
      → HoldsPool platform program_id swap_info s pool
      → deposit_all_token_types platform program_id pool_tokens maximum_a maximum_b
          (swap_info ∷ authority_info ∷ user_info ∷ source_a_info ∷ source_b_info ∷ token_a_info
            ∷ token_b_info ∷ pool_mint_info ∷ dest_info ∷ mint_a_info ∷ mint_b_info ∷ program_a_info
            ∷ program_b_info ∷ pool_program_info ∷ rest)
          s
        ≡ ok (tt, s')
      → DepositedBoth pool_tokens maximum_a maximum_b
  unfolding deposit_all_token_types
  deposit_both_outcome pool_tokens maximum_a maximum_b held h =
      let h1 = held_version_step platform program_id swap_info pool _ s held h in
      let (allows, h2) = require_step _ _ _ s h1 in
      let (checked, h3) =
        accounts_step platform program_id pool swap_info authority_info token_a_info token_b_info
          pool_mint_info pool_program_info _ _ _ s h2 in
      let (amount_a, amount_b, minted, price, h4) =
        quote_step pool_tokens maximum_a maximum_b _ allows checked h3 in
      let (p, e, h5) = check_step _ _ s h4 in
      let (q, e1, h6) = check_step _ _ p.1 h5 in
      (
        amount_a,
        amount_b,
        minted,
        p.1,
        q.1,
        price,
        unpacked_last platform pool swap_info _ _ _ _ _ amount_a s e,
        unpacked_last platform pool swap_info _ _ _ _ _ amount_b p.1 e1,
        mint_last platform pool swap_info _ _ _ _ minted q.1 h6,
      )
