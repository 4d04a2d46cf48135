-- ===== src/Pool/Funding/Single.antt =====
-- `DepositSingleTokenTypeExactAmountIn` of program/src/processor.rs, when it succeeds.
use mathlib.Core.Path.{subst}
use rome_dex.Base.{
  ℕ, ◌+◌, ◌≤◌, ◌<◌, refl, ◌≡◌, ◌≢◌, true, not, ◌==◌, ltb, leb, leb→le, sym, some, List, ◌∷◌, ok,
  arith, inl, inr, ◌⊎◌,
}
use rome_dex.Solana.Runtime.{Pubkey, AccountInfo, Store, ◌>>=◌, ◌>>◌, require}
use rome_dex.Solana.Steps.{require_step, read_step, check_step, if_step, pure_last}
use rome_dex.Curve.Calculator
use rome_dex.Curve.Calculator.{TradeDirection, a_to_b, b_to_a}
use rome_dex.Curve.SwapCurve
use rome_dex.Curve.SwapCurve.Dispatch
use rome_dex.Pool.Platform.{Platform, TokenAccount, Mint}
use rome_dex.Pool.State.{SwapV2, lifted, from_error}
use rome_dex.Pool.Counters.{lp_owned}
use rome_dex.Pool.Loads.{
  differ, lifted_step, lifted_last, some_of, to_u64_value, token_account_step, mint_step,
}
use rome_dex.Pool.Repack.{HoldsPool, held_version_step}
use rome_dex.Pool.Redemption.{lp_owned_lem, Paid, unpacked_last, ChecksAccounts, accounts_step}
use rome_dex.Pool.Redemption.Single.{OnSide, direction_last}
use rome_dex.Pool.Funding.{Minted, mint_last}
use rome_dex.Pool.Processor.Tokens.{to_u64, unpack_mint, token_mint_to}
use rome_dex.Pool.Processor.Checks.{check_accounts}
use rome_dex.Pool.Processor.Deposit.{
  transfer_unpacked, pool_tokens_for, vault_of, on_side_a, on_side_b,
  deposit_single_token_type_exact_amount_in,
}

module _ (platform : Platform) (program_id : Pubkey)
    (swap_info authority_info user_info source_info token_a_info token_b_info pool_mint_info
      destination_info mint_info program_info pool_program_info : AccountInfo)
    (rest : List AccountInfo) (pool : SwapV2) (s s' : Store) where
  -- The pool tokens for an amount: the curve's answer, or the first supply where there are none yet.
  abbrev pub Worth : ℕ → ℕ → ℕ → ℕ → TradeDirection → ℕ → Type 0
  Worth amount lp_a lp_b supply direction pool_tokens =
      ((0 < supply)
        × (SwapCurve.deposit_single_token_type platform.math pool.swap_curve.calculator amount lp_a
              lp_b supply direction pool.fees
            ≡ some pool_tokens))
      ⊎ ((supply ≡ 0) × (pool_tokens ≡ 1_000_000_000))

  answer_last :
      (amount lp_a lp_b supply : ℕ) (direction : TradeDirection) {p : ℕ × Store}
      → pool_tokens_for platform pool amount lp_a lp_b supply direction s ≡ ok p
      → (p.1 ≡ s) × Worth amount lp_a lp_b supply direction p.0
  unfolding pool_tokens_for
  answer_last amount lp_a lp_b supply direction h = elim (if_step (ltb 0 supply) _ _ s h) [
    | inl (some_yet, e) ↦
        let (stays, answered) = lifted_last _ s e in
        (stays, inl (ground arith, some_of _ _ answered))
    | inr (none_yet, e) ↦
        pure_last (Worth amount lp_a lp_b supply direction) Dispatch.new_pool_supply s
          (inr (ground arith, refl)) e
  ]

  -- What is known before the transfer.
  pub record Credit (amount minimum : ℕ) (direction : TradeDirection) (pool_tokens : ℕ)
      : Type 0 where
    pub allows : Dispatch.allows_deposits pool.swap_curve.calculator ≡ true
    pub checked :
        ChecksAccounts platform program_id pool swap_info authority_info token_a_info token_b_info
          pool_mint_info pool_program_info s
    pub account : TokenAccount
    pub token_a : TokenAccount
    pub token_b : TokenAccount
    pub pool_mint : Mint
    pub read : platform.unpack_account (s source_info.key).contents ≡ some account
    pub read_a : platform.unpack_account (s token_a_info.key).contents ≡ some token_a
    pub read_b : platform.unpack_account (s token_b_info.key).contents ≡ some token_b
    pub read_mint : platform.unpack_mint (s pool_mint_info.key).contents ≡ some pool_mint
    pub on_side : OnSide account token_a token_b direction
    pub lp_a : ℕ
    pub lp_b : ℕ
    pub owned_a : lp_a + pool.protocol_fees_a ≡ token_a.amount
    pub owned_b : lp_b + pool.protocol_fees_b ≡ token_b.amount
    pub worth : Worth amount lp_a lp_b pool_mint.supply direction pool_tokens
    pub reaches : minimum ≤ pool_tokens
    pub gives : pool_tokens ≢ 0

  -- The user's transfer into the vault of the side.
  abbrev pub IntoVault : TradeDirection → ℕ → Store → Type 0
  IntoVault a_to_b amount s1 =
      Paid platform pool swap_info program_info source_info mint_info token_a_info user_info amount
        s s1
  IntoVault b_to_a amount s1 =
      Paid platform pool swap_info program_info source_info mint_info token_b_info user_info amount
        s s1

  into_vault :
      (direction : TradeDirection) (amount : ℕ) (s1 : Store)
      → Paid platform pool swap_info program_info source_info mint_info
          (vault_of token_a_info token_b_info direction)
          user_info
          amount
          s
          s1
      → IntoVault direction amount s1
  into_vault a_to_b amount s1 h = h
  into_vault b_to_a amount s1 h = h

  abbrev pub DepositedSingle : ℕ → ℕ → Type 0
  DepositedSingle amount minimum =
      (direction : TradeDirection) × (pool_tokens : ℕ) × (s1 : Store) × Credit amount minimum
        direction pool_tokens
      × IntoVault direction amount s1
      × Minted platform pool swap_info pool_program_info pool_mint_info destination_info
          authority_info pool_tokens s1 s'

  -- From the checks on.
  single_step :
      (amount minimum : ℕ) (account token_a token_b : TokenAccount) (direction : TradeDirection)
      → Dispatch.allows_deposits pool.swap_curve.calculator ≡ true
      → platform.unpack_account (s source_info.key).contents ≡ some account
      → platform.unpack_account (s token_a_info.key).contents ≡ some token_a
      → platform.unpack_account (s token_b_info.key).contents ≡ some token_b
      → OnSide account token_a token_b direction
      → (do
        check_accounts platform program_id pool swap_info authority_info token_a_info token_b_info
            pool_mint_info pool_program_info
            (on_side_a source_info direction)
            (on_side_b source_info direction)
        pool_mint ← unpack_mint platform pool_mint_info pool.token_program_id
        lp_a ← lifted (lp_owned token_a.amount pool.protocol_fees_a)
        lp_b ← lifted (lp_owned token_b.amount pool.protocol_fees_b)
        computed ← pool_tokens_for platform pool amount lp_a lp_b pool_mint.supply direction
        pool_token_amount ← lifted (to_u64 computed)
        require (leb minimum pool_token_amount) (from_error Calculator.exceeded_slippage)
        require (not (pool_token_amount == 0)) (from_error Calculator.zero_trading_tokens)
        transfer_unpacked platform pool swap_info program_info source_info mint_info
            (vault_of token_a_info token_b_info direction)
            user_info
            amount
        token_mint_to platform swap_info.key pool_program_info pool_mint_info destination_info
            authority_info pool.bump_seed pool_token_amount)
          s
        ≡ ok (tt, s')
      → DepositedSingle amount minimum
  single_step amount minimum account token_a token_b direction allows read read_a read_b on_side h =
      let (checked, h1) =
        accounts_step platform program_id pool swap_info authority_info token_a_info token_b_info
          pool_mint_info pool_program_info _ _ _ s h in
      let (pool_mint, read_mint, h2) = mint_step platform pool_mint_info _ _ s h1 in
      let (lp_a, value_a, h3) = lifted_step _ _ s h2 in
      let (lp_b, value_b, h4) = lifted_step _ _ s h3 in
      let (computed, worth, h5) =
        read_step (Worth amount lp_a lp_b pool_mint.supply direction) _ _ s
          (λ p e. answer_last amount lp_a lp_b pool_mint.supply direction e) h4 in
      let (pool_tokens, value, h6) = lifted_step _ _ s h5 in
      let (reaches, h7) = require_step _ _ _ s h6 in
      let (gives, h8) = require_step _ _ _ s h7 in
      let (p, e, h9) = check_step _ _ s h8 in
      (
        direction,
        pool_tokens,
        p.1,
        record {
          allows = allows;
          checked = checked;
          account = account;
          token_a = token_a;
          token_b = token_b;
          pool_mint = pool_mint;
          read = read;
          read_a = read_a;
          read_b = read_b;
          read_mint = read_mint.1;
          on_side = on_side;
          lp_a = lp_a;
          lp_b = lp_b;
          owned_a = lp_owned_lem token_a.amount pool.protocol_fees_a value_a;
          owned_b = lp_owned_lem token_b.amount pool.protocol_fees_b value_b;
          worth =
              subst (Worth amount lp_a lp_b pool_mint.supply direction)
                (sym (to_u64_value computed value).0) worth;
          reaches = leb→le _ _ reaches;
          gives = differ _ _ gives;
        },
        into_vault direction amount p.1
            (unpacked_last platform pool swap_info _ _ _ _ _ amount s e),
        mint_last platform pool swap_info _ _ _ _ pool_tokens p.1 h9,
      )

  -- A deposit of one token that succeeded: the curve takes deposits, the side is the one whose mint the
  -- user's account has, the user paid exactly the given amount into that side's vault, and then the pool
  -- tokens were minted that the curve gives for it on the reserves without the fee counters (the first
  -- supply where there are none yet), not none and at least the user's minimum.
  -- Condition: the account holds the pool.
  pub deposit_single_outcome :
      (amount minimum : ℕ)
      → HoldsPool platform program_id swap_info s pool
      → deposit_single_token_type_exact_amount_in platform program_id amount minimum
          (swap_info ∷ authority_info ∷ user_info ∷ source_info ∷ token_a_info ∷ token_b_info
            ∷ pool_mint_info ∷ destination_info ∷ mint_info ∷ program_info ∷ pool_program_info
            ∷ rest)
          s
        ≡ ok (tt, s')
      → DepositedSingle amount minimum
  unfolding deposit_single_token_type_exact_amount_in
  deposit_single_outcome amount minimum held h =
      let h1 = held_version_step platform program_id swap_info pool _ s held h in
      let (allows, h2) = require_step _ _ _ s h1 in
      let (account, read, h3) = token_account_step platform source_info _ _ s h2 in
      let (token_a, read_a, h4) = token_account_step platform token_a_info _ _ s h3 in
      let (token_b, read_b, h5) = token_account_step platform token_b_info _ _ s h4 in
      let (direction, on_side, h6) =
        read_step (OnSide account token_a token_b) _ _ s
          (λ p e. direction_last account token_a token_b s e) h5 in
      single_step amount minimum account token_a token_b direction allows read.1 read_a.1 read_b.1
        on_side h6
