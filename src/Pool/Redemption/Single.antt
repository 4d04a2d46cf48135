-- ===== src/Pool/Redemption/Single.antt =====
-- `WithdrawSingleTokenTypeExactAmountOut` of program/src/processor.rs, when it succeeds.
use mathlib.Core.Path.{subst}
use rome_dex.Base.{
  ℕ, ◌+◌, ◌≤◌, ◌≡◌, ◌≢◌, not, ◌==◌, ==_iff, leb, leb→le, some, List, ◌∷◌, ok, ok_or, arith, inl,
  inr,
}
use rome_dex.Solana.Runtime.{Pubkey, AccountInfo, Store, ◌>>=◌, ◌>>◌, require, fail}
use rome_dex.Solana.Steps.{require_step, read_step, if_step, pure_last}
use rome_dex.Curve.Calculator
use rome_dex.Curve.Calculator.{TradeDirection, a_to_b, b_to_a}
use rome_dex.Curve.SwapCurve
use rome_dex.Pool.Platform.{Platform, TokenAccount, Mint}
use rome_dex.Pool.State.{SwapV2, lifted, from_error}
use rome_dex.Pool.Counters.{lp_owned}
use rome_dex.Pool.Loads.{differ, lifted_step, some_of, to_u64_value, token_account_step, mint_step}
use rome_dex.Pool.Repack.{HoldsPool, held_version_step}
use rome_dex.Pool.Redemption.{
  lp_owned_lem, Paid, unpacked_last, Burned, burn_step, ChecksAccounts, accounts_step,
}
use rome_dex.Pool.Processor.Tokens.{to_u64, unpack_mint, token_burn}
use rome_dex.Pool.Processor.Checks.{check_accounts}
use rome_dex.Pool.Processor.Deposit.{
  transfer_unpacked, direction_of_mint, vault_of, on_side_a, on_side_b,
}
use rome_dex.Pool.Processor.Withdraw.{side_of, withdraw_single_token_type_exact_amount_out}

-- The side whose mint the user's account has.
abbrev pub OnSide : TokenAccount → TokenAccount → TokenAccount → TradeDirection → Type 0
OnSide account token_a token_b a_to_b = account.mint ≡ token_a.mint
OnSide account token_a token_b b_to_a = account.mint ≡ token_b.mint

pub direction_last :
    (account token_a token_b : TokenAccount) (s : Store) {p : TradeDirection × Store}
    → direction_of_mint account token_a token_b s ≡ ok p
    → (p.1 ≡ s) × OnSide account token_a token_b p.0
unfolding direction_of_mint fail
direction_last account token_a token_b s h = elim (if_step (account.mint == token_a.mint) _ _ s h) [
  | inl (on_a, e) ↦ pure_last (OnSide account token_a token_b) a_to_b s ((==_iff _ _).0 on_a) e
  | inr (not_a, e) ↦ elim (if_step (account.mint == token_b.mint) _ _ s e) [
    | inl (on_b, k) ↦ pure_last (OnSide account token_a token_b) b_to_a s ((==_iff _ _).0 on_b) k
    | inr (not_b, k) ↦ cc
  ]
]

-- On the side that pays: the amount is within the reserve, and with the counter within the vault.
abbrev pub Covered : TradeDirection → (amount lp_a lp_b fees_a fees_b total_a total_b : ℕ) → Type 0
Covered a_to_b amount lp_a lp_b fees_a fees_b total_a total_b =
    (amount ≤ lp_a) × (amount + fees_a ≤ total_a)
Covered b_to_a amount lp_a lp_b fees_a fees_b total_a total_b =
    (amount ≤ lp_b) × (amount + fees_b ≤ total_b)

side_fits :
    (direction : TradeDirection) (amount lp_a lp_b fees_a fees_b total_a total_b : ℕ)
    → lp_a + fees_a ≡ total_a
    → lp_b + fees_b ≡ total_b
    → amount ≤ side_of lp_a lp_b direction
    → Covered direction amount lp_a lp_b fees_a fees_b total_a total_b
side_fits a_to_b amount lp_a lp_b fees_a fees_b total_a total_b a b h = (h, omega arith)
side_fits b_to_a amount lp_a lp_b fees_a fees_b total_a total_b a b h = (h, omega arith)

module _ (platform : Platform) (program_id : Pubkey)
    (swap_info authority_info user_info pool_mint_info source_info token_a_info token_b_info
      destination_info mint_info pool_program_info program_info : AccountInfo)
    (rest : List AccountInfo) (pool : SwapV2) (s s' : Store) where
  -- What is known before the burn.
  pub record Priced (amount maximum : ℕ) (direction : TradeDirection) (pool_tokens : ℕ)
      : Type 0 where
    pub checked :
        ChecksAccounts platform program_id pool swap_info authority_info token_a_info token_b_info
          pool_mint_info pool_program_info s
    pub account : TokenAccount
    pub token_a : TokenAccount
    pub token_b : TokenAccount
    pub pool_mint : Mint
    pub read : platform.unpack_account (s destination_info.key).contents ≡ some account
    pub read_a : platform.unpack_account (s token_a_info.key).contents ≡ some token_a
    pub read_b : platform.unpack_account (s token_b_info.key).contents ≡ some token_b
    pub read_mint : platform.unpack_mint (s pool_mint_info.key).contents ≡ some pool_mint
    pub on_side : OnSide account token_a token_b direction
    pub lp_a : ℕ
    pub lp_b : ℕ
    pub owned_a : lp_a + pool.protocol_fees_a ≡ token_a.amount
    pub owned_b : lp_b + pool.protocol_fees_b ≡ token_b.amount
    pub answered :
        SwapCurve.withdraw_single_token_type_exact_out platform.math pool.swap_curve.calculator
          amount lp_a lp_b pool_mint.supply direction pool.fees
        ≡ some pool_tokens
    pub limit : pool_tokens ≤ maximum
    pub costs : pool_tokens ≢ 0
    -- The side's counter stays covered by what is left in its vault.
    pub keeps_fees :
        Covered direction amount lp_a lp_b pool.protocol_fees_a pool.protocol_fees_b token_a.amount
          token_b.amount

  -- The pool's transfer out of the vault of the side.
  abbrev pub OutOfVault : TradeDirection → ℕ → Store → Type 0
  OutOfVault a_to_b amount s1 =
      Paid platform pool swap_info program_info token_a_info mint_info destination_info
        authority_info amount s1 s'
  OutOfVault b_to_a amount s1 =
      Paid platform pool swap_info program_info token_b_info mint_info destination_info
        authority_info amount s1 s'

  out_of_vault :
      (direction : TradeDirection) (amount : ℕ) (s1 : Store)
      → Paid platform pool swap_info program_info
          (vault_of token_a_info token_b_info direction)
          mint_info
          destination_info
          authority_info
          amount
          s1
          s'
      → OutOfVault direction amount s1
  out_of_vault a_to_b amount s1 h = h
  out_of_vault b_to_a amount s1 h = h

  abbrev pub WithdrawnSingle : ℕ → ℕ → Type 0
  WithdrawnSingle amount maximum =
      (direction : TradeDirection) × (pool_tokens : ℕ) × (s1 : Store) × Priced amount maximum
        direction pool_tokens
      × Burned platform pool swap_info pool_program_info source_info pool_mint_info user_info
          pool_tokens s s1
      × OutOfVault direction amount s1

  -- From the checks on.
  price_step :
      (amount maximum : ℕ) (account token_a token_b : TokenAccount) (direction : TradeDirection)
      → platform.unpack_account (s destination_info.key).contents ≡ some account
      → platform.unpack_account (s token_a_info.key).contents ≡ some token_a
      → platform.unpack_account (s token_b_info.key).contents ≡ some token_b
      → OnSide account token_a token_b direction
      → (do
        check_accounts platform program_id pool swap_info authority_info token_a_info token_b_info
            pool_mint_info pool_program_info
            (on_side_a destination_info direction)
            (on_side_b destination_info direction)
        pool_mint ← unpack_mint platform pool_mint_info pool.token_program_id
        lp_a ← lifted (lp_owned token_a.amount pool.protocol_fees_a)
        lp_b ← lifted (lp_owned token_b.amount pool.protocol_fees_b)
        require
            (leb amount (side_of lp_a lp_b direction))
            (from_error Calculator.exceeded_lp_reserve)
        pool_token_amount ← lifted (
            ok_or
              (SwapCurve.withdraw_single_token_type_exact_out platform.math
                pool.swap_curve.calculator amount lp_a lp_b pool_mint.supply direction pool.fees)
              Calculator.zero_trading_tokens)
        burned ← lifted (to_u64 pool_token_amount)
        require (leb burned maximum) (from_error Calculator.exceeded_slippage)
        require (not (pool_token_amount == 0)) (from_error Calculator.zero_trading_tokens)
        token_burn platform swap_info.key pool_program_info source_info pool_mint_info user_info
            pool.bump_seed burned
        transfer_unpacked platform pool swap_info program_info
            (vault_of token_a_info token_b_info direction)
            mint_info
            destination_info
            authority_info
            amount)
          s
        ≡ ok (tt, s')
      → WithdrawnSingle amount maximum
  price_step amount maximum account token_a token_b direction read read_a read_b on_side h =
      let (checked, h1) =
        accounts_step platform program_id pool swap_info authority_info token_a_info token_b_info
          pool_mint_info pool_program_info _ _ _ s h in
      let (pool_mint, read_mint, h2) = mint_step platform pool_mint_info _ _ s h1 in
      let (lp_a, value_a, h3) = lifted_step _ _ s h2 in
      let (lp_b, value_b, h4) = lifted_step _ _ s h3 in
      let (within, h5) = require_step _ _ _ s h4 in
      let (pool_tokens, answered, h6) = lifted_step _ _ s h5 in
      let (burned, value, h7) = lifted_step _ _ s h6 in
      let burned_is = (to_u64_value pool_tokens value).0 in
      let (limit, h8) = require_step _ _ _ s h7 in
      let (costs, h9) = require_step _ _ _ s h8 in
      let (s1, burns, h10) = burn_step platform pool swap_info _ _ _ _ burned _ s h9 in
      let owned_a = lp_owned_lem token_a.amount pool.protocol_fees_a value_a in
      let owned_b = lp_owned_lem token_b.amount pool.protocol_fees_b value_b in
      (
        direction,
        pool_tokens,
        s1,
        record {
          checked = checked;
          account = account;
          token_a = token_a;
          token_b = token_b;
          pool_mint = pool_mint;
          read = read;
          read_a = read_a;
          read_b = read_b;
          read_mint = read_mint.1;
          on_side = on_side;
          lp_a = lp_a;
          lp_b = lp_b;
          owned_a = owned_a;
          owned_b = owned_b;
          answered = some_of _ _ answered;
          limit = subst (λ n. n ≤ maximum) burned_is (leb→le burned maximum limit);
          costs = differ _ _ costs;
          keeps_fees =
              side_fits direction amount lp_a lp_b _ _ _ _ owned_a owned_b (leb→le _ _ within);
        },
        subst
            (λ n.
              Burned platform pool swap_info pool_program_info source_info pool_mint_info user_info
                n s s1)
            burned_is burns,
        out_of_vault direction amount s1
            (unpacked_last platform pool swap_info _ _ _ _ _ amount s1 h10),
      )

  -- A withdrawal of one token that succeeded: the side is the one whose mint the user's account has, the
  -- pool tokens that the curve asks for were burned, not none and at most the user's maximum, and exactly
  -- the asked amount left that side's vault, no more than its reserve without the fee counter, so what
  -- the vault keeps covers the counter.
  -- Condition: the account holds the pool.
  pub withdraw_single_outcome :
      (amount maximum : ℕ)
      → HoldsPool platform program_id swap_info s pool
      → withdraw_single_token_type_exact_amount_out platform program_id amount maximum
          (swap_info ∷ authority_info ∷ user_info ∷ pool_mint_info ∷ source_info ∷ token_a_info
            ∷ token_b_info ∷ destination_info ∷ mint_info ∷ pool_program_info ∷ program_info ∷ rest)
          s
        ≡ ok (tt, s')
      → WithdrawnSingle amount maximum
  unfolding withdraw_single_token_type_exact_amount_out
  withdraw_single_outcome amount maximum held h =
      let h1 = held_version_step platform program_id swap_info pool _ s held h in
      let (account, read, h2) = token_account_step platform destination_info _ _ s h1 in
      let (token_a, read_a, h3) = token_account_step platform token_a_info _ _ s h2 in
      let (token_b, read_b, h4) = token_account_step platform token_b_info _ _ s h3 in
      let (direction, on_side, h5) =
        read_step (OnSide account token_a token_b) _ _ s
          (λ p e. direction_last account token_a token_b s e) h4 in
      price_step amount maximum account token_a token_b direction read.1 read_a.1 read_b.1 on_side
        h5
