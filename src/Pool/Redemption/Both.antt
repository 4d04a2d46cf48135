-- ===== src/Pool/Redemption/Both.antt =====
-- `WithdrawAllTokenTypes` of program/src/processor.rs, when it succeeds.
use mathlib.Core.Path.{subst}
use rome_dex.Base.{ℕ, ◌+◌, ◌≤◌, ◌≡◌, some, List, ◌∷◌, ok, ok_or, arith}
use rome_dex.Solana.Runtime.{Pubkey, AccountInfo, Store, Action, ◌>>=◌}
use rome_dex.Solana.Steps.{check_step}
use rome_dex.Curve.Calculator
use rome_dex.Curve.Calculator.{TradingTokenResult}
use rome_dex.Curve.SwapCurve.Dispatch
use rome_dex.Pool.Platform.{Platform, TokenAccount, Mint}
use rome_dex.Pool.State.{SwapV2, lifted}
use rome_dex.Pool.Counters.{lp_owned}
use rome_dex.Pool.Loads.{lifted_step, some_of, to_u64_value, token_account_step, mint_step}
use rome_dex.Pool.Repack.{HoldsPool, held_version_step}
use rome_dex.Pool.Redemption.{
  lp_owned_lem, Clamps, clamp_step, PaidIfAny, positive_last, Burned, burn_step, ChecksAccounts,
  accounts_step,
}
use rome_dex.Pool.Processor.Tokens.{to_u64, unpack_token_account, unpack_mint}
use rome_dex.Pool.Processor.Withdraw.{clamped, withdraw_all_token_types}

still_covered : (a lp fees total : ℕ) → lp + fees ≡ total → a ≤ lp → a + fees ≤ total
still_covered a lp fees total h k = omega arith

module _ (platform : Platform) (program_id : Pubkey)
    (swap_info authority_info user_info pool_mint_info source_info token_a_info token_b_info
      dest_a_info dest_b_info mint_a_info mint_b_info pool_program_info program_a_info
      program_b_info : AccountInfo)
    (rest : List AccountInfo) (pool : SwapV2) (s s' : Store) where
  -- What is computed before the burn: both amounts, from the reserves without the fee counters.
  pub record Shares (pool_tokens minimum_a minimum_b amount_a amount_b : ℕ) : Type 0 where
    pub checked :
        ChecksAccounts platform program_id pool swap_info authority_info token_a_info token_b_info
          pool_mint_info pool_program_info s
    pub token_a : TokenAccount
    pub token_b : TokenAccount
    pub pool_mint : Mint
    pub read_a : platform.unpack_account (s token_a_info.key).contents ≡ some token_a
    pub read_b : platform.unpack_account (s token_b_info.key).contents ≡ some token_b
    pub read_mint : platform.unpack_mint (s pool_mint_info.key).contents ≡ some pool_mint
    pub lp_a : ℕ
    pub lp_b : ℕ
    pub owned_a : lp_a + pool.protocol_fees_a ≡ token_a.amount
    pub owned_b : lp_b + pool.protocol_fees_b ≡ token_b.amount
    pub results : TradingTokenResult
    pub answered :
        Dispatch.pool_tokens_to_trading_tokens platform.math pool.swap_curve.calculator pool_tokens
          pool_mint.supply lp_a lp_b Calculator.floor
        ≡ some results
    pub clamps_a : Clamps results.token_a_amount lp_a minimum_a amount_a
    pub clamps_b : Clamps results.token_b_amount lp_b minimum_b amount_b
    -- The counters stay covered by what is left in the vaults.
    pub keeps_fees_a : amount_a + pool.protocol_fees_a ≤ token_a.amount
    pub keeps_fees_b : amount_b + pool.protocol_fees_b ≤ token_b.amount

  payouts_step :
      {B : Type 0} (pool_tokens minimum_a minimum_b : ℕ) (k : ℕ → ℕ → ℕ → Action B) {r : B × Store}
      → ChecksAccounts platform program_id pool swap_info authority_info token_a_info token_b_info
          pool_mint_info pool_program_info s
      → (do
        token_a ← unpack_token_account platform token_a_info pool.token_program_id
        token_b ← unpack_token_account platform token_b_info pool.token_program_id
        pool_mint ← unpack_mint platform pool_mint_info pool.token_program_id
        lp_a ← lifted (lp_owned token_a.amount pool.protocol_fees_a)
        lp_b ← lifted (lp_owned token_b.amount pool.protocol_fees_b)
        results ← lifted (
            ok_or
              (Dispatch.pool_tokens_to_trading_tokens platform.math pool.swap_curve.calculator
                pool_tokens pool_mint.supply lp_a lp_b Calculator.floor)
              Calculator.zero_trading_tokens)
        token_a_amount ← clamped results.token_a_amount lp_a minimum_a
        token_b_amount ← clamped results.token_b_amount lp_b minimum_b
        burned ← lifted (to_u64 pool_tokens)
        k token_a_amount token_b_amount burned)
          s
        ≡ ok r
      → (amount_a amount_b : ℕ) × Shares pool_tokens minimum_a minimum_b amount_a amount_b
        × (k amount_a amount_b pool_tokens s ≡ ok r)
  payouts_step pool_tokens minimum_a minimum_b k {r} checked h =
      let (token_a, read_a, h1) = token_account_step platform token_a_info _ _ s h in
      let (token_b, read_b, h2) = token_account_step platform token_b_info _ _ s h1 in
      let (pool_mint, read_mint, h3) = mint_step platform pool_mint_info _ _ s h2 in
      let (lp_a, value_a, h4) = lifted_step _ _ s h3 in
      let (lp_b, value_b, h5) = lifted_step _ _ s h4 in
      let owned_a = lp_owned_lem token_a.amount pool.protocol_fees_a value_a in
      let owned_b = lp_owned_lem token_b.amount pool.protocol_fees_b value_b in
      let (results, answered, h6) = lifted_step _ _ s h5 in
      let (amount_a, clamps_a, h7) = clamp_step results.token_a_amount lp_a minimum_a _ s h6 in
      let (amount_b, clamps_b, h8) = clamp_step results.token_b_amount lp_b minimum_b _ s h7 in
      let (burned, value, h9) = lifted_step _ _ s h8 in
      let burned_is = (to_u64_value pool_tokens value).0 in
      (
        amount_a,
        amount_b,
        record {
          checked = checked;
          token_a = token_a;
          token_b = token_b;
          pool_mint = pool_mint;
          read_a = read_a.1;
          read_b = read_b.1;
          read_mint = read_mint.1;
          lp_a = lp_a;
          lp_b = lp_b;
          owned_a = owned_a;
          owned_b = owned_b;
          results = results;
          answered = some_of _ _ answered;
          clamps_a = clamps_a;
          clamps_b = clamps_b;
          keeps_fees_a = still_covered amount_a lp_a _ _ owned_a clamps_a.covered;
          keeps_fees_b = still_covered amount_b lp_b _ _ owned_b clamps_b.covered;
        },
        subst (λ n. k amount_a amount_b n s ≡ ok r) burned_is h9,
      )

  abbrev pub WithdrawnBoth : ℕ → ℕ → ℕ → Type 0
  WithdrawnBoth pool_tokens minimum_a minimum_b =
      (amount_a amount_b : ℕ) × (s1 s2 : Store) × Shares pool_tokens minimum_a minimum_b amount_a
        amount_b
      × Burned platform pool swap_info pool_program_info source_info pool_mint_info user_info
          pool_tokens s s1
      × PaidIfAny platform pool swap_info program_a_info token_a_info mint_a_info dest_a_info
          authority_info amount_a s1 s2
      × PaidIfAny platform pool swap_info program_b_info token_b_info mint_b_info dest_b_info
          authority_info amount_b s2 s'

  -- A withdrawal of both tokens that succeeded: the whole given amount of pool tokens was burned, each
  -- side paid what the curve computed from the reserves without the fee counters, cut to that reserve,
  -- at least the user's minimum and nothing only from an empty reserve, so what a vault keeps covers its
  -- counter.
  -- Condition: the account holds the pool.
  pub withdraw_both_outcome :
      (pool_tokens minimum_a minimum_b : ℕ)
      → HoldsPool platform program_id swap_info s pool
      → withdraw_all_token_types platform program_id pool_tokens minimum_a minimum_b
          (swap_info ∷ authority_info ∷ user_info ∷ pool_mint_info ∷ source_info ∷ token_a_info
            ∷ token_b_info ∷ dest_a_info ∷ dest_b_info ∷ mint_a_info ∷ mint_b_info
            ∷ pool_program_info ∷ program_a_info ∷ program_b_info ∷ rest)
          s
        ≡ ok (tt, s')
      → WithdrawnBoth pool_tokens minimum_a minimum_b
  unfolding withdraw_all_token_types
  withdraw_both_outcome pool_tokens minimum_a minimum_b held h =
      let h1 = held_version_step platform program_id swap_info pool _ s held h in
      let (checked, h2) =
        accounts_step platform program_id pool swap_info authority_info token_a_info token_b_info
          pool_mint_info pool_program_info _ _ _ s h1 in
      let (amount_a, amount_b, shares, h3) =
        payouts_step pool_tokens minimum_a minimum_b _ checked h2 in
      let (s1, burned, h4) = burn_step platform pool swap_info _ _ _ _ pool_tokens _ s h3 in
      let (p, e, h5) = check_step _ _ s1 h4 in
      (
        amount_a,
        amount_b,
        s1,
        p.1,
        shares,
        burned,
        positive_last platform pool swap_info _ _ _ _ _ amount_a s1 e,
        positive_last platform pool swap_info _ _ _ _ _ amount_b p.1 h5,
      )
