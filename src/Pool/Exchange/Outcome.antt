-- ===== src/Pool/Exchange/Outcome.antt =====
-- A swap of program/src/processor.rs that succeeded, from the checked accounts to the two transfers and
-- the fee counter.
use mathlib.Core.Path.{subst}
use rome_dex.Base.{ℕ, ◌+◌, ◌<◌, ◌^◌, ◌≡◌, ◌≢◌, some, List, ◌∷◌, ok}
use rome_dex.Solana.Runtime.{Pubkey, AccountInfo, Store, Action, RuntimeLaws, ◌>>=◌, ◌>>◌}
use rome_dex.Solana.Steps.{check_step}
use rome_dex.Curve.Calculator.{TradeDirection}
use rome_dex.Curve.SwapCurve.{SwapResult}
use rome_dex.Pool.Platform.{Platform, PackLaws, TokenAccount, Mint}
use rome_dex.Pool.State.{SwapV2, lifted}
use rome_dex.Pool.Counters.{lp_reserves}
use rome_dex.Pool.Codec.RoundTrips.{IsSwapV2}
use rome_dex.Pool.Loads.{lifted_step, token_account_step, to_u64_value}
use rome_dex.Pool.Repack.{HoldsPool, Transferred, transfer_step, transfer_last, kept}
use rome_dex.Pool.Exchange.{
  Within, within, guard_input_step, Arrives, Answers, Sends, curve_step, source_step,
  destination_step,
}
use rome_dex.Pool.Exchange.Admission.{
  SwapAdmits, fees_in, fees_out, admit_held_step, lp_reserves_lem,
}
use rome_dex.Pool.Exchange.Accrual.{with_fee, accrue_fee_step}
use rome_dex.Pool.Processor.Tokens.{to_u64, unpack_token_account, token_transfer}
use rome_dex.Pool.Processor.Swap.{
  SwapSpec, direction_from, guard_input, curve_result, source_side, destination_side, accrue_fee,
  swap_generic,
}

module _ (platform : Platform) (program_id : Pubkey) (packs : PackLaws platform)
    (laws : RuntimeLaws platform.runtime program_id)
    (swap_info authority_info user_info source_info swap_source_info swap_destination_info
      destination_info pool_mint_info source_mint_info destination_mint_info source_program_info
      destination_program_info pool_program_info : AccountInfo)
    (rest : List AccountInfo) (pool : SwapV2) (s s' : Store) where
  abbrev direction : TradeDirection
  direction = direction_from swap_source_info pool

  -- What was read and computed before the first transfer.
  pub record Quoted (spec : SwapSpec) (result : SwapResult) (sent paid : ℕ) : Type 0 where
    pub admits :
        SwapAdmits platform program_id swap_info authority_info source_info swap_source_info
          swap_destination_info destination_info pool_mint_info pool_program_info s pool
    pub source_account : TokenAccount
    pub dest_account : TokenAccount
    pub source_read :
        platform.unpack_account (s swap_source_info.key).contents ≡ some source_account
    pub dest_read :
        platform.unpack_account (s swap_destination_info.key).contents ≡ some dest_account
    pub lp_source : ℕ
    pub lp_dest : ℕ
    pub source_owned : lp_source + fees_in pool direction ≡ source_account.amount
    pub dest_owned : lp_dest + fees_out pool direction ≡ dest_account.amount
    pub answered : Answers platform spec pool source_mint_info direction lp_source lp_dest s result
    -- The user sends what the curve takes, grossed up for the transfer fee of the source's mint.
    pub sent_is : Sends platform source_mint_info result.source_amount_swapped s sent
    pub paid_is : paid ≡ result.destination_amount_swapped
    -- The user receives what the transfer fee of the destination's mint leaves, within the limit.
    pub received : ℕ
    pub destination_mint : Mint
    pub mint_read :
        platform.unpack_mint (s destination_mint_info.key).contents ≡ some destination_mint
    pub arrives : Arrives platform destination_mint.transfer_fee_config paid received
    pub limits : Within spec sent received

  -- The two transfers and the counter between them.
  pub record Settled (result : SwapResult) (sent paid : ℕ) : Type 0 where
    pub source_decimals : ℕ
    pub paid_decimals : ℕ
    pub s1 : Store
    pub s2 : Store
    pub taken :
        Transferred platform swap_info.key source_program_info source_info source_mint_info
          swap_source_info user_info pool.bump_seed sent source_decimals s s1
    pub only_pool : (k : Pubkey) → k ≢ swap_info.key → s2 k ≡ s1 k
    pub given :
        Transferred platform swap_info.key destination_program_info swap_destination_info
          destination_mint_info destination_info authority_info pool.bump_seed paid paid_decimals s2
          s'
    pub counter_fits : fees_in pool direction + result.owner_fee < 2 ^ 64
    pub booked :
        HoldsPool platform program_id swap_info s' (with_fee pool direction result.owner_fee)

  abbrev pub Swapped : SwapSpec → Type 0
  Swapped spec =
      (result : SwapResult) × (sent paid : ℕ) × Quoted spec result sent paid
      × Settled result sent paid

  -- The reads and computations before the first transfer, with what follows them.
  quote_step :
      {B : Type 0} (spec : SwapSpec) (k : SwapResult → ℕ × ℕ → ℕ × ℕ → Action B) {r : B × Store}
      → SwapAdmits platform program_id swap_info authority_info source_info swap_source_info
          swap_destination_info destination_info pool_mint_info pool_program_info s pool
      → (do
        source_account ← unpack_token_account platform swap_source_info pool.token_program_id
        dest_account ← unpack_token_account platform swap_destination_info pool.token_program_id
        reserves ← lifted (lp_reserves pool direction source_account.amount dest_account.amount)
        result ← curve_result platform spec pool source_mint_info direction reserves.0 reserves.1
        sent ← source_side platform pool result source_mint_info
        guard_input spec sent.0
        paid ← destination_side platform spec pool result destination_mint_info
        k result sent paid)
          s
        ≡ ok r
      → (result : SwapResult) × (sent paid : ℕ × ℕ) × Quoted spec result sent.0 paid.0
        × (k result sent paid s ≡ ok r)
  quote_step spec k admits h1 =
      let (source_account, source_read, h2) =
        token_account_step platform swap_source_info _ _ s h1 in
      let (dest_account, dest_read, h3) =
        token_account_step platform swap_destination_info _ _ s h2 in
      let (reserves, excluded, h4) = lifted_step _ _ s h3 in
      let (source_owned, dest_owned) = lp_reserves_lem pool direction _ _ excluded in
      let (result, answered, h5) =
        curve_step platform spec pool source_mint_info direction reserves.0 reserves.1 _ s h4 in
      let (sent, sends, h6) = source_step platform pool result source_mint_info _ s h5 in
      let (input, h7) = guard_input_step spec sent.0 _ s h6 in
      let (paid, (paid_is, received, mint, read, arrives, reached), h8) =
        destination_step platform spec pool result destination_mint_info _ s h7 in
      (
        result,
        sent,
        paid,
        record {
          admits = admits;
          source_account = source_account;
          dest_account = dest_account;
          source_read = source_read.1;
          dest_read = dest_read.1;
          lp_source = reserves.0;
          lp_dest = reserves.1;
          source_owned = source_owned;
          dest_owned = dest_owned;
          answered = answered;
          sent_is = sends;
          paid_is = paid_is;
          received = received;
          destination_mint = mint;
          mint_read = read;
          arrives = arrives;
          limits = within spec sent.0 received input reached;
        },
        h8,
      )

  -- The transfers and the counter.
  settle_swap :
      (result : SwapResult) (sent paid : ℕ × ℕ)
      → HoldsPool platform program_id swap_info s pool
      → IsSwapV2 pool
      → (do
        token_transfer platform swap_info.key source_program_info source_info source_mint_info
            swap_source_info user_info pool.bump_seed sent.0 sent.1
        owner_fee ← lifted (to_u64 result.owner_fee)
        accrue_fee platform program_id swap_info direction owner_fee
        token_transfer platform swap_info.key destination_program_info swap_destination_info
            destination_mint_info destination_info authority_info pool.bump_seed paid.0 paid.1)
          s
        ≡ ok (tt, s')
      → Settled result sent.0 paid.0
  settle_swap result sent paid held fits h =
      let (s1, taken, h1) = transfer_step platform _ _ _ _ _ _ _ _ _ _ s h in
      let (fee, value, h2) = lifted_step _ _ s1 h1 in
      let fee_is = (to_u64_value result.owner_fee value).0 in
      let h3 =
        subst
          (λ n.
            (accrue_fee platform program_id swap_info direction n
                >> token_transfer platform swap_info.key destination_program_info
                    swap_destination_info destination_mint_info destination_info authority_info
                    pool.bump_seed paid.0 paid.1)
              s1
            ≡ ok (tt, s'))
          fee_is h2 in
      let (p, accrues, h4) = check_step _ _ s1 h3 in
      let held1 = kept platform program_id laws swap_info pool s s1 held taken in
      let (held2, small, others) =
        accrue_fee_step platform packs program_id swap_info pool direction result.owner_fee s1 held1
          fits accrues in
      let given = transfer_last platform _ _ _ _ _ _ _ _ _ p.1 h4 in
      record {
        source_decimals = sent.1;
        paid_decimals = paid.1;
        s1 = s1;
        s2 = p.1;
        taken = taken;
        only_pool = others;
        given = given;
        counter_fits = small;
        booked = kept platform program_id laws swap_info _ p.1 s' held2 given;
      }

  -- A swap that succeeded, exact in or exact out: the pool's two vaults were named, and the curve answered
  -- on the vaults' amounts without the fee counters, for an exact input on what arrives of it after the
  -- transfer fee of the source's mint. The user sent exactly what the curve takes, grossed up for that
  -- transfer fee; the pool paid exactly what the curve gives. An exact input receives at least its minimum
  -- after the transfer fee of the destination's mint, and an exact output sends at most its maximum. The
  -- pool's account then differs by the owner's fee on the counter of the source's side, and in nothing
  -- else.
  -- Conditions: the account holds a pool whose fields fit their types, the runtime keeps `RuntimeLaws` and
  -- `Pack` keeps `PackLaws`.
  pub swap_outcome :
      (spec : SwapSpec)
      → HoldsPool platform program_id swap_info s pool
      → IsSwapV2 pool
      → swap_generic platform program_id spec
          (swap_info ∷ authority_info ∷ user_info ∷ source_info ∷ swap_source_info
            ∷ swap_destination_info ∷ destination_info ∷ pool_mint_info ∷ source_mint_info
            ∷ destination_mint_info ∷ source_program_info ∷ destination_program_info
            ∷ pool_program_info ∷ rest)
          s
        ≡ ok (tt, s')
      → Swapped spec
  unfolding swap_generic
  swap_outcome spec held fits h =
      let (admits, h1) =
        admit_held_step platform program_id swap_info authority_info source_info swap_source_info
          swap_destination_info destination_info pool_mint_info pool_program_info pool _ s held h in
      let (result, sent, paid, quoted, h2) = quote_step spec _ admits h1 in
      (result, sent.0, paid.0, quoted, settle_swap result sent paid held fits h2)
